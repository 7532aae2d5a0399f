-- ===== src/Mpt/Insert.antt =====
-- `Insert` and then `Get` of the same key.
use simple_standalone_versio.Base.{
  ℕ, zero, suc, ◌<◌, ◌≡◌, ◌≢◌, refl, ap, sym, ◌∙◌, Bool, true, false, Option, none, some, [], ◌∷◌,
  ◌++◌, ◌==◌, ◌&&◌, if◌then◌else◌, length, take, drop, take-append-drop, Bytes, All-drop, arith,
  Bool-cases, inl, inr, ==_iff,
}
use simple_standalone_versio.Mpt.{
  Node, Children, nil, branch, extension, leaf, end, child, shared_prefix, leaf_value, get,
  get_child, insert, insert_child,
}
use simple_standalone_versio.Mpt.Shape.{
  IsNibbles, IsTrie, AreTries, count, get-leaf, get-extension, set_child_lem,
}
use simple_standalone_versio.Mpt.Split.{
  one_left, take-shared_prefix, Inserted, split_leaf_lem, split_extension_lem,
}

-- Whether the walk of `insert` ends in a split that leaves exactly one nibble of the key.
unfoldable mutual
  pub drops_nibble : Node → Bytes → Bool
  drops_nibble nil key = false
  drops_nibble (branch cs) [] = false
  drops_nibble (branch cs) (i ∷ key) = drops_nibble_child cs i key
  drops_nibble (extension shared next) key =
      let p : ℕ = shared_prefix key shared in
      let below = drops_nibble next (drop p key) in
      if p == length shared then below else one_left (drop p key)
  drops_nibble (leaf k v) key =
      let p : ℕ = shared_prefix key k in
      if p == length key && p == length k then false else one_left (drop p key)

  pub drops_nibble_child : Children → ℕ → Bytes → Bool
  drops_nibble_child end i key = false
  drops_nibble_child (child n cs) zero key = drops_nibble n key
  drops_nibble_child (child n cs) (suc i) key = drops_nibble_child cs i key

-- the same of an insertion into one child of a branch
abbrev pub InsertedChild : Children → ℕ → Bytes → Bytes → Type 0
InsertedChild cs i key value =
    (cs' : Children) × (insert_child cs i key value ≡ some cs')
    × (count cs' ≡ count cs)
    × AreTries cs'
    × (get_child cs' i key ≡ (if drops_nibble_child cs i key then none else some value))

take-length : (xs : Bytes) → take (length xs) xs ≡ xs
take-length [] = refl
take-length (x ∷ xs) = ap (◌∷◌ x) (take-length xs)

drop-ne_nil :
    (xs ys : Bytes)
    → (shared_prefix ys xs == length xs) ≡ false
    → drop (shared_prefix ys xs) xs ≢ []
unfolding shared_prefix
drop-ne_nil [] [] h e = ground arith
drop-ne_nil [] (y ∷ ys) h e = ground arith
drop-ne_nil (x ∷ xs) [] h e = cc
drop-ne_nil (x ∷ xs) (y ∷ ys) h e = elim (Bool-cases (y == x)) [
  | inl s ↦ drop-ne_nil xs ys (ground arith) (rw s at e)
  | inr s ↦ absurd (let c : x ∷ xs ≡ [] = rw s at e in cc c)
]

-- a key whose shared prefix is a whole path goes on behind the path
whole_prefix :
    (key path : Bytes)
    → (shared_prefix key path == length path) ≡ true
    → path ++ drop (shared_prefix key path) key ≡ key
whole_prefix key path e =
    let p = shared_prefix key path in
    let l : p ≡ length path = (==_iff p (length path)).0 e in
    let same : take p key ≡ path =
      take-shared_prefix key path ∙ ap (λ n. take n path) l ∙ take-length path in
    ap (λ s. s ++ drop p key) (sym same) ∙ take-append-drop p key

-- reading on behind an extension
through :
    (shared : Bytes) (next : Node) (rest key : Bytes)
    → shared ++ rest ≡ key
    → {o : Option Bytes} → get next rest ≡ o
    → get (extension shared next) key ≡ o
through shared next rest key e g = rw (← e) (get-extension shared rest next ∙ g)

-- two keys that share all of both are equal
exact_key :
    (key k : Bytes)
    → (shared_prefix key k == length key && shared_prefix key k == length k) ≡ true
    → key ≡ k
exact_key key k e =
    let p = shared_prefix key k in
    let l : p ≡ length key = ground arith in
    let l' : p ≡ length k = ground arith in
    sym (take-length key)
    ∙ ap (λ n. take n key) (sym l)
    ∙ take-shared_prefix key k
    ∙ ap (λ n. take n k) l'
    ∙ take-length k

mutual
  unfolding insert drops_nibble get leaf_value

  pub insert-Inserted :
      (n : Node) (key value : Bytes)
      → IsTrie n
      → IsNibbles key
      → Inserted (insert n key value) key value (drops_nibble n key)
  insert-Inserted nil key value t h = (leaf key value, refl, h, get-leaf key value)
  insert-Inserted (branch cs) [] value t h =
      let (cs', e, w) = set_child_lem cs 16 (leaf [] value) (omega (arith, t.0)) t.1 tt in
      (branch cs', rw e refl, (w.count_is ∙ t.0, w.tries), w.value_is 16)
  insert-Inserted (branch cs) (i ∷ key) value t h =
      let (cs', e, c, t', g) = insert_child-Inserted cs i key value (omega arith) t.1 h.1 in
      (branch cs', rw e refl, (c ∙ t.0, t'), g)
  insert-Inserted (extension shared next) key value t h =
      let p : ℕ = shared_prefix key shared in
      let h' = All-drop (λ x. x < 16) p key h in
      let (n', e, t', g) = insert-Inserted next (drop p key) value t.1 h' in
      elim (Bool-cases (p == length shared)) [
        | inl whole ↦ (
          extension shared n',
          rw (whole, insert) (rw e refl),
          (t.0, t'),
          rw (whole, drops_nibble)
              (through shared n' (drop p key) key (whole_prefix key shared whole) g),
        )
        | inr part ↦
            rw (part, insert)
              (split_extension_lem shared next key value t.0 t.1 h (drop-ne_nil shared key part))
      ]
  insert-Inserted (leaf k v) key value t h =
      let p : ℕ = shared_prefix key k in
      elim (Bool-cases (p == length key && p == length k)) [
        | inl exact ↦ (
          leaf k value,
          rw (exact, insert) refl,
          t,
          rw (exact, drops_nibble) (rw (exact_key key k exact) (get-leaf k value)),
        )
        | inr part ↦ rw (part, insert) (split_leaf_lem k v key value t h)
      ]

  pub insert_child-Inserted :
      (cs : Children) (i : ℕ) (key value : Bytes)
      → i < count cs
      → AreTries cs
      → IsNibbles key
      → InsertedChild cs i key value
  insert_child-Inserted end i key value l t h = absurd (omega arith)
  insert_child-Inserted (child n cs) zero key value l t h =
      let (n', e, t', g) = insert-Inserted n key value t.0 h in
      (child n' cs, rw e refl, refl, (t', t.1), g)
  insert_child-Inserted (child n cs) (suc i) key value l t h =
      let (cs', e, c, t', g) = insert_child-Inserted cs i key value (omega arith) t.1 h in
      (child n cs', rw e refl, ap suc c, (t.0, t'), g)
