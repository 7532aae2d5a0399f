-- ===== src/Mpt/Split.antt =====
-- A split: the new branch, what it holds for the new key, and where it loses the key.
use simple_standalone_versio.Base.{
  ℕ, zero, suc, ◌<◌, ◌≡◌, ◌≢◌, refl, ap, ap₂, sym, ◌∙◌, Bool, true, false, Option, none, some, [],
  ◌∷◌, ◌++◌, ◌==◌, if◌then◌else◌, take, drop, take-append-drop, Bytes, All-take, All-drop, arith,
  Bool-cases, inl, inr, ==_refl, ==_iff,
}
use simple_standalone_versio.Mpt.{
  Node, Children, branch, extension, leaf, shared_prefix, leaf_value, set_child, get, get_child,
  lead_to, nils, empty_children, place_rest, place_leaf, place_extension, split_leaf,
  split_extension,
}
use simple_standalone_versio.Mpt.Shape.{
  IsNibbles, IsTrie, AreTries, count, get-leaf, get-lead_to, IsTrie-lead_to, set_child_lem,
}

-- exactly one nibble of the key is left
unfoldable pub one_left : Bytes → Bool
one_left [] = false
one_left (i ∷ []) = true
one_left (i ∷ j ∷ rest) = false

-- no path goes on behind the common prefix of the two
abbrev pub Diverges : Bytes → Bytes → Type 0
Diverges (i ∷ a) (j ∷ b) = i ≢ j
Diverges [] b = Unit
Diverges (i ∷ a) [] = Unit

pub drop-shared_prefix :
    (a b : Bytes) → Diverges (drop (shared_prefix a b) a) (drop (shared_prefix a b) b)
unfolding shared_prefix
drop-shared_prefix [] b = tt
drop-shared_prefix (x ∷ a) [] = tt
drop-shared_prefix (x ∷ a) (y ∷ b) = elim (Bool-cases (x == y)) [
  | inl e ↦ rw e (drop-shared_prefix a b)
  | inr e ↦ rw e (ne_of_test x y e)
]
  where
    ne_of_test : (p q : ℕ) → (p == q) ≡ false → p ≢ q
    ne_of_test p q h k = ground arith

pub take-shared_prefix : (a b : Bytes) → take (shared_prefix a b) a ≡ take (shared_prefix a b) b
unfolding shared_prefix
take-shared_prefix [] b = refl
take-shared_prefix (x ∷ a) [] = refl
take-shared_prefix (x ∷ a) (y ∷ b) = elim (Bool-cases (x == y)) [
  | inl e ↦ rw e (ap₂ ◌∷◌ ((==_iff x y).0 e) (take-shared_prefix a b))
  | inr e ↦ rw e refl
]

-- a branch in the making: 17 children, and nothing in the way of a key that has one nibble left
record Prepared (cs : Children) (key : Bytes) : Type 0 where
  count_is : count cs ≡ 17
  tries : AreTries cs
  free : (i : ℕ) → key ≡ i ∷ [] → get_child cs i [] ≡ none

AreTries-empty : AreTries empty_children
AreTries-empty = assumption

get_child-nils : (n i : ℕ) (key : Bytes) → get_child (nils n) i key ≡ none
unfolding get
get_child-nils zero i key = refl
get_child-nils (suc n) zero key = refl
get_child-nils (suc n) (suc i) key = get_child-nils n i key

-- one write into an empty branch, at 16 or at a place where the key does not go
prepare :
    (at_ : ℕ) (node : Node) (key : Bytes)
    → at_ < 17
    → IsTrie node
    → IsNibbles key
    → ((i : ℕ) → key ≡ i ∷ [] → i < 16 → i ≢ at_)
    → (cs : Children) × (set_child empty_children at_ node ≡ some cs) × Prepared cs key
prepare at_ node key h t k apart =
    let (cs, e, w) = set_child_lem empty_children at_ node h AreTries-empty t in
    (
      cs,
      e,
      record {
        count_is = w.count_is;
        tries = w.tries;
        free = λ i q.
            let small : i < 16 = (rw q at k).0 in
            let other = apart i q small in
            rw (w.get_is i []) (ground (arith, get_child-nils 17 i []));
      },
    )

place_leaf_lem :
    (r k value key : Bytes)
    → IsNibbles r
    → IsNibbles k
    → IsNibbles key
    → Diverges key r
    → (cs : Children) × (place_leaf empty_children r k value ≡ some cs) × Prepared cs key
unfolding place_leaf
place_leaf_lem [] k value key hr hk h d =
    prepare 16 (leaf k value) key (omega arith) hk h (λ i q small. omega arith)
place_leaf_lem (a ∷ []) k value key hr hk h d =
    prepare 16 (leaf [] value) key (omega arith) tt h (λ i q small. omega arith)
place_leaf_lem (a ∷ b ∷ rest) k value key hr hk h d =
    prepare a (leaf (b ∷ rest) value) key (omega arith) hr.1 h (λ i q small. rw q at d)

place_extension_lem :
    (r : Bytes) (next : Node) (key : Bytes)
    → r ≢ []
    → IsNibbles r
    → IsTrie next
    → IsNibbles key
    → Diverges key r
    → (cs : Children) × (place_extension empty_children r next ≡ some cs) × Prepared cs key
unfolding place_extension
place_extension_lem [] next key ne hr t h d = absurd (ne refl)
place_extension_lem (a ∷ []) next key ne hr t h d =
    prepare a next key (omega arith) t h (λ i q small. rw q at d)
place_extension_lem (a ∷ b ∷ rest) next key ne hr t h d =
    prepare a (extension (b ∷ rest) next) key (omega arith) (hr.1, t) h (λ i q small. rw q at d)

place_rest_lem :
    (cs : Children) (key value : Bytes)
    → IsNibbles key
    → Prepared cs key
    → (cs' : Children) × (place_rest cs key value ≡ some cs')
      × (count cs' ≡ 17)
      × AreTries cs'
      × (get (branch cs') key ≡ (if one_left key then none else some value))
unfolding place_rest one_left get
place_rest_lem cs [] value h p =
    let (cs', e, w) = set_child_lem cs 16 (leaf [] value) (omega (arith, p.count_is)) p.tries tt in
    (cs', e, w.count_is ∙ p.count_is, w.tries, rw (w.value_is 16) (unfold leaf_value in refl))
place_rest_lem cs (i ∷ []) value h p =
    let (cs', e, w) = set_child_lem cs 16 (leaf [] value) (omega (arith, p.count_is)) p.tries tt in
    (cs', e, w.count_is ∙ p.count_is, w.tries, rw (w.get_is i []) (ground (arith, p.free i refl)))
place_rest_lem cs (i ∷ j ∷ rest) value h p =
    let (cs', e, w) =
      set_child_lem cs i (leaf (j ∷ rest) value) (omega (arith, p.count_is)) p.tries h.1 in
    (
      cs',
      e,
      w.count_is ∙ p.count_is,
      w.tries,
      rw (w.get_is i (j ∷ rest), ==_refl i) (get-leaf (j ∷ rest) value),
    )

-- What a split leaves: a trie that has the new key, unless one nibble of it was left.
abbrev pub Inserted : Option Node → Bytes → Bytes → Bool → Type 0
Inserted o key value lost =
    (n' : Node) × (o ≡ some n') × IsTrie n' × (get n' key ≡ (if lost then none else some value))

finish :
    (shared rest : Bytes) (cs : Children) (b : Bool) (value : Bytes)
    → IsNibbles shared
    → count cs ≡ 17
    → AreTries cs
    → get (branch cs) rest ≡ (if b then none else some value)
    → (key : Bytes) → shared ++ rest ≡ key
    → IsTrie (lead_to shared (branch cs))
      × (get (lead_to shared (branch cs)) key ≡ (if b then none else some value))
finish shared rest cs b value h c t g key e =
    (IsTrie-lead_to shared (branch cs) h (c, t), rw (← e) (get-lead_to shared rest (branch cs) ∙ g))

pub split_leaf_lem :
    (k v key value : Bytes)
    → IsNibbles k
    → IsNibbles key
    → Inserted
        (split_leaf (shared_prefix key k) k v key value)
        key
        value
        (one_left (drop (shared_prefix key k) key))
unfolding split_leaf
split_leaf_lem k v key value hk h =
    let p = shared_prefix key k in
    let h' = All-drop (λ x. x < 16) p key h in
    let (old, e, prepared) =
      place_leaf_lem (drop p k) k v (drop p key) (All-drop (λ x. x < 16) p k hk) hk h'
        (drop-shared_prefix key k) in
    let (cs, e', c, t, g) = place_rest_lem old (drop p key) value h' prepared in
    let (t', g') =
      finish (take p key) (drop p key) cs (one_left (drop p key)) value
        (All-take (λ x. x < 16) p key h) c t g key (take-append-drop p key) in
    (lead_to (take p key) (branch cs), rw e (rw e' refl), t', g')

pub split_extension_lem :
    (shared : Bytes) (next : Node) (key value : Bytes)
    → IsNibbles shared
    → IsTrie next
    → IsNibbles key
    → drop (shared_prefix key shared) shared ≢ []
    → Inserted
        (split_extension (shared_prefix key shared) shared next key value)
        key
        value
        (one_left (drop (shared_prefix key shared) key))
unfolding split_extension
split_extension_lem shared next key value hs tn h ne =
    let p = shared_prefix key shared in
    let h' = All-drop (λ x. x < 16) p key h in
    let (old, e, prepared) =
      place_extension_lem (drop p shared) next (drop p key) ne (All-drop (λ x. x < 16) p shared hs)
        tn h' (drop-shared_prefix key shared) in
    let (cs, e', c, t, g) = place_rest_lem old (drop p key) value h' prepared in
    let (t', g') =
      finish (take p shared) (drop p key) cs (one_left (drop p key)) value
        (All-take (λ x. x < 16) p shared hs) c t g key
        (ap (λ s. s ++ drop p key) (sym (take-shared_prefix key shared))
          ∙ take-append-drop p key) in
    (lead_to (take p shared) (branch cs), rw e (rw e' refl), t', g')
