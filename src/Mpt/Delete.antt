-- ===== src/Mpt/Delete.antt =====
-- `delete`: it does not panic, and reports a key as missing only if `Get` does not find it.
use simple_standalone_versio.Base.{
  ℕ, zero, suc, ◌+◌, ◌<◌, ◌≤◌, ◌≡◌, ◌≢◌, ◌⊎◌, append-nil, drop-length-append, refl, ap, sym, ◌∙◌,
  Bool, true, false, none, some, [], ◌∷◌, ◌++◌, ◌==◌, length, drop, Bytes, All-append, All-drop,
  arith, Bool-cases, inl, inr,
}
use simple_standalone_versio.Mpt.{
  Node, Children, nil, branch, extension, leaf, end, child, equal, equal_bytes, has_prefix, get,
  get_child, scan, child_at, only_child, collapse, merge_next, delete, delete_child,
}
use simple_standalone_versio.Mpt.Shape.{
  IsNibbles, IsTrie, AreTries, count, set_child_lem, get-extension, has_prefix-append,
}

equal_bytes_sym : (a b : Bytes) → equal_bytes a b ≡ equal_bytes b a
unfolding equal_bytes
equal_bytes_sym [] [] = refl
equal_bytes_sym [] (y ∷ b) = refl
equal_bytes_sym (x ∷ a) [] = refl
equal_bytes_sym (x ∷ a) (y ∷ b) = ground (arith, equal_bytes_sym a b)

equal_sym : (a b : Bytes) → equal a b ≡ equal b a
unfolding equal
equal_sym a b = ground (arith, equal_bytes_sym a b)

-- the last child's index is in range
scan_bound :
    (b : ℕ) (cs : Children) (i found last : ℕ)
    → i + count cs ≤ b
    → last < b
    → (scan cs i found last).1 < b
unfolding scan
scan_bound b end i found last fits small = small
scan_bound b (child nil cs) i found last fits small =
    scan_bound b cs (suc i) found last (omega arith) small
scan_bound b (child (branch c) cs) i found last fits small =
    scan_bound b cs (suc i) (suc found) i (omega arith) (omega arith)
scan_bound b (child (extension s n) cs) i found last fits small =
    scan_bound b cs (suc i) (suc found) i (omega arith) (omega arith)
scan_bound b (child (leaf k v) cs) i found last fits small =
    scan_bound b cs (suc i) (suc found) i (omega arith) (omega arith)

child_at-IsTrie : (cs : Children) (i : ℕ) → AreTries cs → IsTrie (child_at cs i)
unfolding child_at
child_at-IsTrie end i h = tt
child_at-IsTrie (child n cs) zero h = h.0
child_at-IsTrie (child n cs) (suc i) h = child_at-IsTrie cs i h.1

only_child-IsTrie : (last : ℕ) (n : Node) → last < 17 → IsTrie n → IsTrie (only_child last n)
unfolding only_child
only_child-IsTrie last (leaf k v) small h = elim (Bool-cases (last == 16)) [
  | inl e ↦ rw e tt
  | inr e ↦ rw e (ground arith, h)
]
only_child-IsTrie last (extension s n) small h = elim (Bool-cases (last == 16)) [
  | inl e ↦ rw e h
  | inr e ↦ rw e ((ground arith, h.0), h.1)
]
only_child-IsTrie last (branch cs) small h = elim (Bool-cases (last == 16)) [
  | inl e ↦ rw e h
  | inr e ↦ rw e ((ground arith, tt), h)
]
only_child-IsTrie last nil small h = elim (Bool-cases (last == 16)) [
  | inl e ↦ rw e tt
  | inr e ↦ rw e ((ground arith, tt), tt)
]

collapse-IsTrie : (cs : Children) → count cs ≡ 17 → AreTries cs → IsTrie (collapse cs)
unfolding collapse
collapse-IsTrie cs c h =
    let last = (scan cs 0 0 0).1 in
    let small = scan_bound 17 cs 0 0 0 (omega arith) (omega arith) in
    let only = only_child-IsTrie last (child_at cs last) small (child_at-IsTrie cs last h) in
    elim (Bool-cases ((scan cs 0 0 0).0 == 0)) [
      | inl e ↦ rw e tt
      | inr e ↦ elim (Bool-cases ((scan cs 0 0 0).0 == 1)) [
        | inl f ↦ rw (e, f) only
        | inr f ↦ rw (e, f) (c, h)
      ]
    ]

merge_next-IsTrie : (s : Bytes) (n : Node) → IsNibbles s → IsTrie n → IsTrie (merge_next s n)
unfolding merge_next
merge_next-IsTrie s nil h t = tt
merge_next-IsTrie s (extension s' n) h t = (All-append _ s s' h t.0, t.1)
merge_next-IsTrie s (leaf k v) h t = (All-append _ s k h t, t)
merge_next-IsTrie s (branch cs) h t = (h, t)

-- what `delete` leaves and reports
abbrev pub DeletedFrom : Node → Bytes → Type 0
DeletedFrom n key =
    (n' : Node) × (deleted : Bool) × (delete n key ≡ some (n', deleted))
    × IsTrie n'
    × ((deleted ≡ true) ⊎ ((deleted ≡ false) × (n' ≡ n) × (get n key ≡ none)))

abbrev DeletedChild : Children → ℕ → Bytes → Type 0
DeletedChild cs i key =
    (cs' : Children) × (deleted : Bool) × (delete_child cs i key ≡ some (cs', deleted))
    × (count cs' ≡ count cs)
    × AreTries cs'
    × ((deleted ≡ true) ⊎ ((deleted ≡ false) × (cs' ≡ cs) × (get_child cs i key ≡ none)))

from_extension :
    (shared key : Bytes) (next : Node)
    → IsNibbles shared
    → IsTrie next
    → DeletedFrom next (drop (length shared) key)
    → DeletedFrom (extension shared next) key
unfolding delete get
from_extension shared key next h t (next', deleted, e, t', r) =
    elim (Bool-cases (has_prefix key shared)) [
      | inr f ↦ (extension shared next, false, rw f refl, (h, t), inr (refl, refl, rw f refl))
      | inl f ↦ elim r [
        | inl d ↦ (
          merge_next shared next',
          true,
          rw (f, e, d) refl,
          merge_next-IsTrie shared next' h t',
          inl refl,
        )
        | inr (d, same, g) ↦ (
          extension shared next,
          false,
          rw (f, e, d, same) refl,
          (h, t),
          inr (refl, refl, rw f g),
        )
      ]
    ]

from_branch :
    (cs : Children) (idx : ℕ) (key : Bytes)
    → count cs ≡ 17
    → AreTries cs
    → DeletedChild cs idx key
    → DeletedFrom (branch cs) (idx ∷ key)
unfolding delete get
from_branch cs idx key c t (cs', deleted, e, c', t', r) = elim r [
  | inl d ↦ (collapse cs', true, rw (e, d) refl, collapse-IsTrie cs' (c' ∙ c) t', inl refl)
  | inr (d, same, g) ↦ (branch cs, false, rw (e, d, same) refl, (c, t), inr (refl, refl, g))
]

mutual
  unfolding delete get

  -- On a well-formed trie and a key of nibbles `delete` does not panic and leaves a well-formed trie. If it
  -- reports that nothing was deleted, the trie is as it was, and `Get` does not find the key either.
  pub delete-DeletedFrom : (n : Node) (key : Bytes) → IsTrie n → IsNibbles key → DeletedFrom n key
  delete-DeletedFrom nil key t h = (nil, false, refl, tt, inr (refl, refl, refl))
  delete-DeletedFrom (leaf k v) key t h = elim (Bool-cases (equal k key)) [
    | inl e ↦ (nil, true, rw e refl, tt, inl refl)
    | inr e ↦ (leaf k v, false, rw e refl, t, inr (refl, refl, rw (equal_sym key k, e) refl))
  ]
  delete-DeletedFrom (extension shared next) key t h =
      from_extension shared key next t.0 t.1
        (delete-DeletedFrom next (drop (length shared) key) t.1 (All-drop _ (length shared) key h))
  delete-DeletedFrom (branch cs) [] t h =
      let (cs', e, w) = set_child_lem cs 16 nil (omega (arith, t.0)) t.1 tt in
      (collapse cs', true, rw e refl, collapse-IsTrie cs' (w.count_is ∙ t.0) w.tries, inl refl)
  delete-DeletedFrom (branch cs) (idx ∷ key) t h =
      from_branch cs idx key t.0 t.1
        (delete_child-DeletedChild cs idx key (omega (arith, t.0, h.0)) t.1 h.1)

  delete_child-DeletedChild :
      (cs : Children) (i : ℕ) (key : Bytes)
      → i < count cs
      → AreTries cs
      → IsNibbles key
      → DeletedChild cs i key
  delete_child-DeletedChild end i key small t h = absurd (omega arith)
  delete_child-DeletedChild (child n cs) zero key small t h =
      let (n', deleted, e, t', r) = delete-DeletedFrom n key t.0 h in
      (
        child n' cs,
        deleted,
        rw e refl,
        refl,
        (t', t.1),
        elim r [ inl d ↦ inl d | inr (d, same, g) ↦ inr (d, ap (λ m. child m cs) same, g) ],
      )
  delete_child-DeletedChild (child n cs) (suc i) key small t h =
      let (cs', deleted, e, c, t', r) = delete_child-DeletedChild cs i key (omega arith) t.1 h in
      (
        child n cs',
        deleted,
        rw e refl,
        ap suc c,
        (t.0, t'),
        elim r [ inl d ↦ inl d | inr (d, same, g) ↦ inr (d, ap (child n) same, g) ],
      )

equal-nil : (k : Bytes) → k ≢ [] → equal [] k ≡ false
unfolding equal
equal-nil [] ne = absurd (ne refl)
equal-nil (x ∷ k) ne = ground arith

get_nil_leaf : (k v : Bytes) → k ≢ [] → get (leaf k v) [] ≡ none
unfolding get
get_nil_leaf k v ne = rw (equal-nil k ne) refl

-- Where a deletion below an extension leaves a leaf whose path is not empty, `delete` leaves an extension by the
-- shared path and the leaf's path over the unchanged leaf, and `Get` finds nothing at the leaf's key. Before the
-- deletion `Get` found of that key what the node below the extension holds.
pub delete_loses_leaf :
    (shared key k v : Bytes) (next : Node)
    → k ≢ []
    → delete next key ≡ some (leaf k v, true)
    → (delete (extension shared next) (shared ++ key)
        ≡ some (extension (shared ++ k) (leaf k v), true))
      × (get (extension (shared ++ k) (leaf k v)) (shared ++ k) ≡ none)
      × (get (extension shared next) (shared ++ k) ≡ get next k)
unfolding delete merge_next
delete_loses_leaf shared key k v next ne e = (
  rw (has_prefix-append shared key, drop-length-append shared key, e) refl,
  ap (get (extension (shared ++ k) (leaf k v))) (sym (append-nil (shared ++ k)))
      ∙ get-extension (shared ++ k) [] (leaf k v)
      ∙ get_nil_leaf k v ne,
  get-extension shared k next,
)
