-- ===== src/Mpt/Lost.antt =====
-- Two keys that differ in their last nibble alone.
use simple_standalone_versio.Base.{
  ℕ, zero, suc, ◌<◌, ◌≡◌, ◌≢◌, refl, ap, ◌∙◌, false, none, some, [], ◌∷◌, ◌++◌, ◌==◌, ◌>>=◌, length,
  length-append, take-length-append, drop-length-append, Bytes, arith, ==_refl,
}
use simple_standalone_versio.Mpt.{
  Node, Children, nil, branch, leaf, shared_prefix, set_child, get, get_child, lead_to, insert,
  place_leaf, place_rest, split_leaf,
}
use simple_standalone_versio.Mpt.Shape.{get-lead_to}

shared_prefix-append :
    (c : Bytes) (i j : ℕ) → i ≢ j → shared_prefix (c ++ j ∷ []) (c ++ i ∷ []) ≡ length c
unfolding shared_prefix
shared_prefix-append [] i j ne = ground arith
shared_prefix-append (x ∷ c) i j ne = rw (==_refl x) (ap suc (shared_prefix-append c i j ne))

-- the branch that such a pair ends in: one value in the place for the empty rest
abbrev only_at : ℕ → Node → Children
only_at zero n = Children.child n Children.end
only_at (suc k) n = Children.child nil (only_at k n)

abbrev last_only : Bytes → Children
last_only value = only_at 16 (leaf [] value)

insert_pair :
    (c v w : Bytes) (i j : ℕ)
    → i ≢ j
    → insert (leaf (c ++ i ∷ []) v) (c ++ j ∷ []) w ≡ some (lead_to c (branch (last_only w)))
unfolding insert split_leaf
insert_pair c v w i j ne =
    let p = shared_prefix-append c i j ne in
    rw (p, insert)
      (rw (not_whole c j) (
        rw
          (
            drop-length-append c (i ∷ []),
            drop-length-append c (j ∷ []),
            take-length-append c (j ∷ []),
          )
          (unfold place_leaf place_rest set_child in refl)))
  where
    not_whole : (xs : Bytes) (x : ℕ) → (length xs == length (xs ++ x ∷ [])) ≡ false
    not_whole xs x = ground (arith, length-append xs (x ∷ []))

get_child-only_at : (k i : ℕ) (n : Node) → i < k → get_child (only_at k n) i [] ≡ none
unfolding get
get_child-only_at zero i n h = absurd (omega arith)
get_child-only_at (suc k) zero n h = refl
get_child-only_at (suc k) (suc i) n h = get_child-only_at k i n (omega arith)

get-last_only : (i : ℕ) (w : Bytes) → i < 16 → get (branch (last_only w)) (i ∷ []) ≡ none
get-last_only i w h = unfold get in get_child-only_at 16 i (leaf [] w) h

-- Two keys that agree up to their last nibble, put into an empty trie, are both lost: `Get` finds
-- neither of them, and the first value is gone.
pub last_nibble_lost :
    (c v w : Bytes) (i j : ℕ)
    → i ≢ j
    → i < 16
    → j < 16
    → (n : Node) × ((insert nil (c ++ i ∷ []) v >>= λ t. insert t (c ++ j ∷ []) w) ≡ some n)
      × (get n (c ++ i ∷ []) ≡ none)
      × (get n (c ++ j ∷ []) ≡ none)
last_nibble_lost c v w i j ne hi hj = (
  lead_to c (branch (last_only w)),
  unfold insert in insert_pair c v w i j ne,
  get-lead_to c (i ∷ []) (branch (last_only w)) ∙ get-last_only i w hi,
  get-lead_to c (j ∷ []) (branch (last_only w)) ∙ get-last_only j w hj,
)
