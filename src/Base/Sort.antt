-- ===== src/Base/Sort.antt =====
-- Sorting by a number, as `sort.Slice` and `sort.Sort` do: where keys are equal Go leaves the order
-- open, and this sort keeps it.
use Prim.Native.Nat.{ℕ, ◌<◌}
use mathlib.Core.Path.{◌≡◌}
use mathlib.Core.Bool.{true, false}
use mathlib.Core.Logic.{◌≢◌, inl, inr}
use mathlib.Core.List.{List, [], ◌∷◌, ◌++◌}
use native.Mathlib.Omega.{arith}
use simple_standalone_versio.Base.Tests.{leb, if◌then◌else◌, Bool-cases}
use simple_standalone_versio.Base.Lists.{All, All-map, All-append}

module _ {ℓ} {A : Type ℓ} (key : A → ℕ) where
  unfoldable pub insert_by : A → List A → List A
  insert_by a [] = a ∷ []
  insert_by a (x ∷ xs) = if leb (key x) (key a) then x ∷ insert_by a xs else a ∷ x ∷ xs

  unfoldable pub sort_onto : List A → List A → List A
  unfolding insert_by
  sort_onto done [] = done
  sort_onto done (x ∷ xs) = sort_onto (insert_by x done) xs

  -- the elements are inserted one by one, each behind its equals
  unfoldable pub sort_by : List A → List A
  unfolding sort_onto
  sort_by xs = sort_onto [] xs

  -- strictly increasing keys
  abbrev pub IsStrict : List A → Type 0
  IsStrict [] = Unit
  IsStrict (x ∷ xs) = All (λ y. key x < key y) xs × IsStrict xs

lt_of_leb_ne : (a b : ℕ) → leb a b ≡ true → a ≢ b → a < b
lt_of_leb_ne a b h k = ground arith

lt_of_leb-false : (a b : ℕ) → leb a b ≡ false → b < a
lt_of_leb-false a b h = ground arith

module _ {ℓ} {A : Type ℓ} (key : A → ℕ) where
  pub All-insert_by {κ} :
      (P : A → Type κ) (a : A) (xs : List A) → P a → All P xs → All P (insert_by key a xs)
  unfolding insert_by
  All-insert_by P a [] h k = (h, tt)
  All-insert_by P a (x ∷ xs) h k = elim (Bool-cases (leb (key x) (key a))) [
    | inl e ↦ rw e (k.0, All-insert_by P a xs h k.1)
    | inr e ↦ rw e (h, k)
  ]

  -- no two elements have one key
  abbrev pub IsDistinct : List A → Type 0
  IsDistinct [] = Unit
  IsDistinct (x ∷ xs) = All (λ y. key x ≢ key y) xs × IsDistinct xs

  pub IsStrict-IsDistinct : (xs : List A) → IsStrict key xs → IsDistinct xs
  IsStrict-IsDistinct [] h = tt
  IsStrict-IsDistinct (x ∷ xs) h = (
    All-map (λ y. key x < key y) (λ y. key x ≢ key y) xs (λ y p. omega arith) h.0,
    IsStrict-IsDistinct xs h.1,
  )

  pub IsDistinct-append_one :
      (xs : List A) (a : A)
      → IsDistinct xs
      → All (λ x. key x ≢ key a) xs
      → IsDistinct (xs ++ a ∷ [])
  IsDistinct-append_one [] a h k = (tt, tt)
  IsDistinct-append_one (x ∷ xs) a h k = (
    All-append (λ y. key x ≢ key y) xs (a ∷ []) h.0 (k.0, tt),
    IsDistinct-append_one xs a h.1 k.1,
  )

  insert_by-IsStrict :
      (a : A) (xs : List A)
      → IsStrict key xs
      → All (λ x. key x ≢ key a) xs
      → IsStrict key (insert_by key a xs)
  unfolding insert_by
  insert_by-IsStrict a [] h k = (tt, tt)
  insert_by-IsStrict a (x ∷ xs) h k = elim (Bool-cases (leb (key x) (key a))) [
    | inl e ↦ rw e (
      All-insert_by (λ y. key x < key y) a xs (lt_of_leb_ne (key x) (key a) e k.0) h.0,
      insert_by-IsStrict a xs h.1 k.1,
    )
    | inr e ↦
        let below : key a < key x = lt_of_leb-false (key x) (key a) e in
        rw e (
          (below, All-map (λ y. key x < key y) (λ y. key a < key y) xs (λ y p. omega arith) h.0),
          h,
        )
  ]

  sort_onto-IsStrict :
      (done xs : List A)
      → IsStrict key done
      → IsDistinct xs
      → All (λ x. All (λ d. key d ≢ key x) done) xs
      → IsStrict key (sort_onto key done xs)
  unfolding sort_onto
  sort_onto-IsStrict done [] h d k = h
  sort_onto-IsStrict done (x ∷ xs) h d k =
      sort_onto-IsStrict (insert_by key x done) xs (insert_by-IsStrict x done h k.0) d.1
        (apart x xs d.0 k.1)
    where
      apart :
          (x : A) (ys : List A)
          → All (λ y. key x ≢ key y) ys
          → All (λ y. All (λ d. key d ≢ key y) done) ys
          → All (λ y. All (λ d. key d ≢ key y) (insert_by key x done)) ys
      apart x [] p q = tt
      apart x (y ∷ ys) p q = (All-insert_by (λ d. key d ≢ key y) x done p.0 q.0, apart x ys p.1 q.1)

  -- A list whose keys differ comes out in strictly increasing order.
  pub sort_by-IsStrict : (xs : List A) → IsDistinct xs → IsStrict key (sort_by key xs)
  unfolding sort_by
  sort_by-IsStrict xs d = sort_onto-IsStrict [] xs tt d (All_nothing xs)
    where
      All_nothing : (ys : List A) → All (λ y. Unit {0}) ys
      All_nothing [] = tt
      All_nothing (y ∷ ys) = (tt, All_nothing ys)
