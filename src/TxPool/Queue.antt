-- ===== src/TxPool/Queue.antt =====
-- The queue of one address (`addQueue`): one transaction for a nonce, in the order of the nonces.
use simple_standalone_versio.Base.{
  ℕ, ◌<◌, ◌≡◌, ◌≢◌, none, some, List, [], ◌∷◌, ◌++◌, ◌==◌, map, All, arith, Bool-cases,
  Option-cases, inl, inr, IsStrict, IsStrict-IsDistinct, IsDistinct-append_one, sort_by-IsStrict,
}
use simple_standalone_versio.Types.{Transaction}
use simple_standalone_versio.TxPool.Pool.{replace_in_queue, enqueue}

abbrev pub nonce_key : Transaction → ℕ
nonce_key t = t.nonce

-- strictly increasing nonces
abbrev pub IsSorted : List Transaction → Type 0
IsSorted list = IsStrict nonce_key list

replace_in_queue-none :
    (list : List Transaction) (tx : Transaction)
    → replace_in_queue list tx ≡ none
    → All (λ (t : Transaction). t.nonce ≢ tx.nonce) list
unfolding replace_in_queue
replace_in_queue-none [] tx h = tt
replace_in_queue-none (old ∷ list) tx h = elim (Bool-cases (old.nonce == tx.nonce)) [
  | inl e ↦ absurd (ground arith)
  | inr e ↦ elim (Option-cases (replace_in_queue list tx)) [
    | inl n ↦ (ground arith, replace_in_queue-none list tx n)
    | inr (rest, n) ↦ absurd (ground arith)
  ]
]

abbrev pub nonces : List Transaction → List ℕ
nonces = map nonce_key

-- what holds of the nonces of a list holds of those of a list with the same nonces
All-nonces :
    (P : ℕ → Type 0) (xs ys : List Transaction)
    → nonces xs ≡ nonces ys
    → All (λ (t : Transaction). P t.nonce) xs
    → All (λ (t : Transaction). P t.nonce) ys
All-nonces P [] [] e k = tt
All-nonces P [] (y ∷ ys) e k = absurd (cc)
All-nonces P (x ∷ xs) [] e k = absurd (cc)
All-nonces P (x ∷ xs) (y ∷ ys) e k =
    let heads : x.nonce ≡ y.nonce = cc in
    let tails : nonces xs ≡ nonces ys = cc in (rw heads at k.0, All-nonces P xs ys tails k.1)

IsSorted-nonces : (xs ys : List Transaction) → nonces xs ≡ nonces ys → IsSorted xs → IsSorted ys
IsSorted-nonces [] [] e k = tt
IsSorted-nonces [] (y ∷ ys) e k = absurd (cc)
IsSorted-nonces (x ∷ xs) [] e k = absurd (cc)
IsSorted-nonces (x ∷ xs) (y ∷ ys) e k =
    let heads : x.nonce ≡ y.nonce = cc in
    let tails : nonces xs ≡ nonces ys = cc in
    (All-nonces (λ n. y.nonce < n) xs ys tails (rw heads at k.0), IsSorted-nonces xs ys tails k.1)

nonces-replace_in_queue :
    (list : List Transaction) (tx : Transaction) (rest : List Transaction)
    → replace_in_queue list tx ≡ some rest
    → nonces list ≡ nonces rest
unfolding replace_in_queue
nonces-replace_in_queue [] tx rest h = cc
nonces-replace_in_queue (old ∷ list) tx rest h = elim (Bool-cases (old.nonce == tx.nonce)) [
  | inl e ↦ ground arith
  | inr e ↦ elim (Option-cases (replace_in_queue list tx)) [
    | inl n ↦ absurd (ground arith)
    | inr (rest', n) ↦ ground (arith, nonces-replace_in_queue list tx rest' n)
  ]
]

-- A queue with strictly increasing nonces stays one.
pub enqueue-IsSorted :
    (list : List Transaction) (tx : Transaction) → IsSorted list → IsSorted (enqueue list tx)
unfolding enqueue
enqueue-IsSorted list tx h = elim (Option-cases (replace_in_queue list tx)) [
  | inl e ↦
      rw (e, enqueue)
        (sort_by-IsStrict nonce_key (list ++ tx ∷ []) (
          IsDistinct-append_one nonce_key list tx (IsStrict-IsDistinct nonce_key list h)
            (replace_in_queue-none list tx e)))
  | inr (rest, e) ↦
      rw (e, enqueue)
        (sort_by-IsStrict nonce_key rest (
          IsStrict-IsDistinct nonce_key rest
            (IsSorted-nonces list rest (nonces-replace_in_queue list tx rest e) h)))
]
