-- ===== src/TxPool/Promote.antt =====
-- Promotion from the queue (`promoteQueueToPending`, `pushPendingTx`) against a specification over
-- the two lists that a client sees.
use simple_standalone_versio.Base.{
  ℕ, zero, suc, ◌<◌, ◌≡◌, ◌≢◌, refl, ap, sym, ◌∙◌, Bool, true, false, none, some, List, [], ◌∷◌,
  ◌++◌, ◌==◌, if◌then◌else◌, ◌>>=◌, length, append_assoc, bytes_eq, bytes_eq_refl, add64, arith,
  Bool-cases, List-cases, inl, inr,
}
use simple_standalone_versio.Types.{Address, Transaction}
use simple_standalone_versio.TxPool.SortedTxs.{flat}
use simple_standalone_versio.TxPool.Pool.{
  Pool, pending_of, queue_of, set_queue, place, pop_from_queue, is_ready, promote,
}
use simple_standalone_versio.TxPool.View.{
  IsFull, end_nonce, pending_of-place, queue_of-place, queue_of-set_queue, flat-placed,
  IsFull-placed, last_block_nonce-flat,
}

true-ne-false : true ≢ false
true-ne-false e = cc

-- `tx` has the nonce after the last pending one
unfoldable pub follows : List Transaction → Transaction → Bool
follows pending tx = elim (end_nonce pending) [ none ↦ false | some n ↦ tx.nonce == add64 n 1 ]

-- The run of consecutive nonces at the head of the queue moves behind the pending transactions.
unfoldable pub promote_spec :
    List Transaction → List Transaction → List Transaction × List Transaction
promote_spec pending [] = (pending, [])
promote_spec pending (tx ∷ queue) =
    if follows pending tx then promote_spec (pending ++ tx ∷ []) queue else (pending, tx ∷ queue)

-- The transactions are the same, in the same order: promotion only moves the border.
pub promote_spec-append :
    (pending queue : List Transaction)
    → (promote_spec pending queue).0 ++ (promote_spec pending queue).1 ≡ pending ++ queue
unfolding promote_spec
promote_spec-append pending [] = refl
promote_spec-append pending (tx ∷ queue) = elim (Bool-cases (follows pending tx)) [
  | inl e ↦
      rw e (promote_spec-append (pending ++ tx ∷ []) queue ∙ append_assoc pending (tx ∷ []) queue)
  | inr e ↦ rw e refl
]

-- the head of the queue, if there is one, does not follow the pending transactions
abbrev pub IsSettled : List Transaction → List Transaction → Type 0
IsSettled pending [] = Unit
IsSettled pending (tx ∷ queue) = follows pending tx ≡ false

-- Nothing is left to promote.
pub promote_spec-IsSettled :
    (pending queue : List Transaction)
    → IsSettled (promote_spec pending queue).0 (promote_spec pending queue).1
unfolding promote_spec
promote_spec-IsSettled pending [] = tt
promote_spec-IsSettled pending (tx ∷ queue) = elim (Bool-cases (follows pending tx)) [
  | inl e ↦ rw e (promote_spec-IsSettled (pending ++ tx ∷ []) queue)
  | inr e ↦ rw e e
]

promote_spec_settled :
    (pending queue : List Transaction)
    → IsSettled pending queue
    → promote_spec pending queue ≡ (pending, queue)
unfolding promote_spec
promote_spec_settled pending [] h = refl
promote_spec_settled pending (tx ∷ queue) h = rw h refl

-- How a pool `after` comes from `before` by work on one address.
pub record Refines (addr : Address) (before after : Pool) : Type 0 where
  pub full : IsFull (pending_of after addr)
  pub pending :
      flat (pending_of after addr)
      ≡ (promote_spec (flat (pending_of before addr)) (queue_of before addr)).0
  pub queue :
      queue_of after addr ≡ (promote_spec (flat (pending_of before addr)) (queue_of before addr)).1
  pub other_pending :
      (b : Address) → bytes_eq addr b ≡ false → pending_of after b ≡ pending_of before b
  pub other_queue : (b : Address) → bytes_eq addr b ≡ false → queue_of after b ≡ queue_of before b

module _ (addr : Address) where
  -- the test of the loop reads the view
  is_ready-eq :
      (pool : Pool) (tx : Transaction) (list : List Transaction)
      → IsFull (pending_of pool addr)
      → queue_of pool addr ≡ tx ∷ list
      → is_ready addr pool ≡ follows (flat (pending_of pool addr)) tx
  unfolding is_ready follows
  is_ready-eq pool tx list full e =
      rw (e, is_ready) (rw (last_block_nonce-flat (pending_of pool addr) full) refl)

  is_ready-nil : (pool : Pool) → queue_of pool addr ≡ [] → is_ready addr pool ≡ false
  unfolding is_ready
  is_ready-nil pool e = rw (e, is_ready)

  IsSettled-is_ready :
      (pool : Pool)
      → IsFull (pending_of pool addr)
      → IsSettled (flat (pending_of pool addr)) (queue_of pool addr)
      → is_ready addr pool ≡ false
  IsSettled-is_ready pool full h = elim (List-cases (queue_of pool addr)) [
    | inl q ↦ is_ready-nil pool q
    | inr (tx, list, q) ↦ is_ready-eq pool tx list full q ∙ (rw q at h)
  ]

  is_ready-IsSettled :
      (pool : Pool)
      → IsFull (pending_of pool addr)
      → is_ready addr pool ≡ false
      → IsSettled (flat (pending_of pool addr)) (queue_of pool addr)
  is_ready-IsSettled pool full e = elim (List-cases (queue_of pool addr)) [
    | inl q ↦ rw q tt
    | inr (tx, list, q) ↦ rw q (sym (is_ready-eq pool tx list full q) ∙ e)
  ]

  stop_Refines :
      (pool : Pool)
      → IsFull (pending_of pool addr)
      → is_ready addr pool ≡ false
      → Refines addr pool pool
  stop_Refines pool full e =
      let same =
        promote_spec_settled (flat (pending_of pool addr)) (queue_of pool addr)
          (is_ready-IsSettled pool full e) in
      record {
        full = full;
        pending = ap (λ r. r.0) (sym same);
        queue = ap (λ r. r.1) (sym same);
        other_pending = λ b h. refl;
        other_queue = λ b h. refl;
      }

  -- after the work nothing is ready
  Refines-is_ready : (before after : Pool) → Refines addr before after → is_ready addr after ≡ false
  Refines-is_ready before after r = IsSettled-is_ready after r.full (
      rw (r.pending, r.queue)
        (promote_spec-IsSettled (flat (pending_of before addr)) (queue_of before addr)))

  -- the pool after the body of the loop has placed the head of the queue
  stepped : Pool → Transaction → List Transaction → Pool
  stepped pool tx list = place addr tx (set_queue pool addr list)

  pending_of-set_queue :
      (pool : Pool) (b : Address) (list : List Transaction)
      → pending_of (set_queue pool addr list) b ≡ pending_of pool b
  unfolding pending_of
  pending_of-set_queue pool b list = refl

  module _ (pool : Pool) (tx : Transaction) (list : List Transaction) where
    flat-stepped :
        flat (pending_of (stepped pool tx list) addr) ≡ flat (pending_of pool addr) ++ tx ∷ []
    unfolding stepped
    flat-stepped =
        rw
          (
            pending_of-place addr addr tx (set_queue pool addr list),
            bytes_eq_refl,
            pending_of-set_queue pool addr list,
          )
          (flat-placed (pending_of pool addr) tx pool.next_id)

    IsFull-stepped : IsFull (pending_of pool addr) → IsFull (pending_of (stepped pool tx list) addr)
    unfolding stepped
    IsFull-stepped full =
        rw
          (
            pending_of-place addr addr tx (set_queue pool addr list),
            bytes_eq_refl,
            pending_of-set_queue pool addr list,
          )
          (IsFull-placed (pending_of pool addr) tx pool.next_id full)

    queue_of-stepped : queue_of (stepped pool tx list) addr ≡ list
    unfolding stepped
    queue_of-stepped =
        rw
          (
            queue_of-place addr addr tx (set_queue pool addr list),
            queue_of-set_queue pool addr addr list,
            bytes_eq_refl,
          )
          refl

    stepped_other_pending :
        (b : Address)
        → bytes_eq addr b ≡ false
        → pending_of (stepped pool tx list) b ≡ pending_of pool b
    unfolding stepped
    stepped_other_pending b h =
        rw (pending_of-place addr b tx (set_queue pool addr list), h)
          (pending_of-set_queue pool b list)

    stepped_other_queue :
        (b : Address)
        → bytes_eq addr b ≡ false
        → queue_of (stepped pool tx list) b ≡ queue_of pool b
    unfolding stepped
    stepped_other_queue b h =
        rw
          (
            queue_of-place addr b tx (set_queue pool addr list),
            queue_of-set_queue pool addr b list,
            h,
          )
          refl

    step_Refines :
        (after : Pool)
        → queue_of pool addr ≡ tx ∷ list
        → follows (flat (pending_of pool addr)) tx ≡ true
        → Refines addr (stepped pool tx list) after
        → Refines addr pool after
    unfolding promote_spec
    step_Refines after q next r = record {
      full = r.full;
      pending = rw (q, promote_spec, next) (rw (r.pending, flat-stepped, queue_of-stepped) refl);
      queue = rw (q, promote_spec, next) (rw (r.queue, flat-stepped, queue_of-stepped) refl);
      other_pending = λ b h. r.other_pending b h ∙ stepped_other_pending b h;
      other_queue = λ b h. r.other_queue b h ∙ stepped_other_queue b h;
    }

  pop_from_queue-cons :
      (pool : Pool) (tx : Transaction) (list : List Transaction)
      → queue_of pool addr ≡ tx ∷ list
      → pop_from_queue addr pool ≡ some (tx, set_queue pool addr list)
  unfolding pop_from_queue
  pop_from_queue-cons pool tx list q = rw (q, pop_from_queue)

  promote_settled :
      (fuel : ℕ) (pool : Pool)
      → 0 < fuel
      → is_ready addr pool ≡ false
      → promote fuel addr pool ≡ some pool
  unfolding promote
  promote_settled zero pool h stop = absurd (omega arith)
  promote_settled (suc fuel) pool h stop = rw (stop, promote)

  promote_step :
      (fuel : ℕ) (pool : Pool) (tx : Transaction) (list : List Transaction)
      → is_ready addr pool ≡ true
      → queue_of pool addr ≡ tx ∷ list
      → promote (suc fuel) addr pool
        ≡ (promote fuel addr (stepped pool tx list) >>= promote fuel addr)
  unfolding promote stepped
  promote_step fuel pool tx list ready q =
      rw (ready, promote) (rw (pop_from_queue-cons pool tx list q) refl)

  -- With more fuel than the queue is long, the loop ends, and it refines the specification.
  pub promote_lem :
      (fuel : ℕ) (pool : Pool)
      → IsFull (pending_of pool addr)
      → length (queue_of pool addr) < fuel
      → (after : Pool) × (promote fuel addr pool ≡ some after) × Refines addr pool after
  unfolding promote
  promote_lem zero pool full h = absurd (omega arith)
  promote_lem (suc fuel) pool full h = elim (Bool-cases (is_ready addr pool)) [
    | inr stop ↦ (pool, rw (stop, promote), stop_Refines pool full stop)
    | inl ready ↦ elim (List-cases (queue_of pool addr)) [
      | inl q ↦ absurd (true-ne-false (sym ready ∙ is_ready-nil pool q))
      | inr (tx, list, q) ↦
          let longer : length (queue_of pool addr) ≡ suc (length list) = ap length q in
          let shorter : length (queue_of (stepped pool tx list) addr) ≡ length list =
            ap length (queue_of-stepped pool tx list) in
          let (after, e, r) =
            promote_lem fuel (stepped pool tx list) (IsFull-stepped pool tx list full)
              (omega arith) in
          let next = sym (is_ready-eq pool tx list full q) ∙ ready in
          let stop = promote_settled fuel after (omega arith) (Refines-is_ready _ after r) in
          (
            after,
            promote_step fuel pool tx list ready q ∙ rw e stop,
            step_Refines pool tx list after q next r,
          )
    ]
  ]
