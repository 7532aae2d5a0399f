-- ===== src/TxPool/View.antt =====
-- The pool as a client sees it: for each address the pending transactions in order, and the queue.
use simple_standalone_versio.Base.{
  ℕ, ◌≡◌, ◌≢◌, refl, ap, sym, Option, none, some, List, [], ◌∷◌, ◌++◌, leb, if◌then◌else◌, last,
  All, append_assoc, append-nil, bytes_eq, lookup, lookup-insert, arith, Bool-cases, Option-cases,
  inl, inr, All-append, ◌∙◌, last-append_ne, last-IsSome, append-ne_nil,
}
use mathlib.Core.Option
use simple_standalone_versio.Types.{Address, Transaction}
use simple_standalone_versio.TxPool.SortedTxs.{
  Block, flat, push, push_last, gas_price, last_nonce, last_block_nonce,
}
use simple_standalone_versio.TxPool.Pool.{
  Pool, or_empty, pending_of, queue_of, set_pending, set_queue, make_new_block, place,
}

-- no box is empty
abbrev pub IsFull : List Block → Type 0
IsFull blks = All (λ (b : Block). b.txs ≢ []) blks

pub pending_of-set_pending :
    (pool : Pool) (a b : Address) (blks : List Block)
    → pending_of (set_pending pool a blks) b ≡ (if bytes_eq a b then blks else pending_of pool b)
unfolding pending_of
pending_of-set_pending pool a b blks = ground (arith, lookup-insert a b blks pool.pendings)

pub queue_of-set_queue :
    (pool : Pool) (a b : Address) (list : List Transaction)
    → queue_of (set_queue pool a list) b ≡ (if bytes_eq a b then list else queue_of pool b)
unfolding queue_of
queue_of-set_queue pool a b list = ground (arith, lookup-insert a b list pool.queue)

pub flat-append : (xs ys : List Block) → flat (xs ++ ys) ≡ flat xs ++ flat ys
unfolding flat
flat-append [] ys = refl
flat-append (b ∷ xs) ys = rw (flat-append xs ys) (sym (append_assoc b.txs (flat xs) (flat ys)))

-- the boxes after a transaction was placed
unfoldable pub placed : List Block → Transaction → ℕ → List Block
placed blks tx id = elim (push_last blks tx) [
  | none ↦ blks ++ record { id = id; txs = tx ∷ [] } ∷ []
  | some blks' ↦ blks'
]

pending_of-make_new_block :
    (a b : Address) (tx : Transaction) (pool : Pool)
    → pending_of (make_new_block a tx pool) b ≡ (
        if bytes_eq a b
        then pending_of pool a ++ record { id = pool.next_id; txs = tx ∷ [] } ∷ []
        else pending_of pool b)
unfolding make_new_block pending_of
pending_of-make_new_block a b tx pool = ground (
  arith,
  lookup-insert a b
      (or_empty (lookup a pool.pendings) ++ record { id = pool.next_id; txs = tx ∷ [] } ∷ [])
      pool.pendings,
)

pub pending_of-place :
    (a b : Address) (tx : Transaction) (pool : Pool)
    → pending_of (place a tx pool) b
      ≡ (if bytes_eq a b then placed (pending_of pool a) tx pool.next_id else pending_of pool b)
unfolding place placed
pending_of-place a b tx pool = elim (Option-cases (push_last (pending_of pool a) tx)) [
  | inl e ↦ rw (e, place, placed) (pending_of-make_new_block a b tx pool)
  | inr (blks, e) ↦ rw (e, place, placed) (pending_of-set_pending pool a b blks)
]

pub queue_of-place :
    (a b : Address) (tx : Transaction) (pool : Pool)
    → queue_of (place a tx pool) b ≡ queue_of pool b
unfolding place make_new_block queue_of
queue_of-place a b tx pool = ground arith

flat-push_last :
    (blks : List Block) (tx : Transaction) (blks' : List Block)
    → push_last blks tx ≡ some blks'
    → flat blks' ≡ flat blks ++ tx ∷ []
unfolding push_last flat push
flat-push_last [] tx blks' h = cc
flat-push_last (b ∷ []) tx blks' h = ground (arith, append-nil b.txs, append-nil (b.txs ++ tx ∷ []))
flat-push_last (b ∷ c ∷ blks) tx blks' h = elim (Option-cases (push_last (c ∷ blks) tx)) [
  | inl e ↦ absurd (ground arith)
  | inr (rest, e) ↦
      let shape : b ∷ rest ≡ blks' = ground arith in
      rw (← shape) (
        ap (◌++◌ b.txs) (flat-push_last (c ∷ blks) tx rest e)
        ∙ sym (append_assoc b.txs (flat (c ∷ blks)) (tx ∷ [])))
]

-- Placing a transaction appends it to the pending transactions.
pub flat-placed :
    (blks : List Block) (tx : Transaction) (id : ℕ)
    → flat (placed blks tx id) ≡ flat blks ++ tx ∷ []
unfolding placed flat
flat-placed blks tx id = elim (Option-cases (push_last blks tx)) [
  | inl e ↦ rw (e, placed) (flat-append blks (record { id = id; txs = tx ∷ [] } ∷ []))
  | inr (blks', e) ↦ rw (e, placed) (flat-push_last blks tx blks' e)
]

append_one-ne-nil {ℓ} : {A : Type ℓ} (xs : List A) (a : A) → xs ++ a ∷ [] ≢ []
append_one-ne-nil [] a e = cc
append_one-ne-nil (x ∷ xs) a e = cc

IsFull-push_last :
    (blks : List Block) (tx : Transaction) (blks' : List Block)
    → push_last blks tx ≡ some blks'
    → IsFull blks
    → IsFull blks'
unfolding push_last push
IsFull-push_last [] tx blks' h full = cc
IsFull-push_last (b ∷ []) tx blks' h full = elim (Bool-cases (leb (gas_price b.txs) tx.gas_price)) [
  | inl e ↦
      let shape : record b { txs = b.txs ++ tx ∷ [] } ∷ [] ≡ blks' = ground arith in
      rw (← shape) (append_one-ne-nil b.txs tx, tt)
  | inr e ↦ absurd (ground arith)
]
IsFull-push_last (b ∷ c ∷ blks) tx blks' h full = elim (Option-cases (push_last (c ∷ blks) tx)) [
  | inl e ↦ absurd (ground arith)
  | inr (rest, e) ↦
      let shape : b ∷ rest ≡ blks' = ground arith in
      rw (← shape) (full.0, IsFull-push_last (c ∷ blks) tx rest e full.1)
]

pub IsFull-placed :
    (blks : List Block) (tx : Transaction) (id : ℕ) → IsFull blks → IsFull (placed blks tx id)
unfolding placed
IsFull-placed blks tx id full = elim (Option-cases (push_last blks tx)) [
  | inl e ↦
      rw (e, placed)
        (All-append (λ (b : Block). b.txs ≢ []) blks (record { id = id; txs = tx ∷ [] } ∷ []) full
          ((λ n. cc), tt))
  | inr (blks', e) ↦ rw (e, placed) (IsFull-push_last blks tx blks' e full)
]

-- the nonce of the last pending transaction
abbrev pub end_nonce : List Transaction → Option ℕ
end_nonce txs = Option.map (λ (t : Transaction). t.nonce) (last txs)

pub last_block_nonce-flat :
    (blks : List Block) → IsFull blks → last_block_nonce blks ≡ end_nonce (flat blks)
unfolding last_block_nonce last_nonce flat
last_block_nonce-flat [] full = refl
last_block_nonce-flat (b ∷ []) full =
    let (t, e) = last-IsSome b.txs full.0 in rw append-nil (rw e refl)
last_block_nonce-flat (b ∷ c ∷ blks) full =
    rw (last-append_ne b.txs (flat (c ∷ blks)) (append-ne_nil c.txs (flat blks) full.1.0))
      (last_block_nonce-flat (c ∷ blks) full.1)
