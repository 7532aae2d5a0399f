-- ===== src/TxPool/Count.antt =====
-- How many transactions are pending, in all: each `Pop` that returns one takes one away.
use simple_standalone_versio.Base.{
  ℕ, ◌+◌, ◌≡◌, refl, ap, sym, ◌∙◌, none, some, List, [], ◌∷◌, length, arith, BytesMap, bytes_eq,
  bytes_eq_refl, lookup, insert, Bool-cases, List-cases, inl, inr,
}
use simple_standalone_versio.Types.{Address, Transaction}
use simple_standalone_versio.TxPool.SortedTxs
use simple_standalone_versio.TxPool.SortedTxs.{Block, flat}
use simple_standalone_versio.TxPool.Pool.{Pool, or_empty, pending_of, set_pending}
use simple_standalone_versio.TxPool.View.{IsFull, pending_of-set_pending}
use simple_standalone_versio.TxPool.Invariant.{IsValid}
use simple_standalone_versio.TxPool.Pop.{keep_rest, pop_pending_tx, pop}
use simple_standalone_versio.TxPool.Taken.{
  pop_pending_tx-cons, flat-nil, pop-cons_nil, pop-cons_some,
}

unfoldable pub total : BytesMap (List Block) → ℕ
total [] = 0
total ((addr, blks) ∷ m) = length (flat blks) + total m

abbrev pub pending_total : Pool → ℕ
pending_total pool = total pool.pendings

total-insert :
    (a : Address) (blks : List Block) (m : BytesMap (List Block))
    → total (insert a blks m) + length (flat (or_empty (lookup a m))) ≡ total m + length (flat blks)
unfolding total insert lookup flat
total-insert a blks [] = omega arith
total-insert a blks ((b, old) ∷ m) = elim (Bool-cases (bytes_eq b a)) [
  | inl e ↦ rw e (omega arith)
  | inr e ↦ rw e (omega (arith, total-insert a blks m))
]

total-set_pending :
    (pool : Pool) (a : Address) (blks : List Block)
    → pending_total (set_pending pool a blks) + length (flat (pending_of pool a))
      ≡ pending_total pool + length (flat blks)
unfolding pending_of
total-set_pending pool a blks = total-insert a blks pool.pendings

total-pop_pending_tx :
    (addr : Address) (pool : Pool) (tx : Transaction) (rest : List Transaction)
    → IsFull (pending_of pool addr)
    → flat (pending_of pool addr) ≡ tx ∷ rest
    → pending_total (pop_pending_tx addr pool).1 + 1 ≡ pending_total pool
unfolding pop_pending_tx
total-pop_pending_tx addr pool tx rest full e =
    let (_, shows) = pop_pending_tx-cons addr pool tx rest full e in
    elim (List-cases (pending_of pool addr)) [
      | inl n ↦ absurd (empty n)
      | inr (blk, blks, n) ↦
          let left : List Block = keep_rest blk (SortedTxs.pop blk.txs).1 blks in
          let same : (pop_pending_tx addr pool).1 ≡ set_pending pool addr left =
            rw (n, pop_pending_tx) refl in
          let now : flat left ≡ rest =
            ap flat (sym (rw (pending_of-set_pending pool addr addr, bytes_eq_refl) refl))
            ∙ ap (λ p. flat (pending_of p addr)) (sym same)
            ∙ shows.shown_pending in
          rw same (omega (arith, total-set_pending pool addr left, ap length now, ap length e))
    ]
  where
    empty : pending_of pool addr ≡ [] → ⊥
    empty n = let p : flat [] ≡ tx ∷ rest = rw n at e in unfold flat in cc p

-- A `Pop` that returns a transaction leaves one less.
pub total-pop :
    (order : List Address) (pool : Pool) (tx : Transaction)
    → IsValid pool
    → (pop order pool).0 ≡ some tx
    → pending_total (pop order pool).1 + 1 ≡ pending_total pool
total-pop [] pool tx v h = let h' : none ≡ some tx = unfold pop in h in cc h'
total-pop (addr ∷ order) pool tx v h =
    let full = (v.valid_at addr).full in
    elim (List-cases (flat (pending_of pool addr))) [
      | inl e ↦
          let step = pop-cons_nil addr order pool (flat-nil (pending_of pool addr) full e) in
          rw step (total-pop order pool tx v (ap (λ r. r.0) (sym step) ∙ h))
      | inr (tx', rest, e) ↦
          rw (pop-cons_some addr order pool tx' rest full e)
            (total-pop_pending_tx addr pool tx' rest full e)
    ]
