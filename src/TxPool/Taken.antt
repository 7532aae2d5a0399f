-- ===== src/TxPool/Taken.antt =====
-- What the pops and the cleaning do to the view, and that they keep the invariant.
use mathlib.Core.List.{Mem, mem-cons_self, mem-cons_of_mem}
use simple_standalone_versio.Base.{
  ◌≡◌, ◌≢◌, refl, ◌∙◌, Option, none, some, List, [], ◌∷◌, ◌++◌, All, append-ne_nil, bytes_eq,
  bytes_eq_refl, bytes_eq_iff, Bool-cases, List-cases, inl, inr,
}
use simple_standalone_versio.Types.{Address, Transaction}
use simple_standalone_versio.TxPool.SortedTxs
use simple_standalone_versio.TxPool.SortedTxs.{Block, flat}
use simple_standalone_versio.TxPool.Pool.{Pool, pending_of, queue_of, set_pending}
use simple_standalone_versio.TxPool.View.{IsFull, pending_of-set_pending}
use simple_standalone_versio.TxPool.NewTx.{Shows}
use simple_standalone_versio.TxPool.Invariant.{IsConsecutive, IsValid}
use simple_standalone_versio.TxPool.Queue.{nonces, IsSorted}
use simple_standalone_versio.TxPool.Pop.{keep_rest, pop_pending_tx, pop, head?, tail}

queue_of-set_pending :
    (pool : Pool) (a b : Address) (blks : List Block)
    → queue_of (set_pending pool a blks) b ≡ queue_of pool b
unfolding queue_of
queue_of-set_pending pool a b blks = refl

flat-keep_rest :
    (blk : Block) (left : List Transaction) (rest : List Block)
    → flat (keep_rest blk left rest) ≡ left ++ flat rest
unfolding flat
flat-keep_rest blk [] rest = refl
flat-keep_rest blk (tx ∷ left) rest = refl

IsFull-keep_rest :
    (blk : Block) (left : List Transaction) (rest : List Block)
    → IsFull rest
    → IsFull (keep_rest blk left rest)
IsFull-keep_rest blk [] rest h = h
IsFull-keep_rest blk (tx ∷ left) rest h = ((λ e. cc), h)

SortedTxs-pop :
    (txs : List Transaction) (rest : List Transaction)
    → txs ≢ []
    → ((SortedTxs.pop txs).0 ≡ head? (txs ++ rest))
      × ((SortedTxs.pop txs).1 ++ rest ≡ tail (txs ++ rest))
unfolding SortedTxs.pop
SortedTxs-pop [] rest h = absurd (h refl)
SortedTxs-pop (tx ∷ txs) rest h = (refl, refl)

-- `PopPendingTx` returns the first pending transaction of the address, or nil where there is none,
-- takes just this one out, and leaves the queue and every other address alone.
pub pop_pending_tx-Shows :
    (addr : Address) (pool : Pool)
    → IsFull (pending_of pool addr)
    → ((pop_pending_tx addr pool).0 ≡ head? (flat (pending_of pool addr)))
      × Shows addr pool
          (pop_pending_tx addr pool).1
          (tail (flat (pending_of pool addr)))
          (queue_of pool addr)
unfolding pop_pending_tx flat
pop_pending_tx-Shows addr pool full = elim (List-cases (pending_of pool addr)) [
  | inl e ↦
      rw (e, pop_pending_tx)
        (
          refl,
          record {
            full = full;
            shown_pending = rw e refl;
            shown_queue = refl;
            other_pending = λ b h. refl;
            other_queue = λ b h. refl;
          },
        )
  | inr (blk, rest, e) ↦
      let (first, left) = SortedTxs-pop blk.txs (flat rest) (rw e at full).0 in
      rw (e, pop_pending_tx)
        (
          first,
          record {
            full =
                rw (pending_of-set_pending pool addr addr, bytes_eq_refl)
                  (IsFull-keep_rest blk (SortedTxs.pop blk.txs).1 rest (rw e at full).1);
            shown_pending =
                rw (pending_of-set_pending pool addr addr, bytes_eq_refl)
                  (flat-keep_rest blk (SortedTxs.pop blk.txs).1 rest ∙ left);
            shown_queue = queue_of-set_pending pool addr addr _;
            other_pending = λ b h. rw (pending_of-set_pending pool addr b, h) refl;
            other_queue = λ b h. queue_of-set_pending pool addr b _;
          },
        )
]

pub flat-nil : (blks : List Block) → IsFull blks → flat blks ≡ [] → blks ≡ []
unfolding flat
flat-nil [] full e = refl
flat-nil (b ∷ blks) full e = absurd (append-ne_nil b.txs (flat blks) full.0 e)

-- a pop in an address that holds something
pub pop_pending_tx-cons :
    (addr : Address) (pool : Pool) (tx : Transaction) (rest : List Transaction)
    → IsFull (pending_of pool addr)
    → flat (pending_of pool addr) ≡ tx ∷ rest
    → ((pop_pending_tx addr pool).0 ≡ some tx)
      × Shows addr pool (pop_pending_tx addr pool).1 rest (queue_of pool addr)
pop_pending_tx-cons addr pool tx rest full e = rw e at (pop_pending_tx-Shows addr pool full)

-- What a call of `Pop` may do: it finds nothing in any address of its order, or it takes the first
-- pending transaction of one of them.
pub data Popped (order : List Address) (pool : Pool) (r : Option Transaction × Pool) : Type 0 where
  nothing : r ≡ (none, pool) → All (λ a. flat (pending_of pool a) ≡ []) order → Popped order pool r
  took :
      (addr : Address) (tx : Transaction) (rest : List Transaction) (after : Pool)
      → r ≡ (some tx, after)
      → Mem addr order
      → flat (pending_of pool addr) ≡ tx ∷ rest
      → Shows addr pool after rest (queue_of pool addr)
      → Popped order pool r

pub pop-cons_nil :
    (addr : Address) (order : List Address) (pool : Pool)
    → pending_of pool addr ≡ []
    → pop (addr ∷ order) pool ≡ pop order pool
unfolding pop
pop-cons_nil addr order pool e = rw (e, pop)

pub pop-cons_some :
    (addr : Address) (order : List Address) (pool : Pool) (tx : Transaction)
    (rest : List Transaction)
    → IsFull (pending_of pool addr)
    → flat (pending_of pool addr) ≡ tx ∷ rest
    → pop (addr ∷ order) pool ≡ (some tx, (pop_pending_tx addr pool).1)
unfolding pop
pop-cons_some addr order pool tx rest full e =
    let (first, _) = pop_pending_tx-cons addr pool tx rest full e in
    elim (List-cases (pending_of pool addr)) [
      | inl n ↦ absurd (no_txs n)
      | inr (blk, blks, n) ↦ rw (n, pop) (rw first (λ i. (first i, (pop_pending_tx addr pool).1)))
    ]
  where
    no_txs : pending_of pool addr ≡ [] → ⊥
    no_txs n = let p : flat [] ≡ tx ∷ rest = rw n at e in unfold flat in cc p

-- `Pop` is one of these, whatever the order.
pub pop-Popped :
    (order : List Address) (pool : Pool) → IsValid pool → Popped order pool (pop order pool)
pop-Popped [] pool v = nothing (unfold pop in refl) tt
pop-Popped (addr ∷ order) pool v =
    let full = (v.valid_at addr).full in
    elim (List-cases (flat (pending_of pool addr))) [
      | inl e ↦
          let blank = flat-nil (pending_of pool addr) full e in
          rw (pop-cons_nil addr order pool blank)
            (later addr order pool (pop order pool) e (pop-Popped order pool v))
      | inr (tx, rest, e) ↦
          took addr tx rest (pop_pending_tx addr pool).1
            (pop-cons_some addr order pool tx rest full e) mem-cons_self e
            (pop_pending_tx-cons addr pool tx rest full e).1
    ]
  where
    later :
        (a : Address) (as' : List Address) (p : Pool) (r : Option Transaction × Pool)
        → flat (pending_of p a) ≡ []
        → Popped as' p r
        → Popped (a ∷ as') p r
    later a as' p r e (nothing q h) = nothing q (e, h)
    later a as' p r e (took b tx rest after q m f sh) =
        took b tx rest after q (mem-cons_of_mem a m) f sh

-- work on one address that leaves a valid address leaves a valid pool
Shows-IsValid :
    (addr : Address) (before after : Pool) (pending queue : List Transaction)
    → IsValid before
    → Shows addr before after pending queue
    → IsConsecutive (nonces pending)
    → IsSorted queue
    → IsValid after
Shows-IsValid addr before after pending queue v shows c s = record {
  valid_at = λ b. elim (Bool-cases (bytes_eq addr b)) [
    | inl same ↦ rw (← (bytes_eq_iff addr b).0 same) (record {
      full = shows.full;
      consecutive = rw shows.shown_pending c;
      sorted = rw shows.shown_queue s;
    })
    | inr other ↦
        let there = v.valid_at b in
        record {
          full = rw (shows.other_pending b other) there.full;
          consecutive = rw (shows.other_pending b other) there.consecutive;
          sorted = rw (shows.other_queue b other) there.sorted;
        }
  ];
}

IsConsecutive-tail :
    (t : Transaction) (ts : List Transaction)
    → IsConsecutive (nonces (t ∷ ts))
    → IsConsecutive (nonces ts)
IsConsecutive-tail t [] h = tt
IsConsecutive-tail t (u ∷ ts) h = h.1

-- `Pop` keeps the invariant.
pub pop-IsValid : (order : List Address) (pool : Pool) → IsValid pool → IsValid (pop order pool).1
pop-IsValid order pool v = keep (pop order pool) (pop-Popped order pool v)
  where
    keep : (r : Option Transaction × Pool) → Popped order pool r → IsValid r.1
    keep r (nothing q h) = rw q v
    keep r (took addr tx rest after q m e shows) =
        let own = v.valid_at addr in
        rw q (
          Shows-IsValid addr pool after rest (queue_of pool addr) v shows
            (IsConsecutive-tail tx rest (rw e at own.consecutive)) own.sorted)
