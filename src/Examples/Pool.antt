-- ===== src/Examples/Pool.antt =====
-- The transaction pool.
use simple_standalone_versio.Base.{
  ℕ, ◌^◌, ◌<◌, All, ◌≡◌, refl, Option, some, none, List, [], ◌∷◌, arith, bytes_eq, lookup, insert,
  sort_by, sort_onto, insert_by, if◌then◌else◌, Bool-cases, inl, inr,
}
use simple_standalone_versio.Types.{Address, Transaction}
use simple_standalone_versio.TxPool.SortedTxs
use simple_standalone_versio.TxPool.SortedTxs.{
  Block, flat, push_last, gas_price, replace, last_nonce, last_block_nonce,
}
use simple_standalone_versio.TxPool.Pool.{
  Pool, new_pool, pending_of, queue_of, make_new_block, block_price, find_price, place,
  pop_from_queue, is_ready, promote, push_pending_tx, replace_in_queue, enqueue, add_queue,
  base_nonce, new_tx_at,
}
use simple_standalone_versio.TxPool.NewTx.{Shows, new_tx_spec, new_tx_at-Shows}
use simple_standalone_versio.TxPool.Invariant.{IsConsecutive, IsValid, new_tx_at-IsValid}
use simple_standalone_versio.TxPool.Queue.{nonces, IsSorted, enqueue-IsSorted}
use simple_standalone_versio.TxPool.Pop.{pop_pending_tx, pop, kept, is_kept, clean_expired_txs}
use simple_standalone_versio.TxPool.Taken.{Popped, pop-Popped, pop-IsValid}
use simple_standalone_versio.TxPool.Clean.{
  IsCleaned, clean_expired_txs_lem, clean_expired_txs-IsValid,
}
use simple_standalone_versio.TxPool.Price.{IsPriced, ArePriced, replace_first_breaks_IsPriced}
use simple_standalone_versio.Examples.Setup.{alice, bob, payment}

program : Unit {0}
unfolding new_tx_at base_nonce push_pending_tx promote is_ready pop_from_queue place make_new_block
    block_price find_price push_last last_block_nonce last_nonce gas_price SortedTxs.push add_queue
    enqueue replace_in_queue sort_by sort_onto insert_by pending_of queue_of lookup insert bytes_eq
    flat
program = tt

-- `NewTx` of the transactions of alice, whose account has the nonce 0
abbrev add : Transaction → Option Pool → Option Pool
add tx none = none
add tx (some pool) = new_tx_at alice 0 7 tx pool

abbrev pub tx_of : ℕ → ℕ → Transaction
tx_of nonce gas_price = payment alice bob nonce 10 gas_price

abbrev pub stamped : ℕ → ℕ → Transaction
stamped nonce gas_price = record (tx_of nonce gas_price) { time = 7 }

-- the transactions 2 and 3 wait for 1, which promotes both
abbrev pub three : Pool
three = record {
  txs = 0 ∷ [];
  next_id = 1;
  pendings =
      (alice, record { id = 0; txs = stamped 1 5 ∷ stamped 2 5 ∷ stamped 3 6 ∷ [] } ∷ []) ∷ [];
  queue = (alice, []) ∷ [];
}

promotes : add (tx_of 1 5) (add (tx_of 2 5) (add (tx_of 3 6) (some new_pool))) ≡ some three
unfolding program
promotes = refl

-- a cheaper transaction opens a box
cheaper_opens_box :
    add (tx_of 4 3) (some three)
    ≡ some (record three {
      txs = 1 ∷ 0 ∷ [];
      next_id = 2;
      pendings =
          (
            alice,
            record { id = 0; txs = stamped 1 5 ∷ stamped 2 5 ∷ stamped 3 6 ∷ [] }
                ∷ record { id = 1; txs = stamped 4 3 ∷ [] }
                ∷ [],
          )
          ∷ [];
    })
unfolding program
cheaper_opens_box = refl

IsValid-new_pool : IsValid new_pool
unfolding program
IsValid-new_pool = record { valid_at = λ a. record { full = tt; consecutive = tt; sorted = tt } }

new_tx_at-Shows_example :
    (after : Pool) × (new_tx_at alice 0 7 (tx_of 1 5) new_pool ≡ some after)
    × Shows alice new_pool after
        (new_tx_spec 0 (stamped 1 5) (pending_of new_pool alice) (queue_of new_pool alice)).0
        (new_tx_spec 0 (stamped 1 5) (pending_of new_pool alice) (queue_of new_pool alice)).1
new_tx_at-Shows_example =
    new_tx_at-Shows alice 0 7 (tx_of 1 5) new_pool (IsValid-new_pool.valid_at alice).full

new_tx_at-IsValid_example :
    (after : Pool) × (new_tx_at alice 0 7 (tx_of 1 5) new_pool ≡ some after) × IsValid after
new_tx_at-IsValid_example = new_tx_at-IsValid alice 0 7 (tx_of 1 5) new_pool IsValid-new_pool

abbrev boxes : List Block
boxes = record { id = 0; txs = stamped 1 5 ∷ stamped 2 5 ∷ stamped 3 6 ∷ [] } ∷ []

pending_three : (a : Address) → pending_of three a ≡ (if bytes_eq alice a then boxes else [])
unfolding pending_of lookup
pending_three a = ground arith

queue_three : (a : Address) → queue_of three a ≡ []
unfolding queue_of lookup
queue_three a = ground arith

boxes-IsConsecutive : IsConsecutive (nonces (flat boxes))
unfolding flat
boxes-IsConsecutive = (refl, (refl, tt))

pub IsValid-three : IsValid three
unfolding flat
IsValid-three = record {
  valid_at = λ a. elim (Bool-cases (bytes_eq alice a)) [
    | inl e ↦ record {
      full = rw (pending_three a, e) ((λ n. cc), tt);
      consecutive = rw (pending_three a, e) boxes-IsConsecutive;
      sorted = rw (queue_three a) tt;
    }
    | inr e ↦ record {
      full = rw (pending_three a, e) tt;
      consecutive = rw (pending_three a, e) tt;
      sorted = rw (queue_three a) tt;
    }
  ];
}

pop-Popped_example : Popped (bob ∷ alice ∷ []) three (pop (bob ∷ alice ∷ []) three)
pop-Popped_example = pop-Popped (bob ∷ alice ∷ []) three IsValid-three

pop-IsValid_example : IsValid (pop (bob ∷ alice ∷ []) three).1
pop-IsValid_example = pop-IsValid (bob ∷ alice ∷ []) three IsValid-three

pops_first : (pop (bob ∷ alice ∷ []) three).0 ≡ some (stamped 1 5)
unfolding program pop pop_pending_tx SortedTxs.pop
pops_first = refl

abbrev waiting : Pool
waiting = record new_pool { queue = (alice, stamped 4 5 ∷ stamped 6 5 ∷ []) ∷ [] }

times : All (λ t. t.time < 2 ^ 64) (queue_of waiting alice)
unfolding program
times = (omega arith, (omega arith, tt))

clean_expired_txs_lem_example :
    IsCleaned 5 100
      (queue_of waiting alice)
      (queue_of (clean_expired_txs (λ a. 5) 100 waiting) alice)
    × (pending_of (clean_expired_txs (λ a. 5) 100 waiting) alice ≡ pending_of waiting alice)
clean_expired_txs_lem_example = clean_expired_txs_lem (λ a. 5) 100 waiting alice (omega arith) times

keeps_six : kept 5 100 (stamped 4 5 ∷ stamped 6 5 ∷ []) ≡ stamped 6 5 ∷ []
unfolding kept is_kept
keeps_six = refl

clean_expired_txs-IsValid_example : IsValid (clean_expired_txs (λ a. 5) 100 three)
clean_expired_txs-IsValid_example = clean_expired_txs-IsValid (λ a. 5) 100 three IsValid-three

enqueue-IsSorted_example : IsSorted (enqueue (stamped 4 5 ∷ stamped 6 5 ∷ []) (stamped 5 5))
enqueue-IsSorted_example =
    enqueue-IsSorted (stamped 4 5 ∷ stamped 6 5 ∷ []) (stamped 5 5) (omega arith)

enqueues :
    enqueue (stamped 4 5 ∷ stamped 6 5 ∷ []) (stamped 5 5)
    ≡ stamped 4 5 ∷ stamped 5 5 ∷ stamped 6 5 ∷ []
unfolding program
enqueues = refl

abbrev box : Block
box = record { id = 0; txs = stamped 1 5 ∷ stamped 2 7 ∷ [] }

grown :
    push_last (box ∷ []) (stamped 3 6)
    ≡ some (record box { txs = stamped 1 5 ∷ stamped 2 7 ∷ stamped 3 6 ∷ [] } ∷ [])
unfolding program
grown = refl

box-ArePriced : ArePriced (box ∷ [])
unfolding gas_price
box-ArePriced = omega arith

replace_first_breaks_IsPriced_example :
    ¬ IsPriced (replace (stamped 1 5 ∷ stamped 2 7 ∷ []) (stamped 1 9))
replace_first_breaks_IsPriced_example =
    replace_first_breaks_IsPriced (stamped 1 5) (stamped 2 7) (stamped 1 9) [] refl (omega arith)
