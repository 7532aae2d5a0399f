-- ===== src/Maker/Finish.antt =====
-- From `NewBlock` over `Pack` to `Finalize`, and what `Interupt` does to it.
use simple_standalone_versio.Base.{
  ℕ, zero, suc, ◌<◌, ◌≡◌, refl, Bool, true, false, Option, none, some, List, ◌==◌, All, Bytes,
  add64, Bool-cases, Option-cases, inl, inr,
}
use simple_standalone_versio.Types.{Address, Transaction, Receiption}
use simple_standalone_versio.StatDb.{StatDb}
use simple_standalone_versio.StateMachine.{execute}
use simple_standalone_versio.Blockchain.{Header, Body, new_header, new_body}
use simple_standalone_versio.TxPool.Pop.{pop}
use simple_standalone_versio.TxPool.Invariant.{IsValid}
use simple_standalone_versio.TxPool.Count.{pending_total}
use simple_standalone_versio.Maker.{
  BlockMaker, Outcome, done, panicked, out_of_fuel, new_block, pack_tx, pack, pack_all,
  record_executed, interupt, finalize,
}
use simple_standalone_versio.Maker.Pack.{exec_all, pack_all-Packed}

module _ (db : StatDb) (from_of : Transaction → Address) where
  -- the sequence of main.go: `NewBlock`, `Pack`, `Finalize`
  unfoldable pub produce :
      (Header → Bytes)
      → Address
      → ℕ
      → ℕ
      → ℕ
      → (ℕ → List Address)
      → BlockMaker db
      → Outcome (Header × Option Body × BlockMaker db)
  produce hash zero_address begun ended fuel order_of m =
      elim (pack_all db from_of fuel order_of (new_block db from_of hash zero_address begun m)) [
        | done m' ↦ finalize db from_of ended m'
        | panicked ↦ panicked
        | out_of_fuel ↦ out_of_fuel
      ]

  -- the header that a block gets
  abbrev pub sealed_header : (Header → Bytes) → ℕ → BlockMaker db → Header
  sealed_header hash ended m = record {
    root = m.current_header.root;
    parent_hash = hash m.current_header;
    height = add64 m.current_header.height 1;
    coinbase = m.config.coinbase;
    timestamp = ended;
    difficulty = m.config.difficulty;
    nonce = 0;
  }

  -- With fuel for the pending transactions, a block comes out: its header names the current header
  -- as the parent and is one higher, its body holds transactions that were executed one after the
  -- other with success, with their receipts, and the maker is ready for the next `NewBlock`.
  pub produce_lem :
      (hash : Header → Bytes) (zero_address : Address) (begun ended fuel : ℕ)
      (order_of : ℕ → List Address) (m : BlockMaker db)
      → IsValid m.txpool
      → pending_total m.txpool < fuel
      → (txs : List Transaction) × (m' : BlockMaker db) × (produce hash zero_address begun ended
            fuel order_of m
          ≡ done (
            sealed_header hash ended m,
            some (record { transactions = txs; receiptions = (exec_all db from_of m.state txs).1 }),
            m',
          ))
        × (m'.state ≡ (exec_all db from_of m.state txs).0)
        × All (λ (r : Receiption). r.status ≡ 1) (exec_all db from_of m.state txs).1
        × (m'.next_header ≡ none)
        × (m'.next_body ≡ none)
        × IsValid m'.txpool
  unfolding produce new_block new_body new_header finalize
  produce_lem hash zero_address begun ended fuel order_of m v h =
      let begun_maker = new_block db from_of hash zero_address begun m in
      let (n, txs, e, p) = pack_all-Packed db from_of fuel order_of begun_maker new_body v refl h in
      (
        txs,
        record n { next_header = none; next_body = none },
        rw (e, produce) (rw (p.header_is, finalize) (rw p.body_is refl)),
        p.state_is,
        p.succeeded,
        refl,
        refl,
        p.pool_valid,
      )

  -- `Interupt` carried over to the outcome of a step
  abbrev interupt_step : Outcome (Bool × BlockMaker db) → Outcome (Bool × BlockMaker db)
  interupt_step (done (b, m)) = done (b, interupt db from_of m)
  interupt_step panicked = panicked
  interupt_step out_of_fuel = out_of_fuel

  abbrev pub interupt_done : Outcome (BlockMaker db) → Outcome (BlockMaker db)
  interupt_done (done m) = done (interupt db from_of m)
  interupt_done panicked = panicked
  interupt_done out_of_fuel = out_of_fuel

  pack-interupt :
      (order : List Address) (m : BlockMaker db)
      → pack db from_of order (interupt db from_of m) ≡ interupt_step (pack db from_of order m)
  unfolding pack pack_tx record_executed interupt
  pack-interupt order m = elim (Option-cases (pop order m.txpool).0) [
    | inl e ↦ rw (e, pack) refl
    | inr (tx, e) ↦
        rw (e, pack)
          (elim (Bool-cases ((execute db from_of m.state tx).1.status == 0)) [
            | inl f ↦ rw (f, pack_tx) refl
            | inr w ↦
                rw (w, pack_tx)
                  (elim (Option-cases m.next_body) [
                    | inl n ↦ rw (n, record_executed) refl
                    | inr (b, n) ↦ rw (n, record_executed) refl
                  ])
          ])
  ]

  -- A signal of `Interupt` does not stop `Pack`, and does not change what it packs.
  pub pack_all-interupt :
      (fuel : ℕ) (order_of : ℕ → List Address) (m : BlockMaker db)
      → pack_all db from_of fuel order_of (interupt db from_of m)
        ≡ interupt_done (pack_all db from_of fuel order_of m)
  unfolding pack_all
  pack_all-interupt zero order_of m = refl
  pack_all-interupt (suc fuel) order_of m =
      round (pack db from_of (order_of fuel) m) refl (pack-interupt (order_of fuel) m)
        (pack_all-interupt fuel order_of)
    where
      round :
          (o : Outcome (Bool × BlockMaker db))
          → pack db from_of (order_of fuel) m ≡ o
          → pack db from_of (order_of fuel) (interupt db from_of m) ≡ interupt_step o
          → ((n : BlockMaker db)
              → pack_all db from_of fuel order_of (interupt db from_of n)
                ≡ interupt_done (pack_all db from_of fuel order_of n))
          → pack_all db from_of (suc fuel) order_of (interupt db from_of m)
            ≡ interupt_done (pack_all db from_of (suc fuel) order_of m)
      round panicked e e' ih = rw (e, e', pack_all) refl
      round out_of_fuel e e' ih = rw (e, e', pack_all) refl
      round (done (true, n)) e e' ih = rw (e, e', pack_all) (ih n)
      round (done (false, n)) e e' ih = rw (e, e', pack_all) refl
