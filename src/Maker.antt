-- ===== src/Maker.antt =====
-- The block maker (maker/blockmaker.go): it takes transactions from the pool, executes them and
-- collects those that succeed.
pub mod Pack
pub mod Finish
use simple_standalone_versio.Base.{
  ℕ, zero, suc, ◌+◌, Bool, true, false, Option, none, some, List, [], ◌∷◌, ◌++◌, ◌==◌,
  if◌then◌else◌, Bytes,
}
use simple_standalone_versio.Types.{Address, Transaction, Receiption}
use simple_standalone_versio.StatDb.{StatDb}
use simple_standalone_versio.StateMachine.{execute}
use simple_standalone_versio.Blockchain.{Header, Body, new_header, new_body}
use simple_standalone_versio.TxPool.Pool.{Pool}
use simple_standalone_versio.TxPool.Pop.{pop}

-- `Duration` is in nanoseconds
pub record ChainConfig : Type 0 where
  pub duration : ℕ
  pub coinbase : Address
  pub difficulty : ℕ

module _ (db : StatDb) where
  -- `none` is a nil pointer, and `interupt` tells whether the channel of length one holds a signal.
  pub record BlockMaker : Type 0 where
    pub txpool : Pool
    pub state : db.State
    pub config : ChainConfig
    pub current_header : Header
    pub next_header : Option Header
    pub next_body : Option Body
    pub interupt : Bool

-- How a step ends: `panicked` is a nil dereference, `out_of_fuel` the end of the model's fuel.
pub data Outcome {ℓ} (A : Type ℓ) : Type ℓ where
  done : A → Outcome A
  panicked : Outcome A
  out_of_fuel : Outcome A

module _ (db : StatDb) (from_of : Transaction → Address) where
  -- `NewBlockMaker`
  unfoldable pub new_block_maker : Pool → db.State → ChainConfig → Header → BlockMaker db
  new_block_maker pool state config current = record {
    txpool = pool;
    state = state;
    config = config;
    current_header = current;
    next_header = none;
    next_body = none;
    interupt = false;
  }

  -- `NewBlock`, at the time `now`; `hash` and the zero address are those of the chain's headers
  unfoldable pub new_block : (Header → Bytes) → Address → ℕ → BlockMaker db → BlockMaker db
  new_block hash zero_address now m = record m {
    next_body = some new_body;
    next_header = some (record (new_header hash zero_address m.current_header) {
      coinbase = m.config.coinbase;
      difficulty = m.config.difficulty;
      timestamp = now;
    });
  }

  -- the two appends at the end of `pack`
  unfoldable pub append_to_body : Body → Transaction → Receiption → Body
  append_to_body body tx receiption = record {
    transactions = body.transactions ++ tx ∷ [];
    receiptions = body.receiptions ++ receiption ∷ [];
  }

  unfoldable pub record_executed :
      BlockMaker db → Transaction → Receiption → Outcome (Bool × BlockMaker db)
  record_executed m tx receiption = elim m.next_body [
    | none ↦ panicked
    | some body ↦ done (true, record m { next_body = some (append_to_body body tx receiption) })
  ]

  -- `pack` after `Pop` has returned a transaction and left the maker `m`
  unfoldable pub pack_tx : BlockMaker db → Transaction → Outcome (Bool × BlockMaker db)
  pack_tx m tx =
      let r = execute db from_of m.state tx in
      if r.1.status == 0
      then done (false, record m { state = r.0 })
      else record_executed (record m { state = r.0 }) tx r.1

  -- `pack`; `order` is the order in which `Pop` meets the addresses
  unfoldable pub pack : List Address → BlockMaker db → Outcome (Bool × BlockMaker db)
  pack order m =
      let p = pop order m.txpool in
      elim p.0 [
        | none ↦ done (false, record m { txpool = p.1 })
        | some tx ↦ pack_tx (record m { txpool = p.1 }) tx
      ]

  -- the loop of `Pack`, on fuel; `order_of` gives each round its order
  unfoldable pub pack_all : ℕ → (ℕ → List Address) → BlockMaker db → Outcome (BlockMaker db)
  pack_all zero order_of m = out_of_fuel
  pack_all (suc fuel) order_of m = elim (pack (order_of fuel) m) [
    | panicked ↦ panicked
    | out_of_fuel ↦ out_of_fuel
    | done (go_on, m') ↦ let rest = pack_all fuel order_of m' in if go_on then rest else done m'
  ]

  -- `Interupt`: the send does not block; a second signal is dropped
  unfoldable pub interupt : BlockMaker db → BlockMaker db
  interupt m = record m { interupt = true }

  -- `Finalize`, at the time `now`; it panics where no block was begun
  unfoldable pub finalize : ℕ → BlockMaker db → Outcome (Header × Option Body × BlockMaker db)
  finalize now m = elim m.next_header [
    | none ↦ panicked
    | some header ↦ done (
      record header { timestamp = now },
      m.next_body,
      record m { next_header = none; next_body = none },
    )
  ]
