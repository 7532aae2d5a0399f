-- ===== src/Examples/Blocks.antt =====
-- The block maker.
use simple_standalone_versio.Base.{ℕ, ◌<◌, ◌≡◌, refl, false, some, none, List, [], ◌∷◌, arith, All}
use simple_standalone_versio.Types.{Address, Transaction, Receiption}
use simple_standalone_versio.Blockchain.{Header}
use simple_standalone_versio.TxPool.SortedTxs.{flat}
use simple_standalone_versio.TxPool.Invariant.{IsValid}
use simple_standalone_versio.TxPool.Count.{pending_total, total}
use simple_standalone_versio.Maker.{BlockMaker, done, pack_all}
use simple_standalone_versio.Maker.Pack.{exec_all, Packed, pack_all-Packed}
use simple_standalone_versio.Maker.Finish.{produce, sealed_header, produce_lem}
use simple_standalone_versio.Examples.Setup.{db, start, alice, bob, from_of}
use simple_standalone_versio.Examples.Pool.{three, IsValid-three}

abbrev genesis : Header
genesis = record {
  root = [];
  parent_hash = [];
  height = 0;
  coinbase = [];
  timestamp = 0;
  difficulty = 0;
  nonce = 0;
}

abbrev maker : BlockMaker db
maker = record {
  txpool = three;
  state = start;
  config = record { duration = 2; coinbase = bob; difficulty = 8 };
  current_header = genesis;
  next_header = none;
  next_body = none;
  interupt = false;
}

abbrev order_of : ℕ → List Address
order_of n = alice ∷ bob ∷ []

abbrev hash : Header → List ℕ
hash h = h.height ∷ []

three_pending : pending_total three < 4
unfolding total flat
three_pending = omega arith

produce_lem_example :
    (txs : List Transaction) × (m' : BlockMaker db) × (produce db from_of hash [] 100 200 4 order_of
        maker
      ≡ done (
        sealed_header db from_of hash 200 maker,
        some (record { transactions = txs; receiptions = (exec_all db from_of start txs).1 }),
        m',
      ))
    × (m'.state ≡ (exec_all db from_of start txs).0)
    × All (λ (r : Receiption). r.status ≡ 1) (exec_all db from_of start txs).1
    × (m'.next_header ≡ none)
    × (m'.next_body ≡ none)
    × IsValid m'.txpool
produce_lem_example =
    produce_lem db from_of hash [] 100 200 4 order_of maker IsValid-three three_pending

abbrev begun : BlockMaker db
begun = record maker { next_body = some (record { transactions = []; receiptions = [] }) }

pack_all-Packed_example :
    (m' : BlockMaker db) × (txs : List Transaction) × (pack_all db from_of 4 order_of begun
      ≡ done m')
    × Packed db from_of begun m' (record { transactions = []; receiptions = [] }) txs
pack_all-Packed_example =
    pack_all-Packed db from_of 4 order_of begun (record { transactions = []; receiptions = [] })
      IsValid-three refl three_pending
