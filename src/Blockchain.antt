-- ===== src/Blockchain.antt =====
-- Blocks (blockchain/block.go). The hash of a header, Keccak-256 of its RLP encoding, is a parameter.
use simple_standalone_versio.Base.{ℕ, List, [], Bytes, add64}
use simple_standalone_versio.Types.{Address, Transaction, Receiption}

pub record Header : Type 0 where
  pub root : Bytes
  pub parent_hash : Bytes
  pub height : ℕ
  pub coinbase : Address
  pub timestamp : ℕ
  pub difficulty : ℕ
  pub nonce : ℕ

pub record Body : Type 0 where
  pub transactions : List Transaction
  pub receiptions : List Receiption

-- `NewHeader`; the fields that it does not give are the zero values of their types
unfoldable pub new_header : (Header → Bytes) → Address → Header → Header
new_header hash zero_address parent = record {
  root = parent.root;
  parent_hash = hash parent;
  height = add64 parent.height 1;
  coinbase = zero_address;
  timestamp = 0;
  difficulty = parent.difficulty;
  nonce = 0;
}

-- `blockchain.NewBlock`
unfoldable pub new_body : Body
new_body = record { transactions = []; receiptions = [] }
