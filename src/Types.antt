-- ===== src/Types.antt =====
-- The chain's data (types/account.go, types/address.go, types/transaction.go). A uint64 field is a
-- number below 2 ^ 64, an address the list of its bytes, and a `*big.Int` that is set a number.
use simple_standalone_versio.Base.{ℕ, ◌<◌, u64_mod, Bytes, Option}

abbrev pub Address : Type 0
Address = Bytes

pub record Account : Type 0 where
  pub amount : ℕ
  pub nonce : ℕ

-- `types.Account{}`
abbrev pub new_account : Account
new_account = record { amount = 0; nonce = 0 }

-- both fields are values of type uint64
pub record IsU64 (a : Account) : Type 0 where
  pub amount_lt : a.amount < u64_mod
  pub nonce_lt : a.nonce < u64_mod

pub record Signature : Type 0 where
  pub r : ℕ
  pub s : ℕ
  pub v : ℕ

pub record TxData : Type 0 where
  pub to : Address
  pub nonce : ℕ
  pub value : ℕ
  pub gas : ℕ
  pub gas_price : ℕ
  pub input : Bytes

pub record Transaction : Type 0 where
  pub tx_data : TxData
  pub open tx_data use *
  pub signature : Signature
  pub time : ℕ

-- `TxHash` is an interface value that no code sets: `none` is nil.
pub record Receiption : Type 0 where
  pub tx_hash : Option Bytes
  pub status : ℕ
  pub gas_used : ℕ
