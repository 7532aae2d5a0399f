-- ===== src/StatDb.antt =====
-- The account database (statdb/stat.go) over a key-value store. RLP is a parameter: utils/rlp is
-- a copy of another project's library.
pub mod Laws
use simple_standalone_versio.Base.{
  ℕ, ◌≡◌, ◌<◌, Bool, Option, none, some, ◌∷◌, [], if◌then◌else◌, ◌>>=◌, Bytes, bytes_eq, add64,
}
use simple_standalone_versio.Types.{Address, Account, new_account, IsU64}
use simple_standalone_versio.KvStore.{KvStore}

-- What the code uses of the RLP library: an account whose fields are uint64 values is encoded,
-- its encoding decodes to it, and decoding yields uint64 fields.
pub record Rlp : Type 0 where
  pub encode_account : Account → Option Bytes
  pub decode_account : Bytes → Option Account
  pub encode_hash : Bytes → Option Bytes
  pub decode-encode :
      (a : Account)
      → IsU64 a
      → (d : Bytes) × (encode_account a ≡ some d) × (decode_account d ≡ some a)
  pub decode-IsU64 : (d : Bytes) (a : Account) → decode_account d ≡ some a → IsU64 a

-- What a client of the account database may rely on, where the writes of the store below succeed.
pub record StatDb : Type 1 where
  pub State : Type 0
  pub load : State → Address → Option Account
  pub store : State → Address → Account → State
  pub load-store :
      (s : State) (a b : Address) (x : Account)
      → IsU64 x
      → load (store s a x) b ≡ (if bytes_eq a b then some x else load s b)
  pub load-IsU64 : (s : State) (a : Address) (x : Account) → load s a ≡ some x → IsU64 x

module _ (kv : KvStore) (rlp : Rlp) where
  -- `DefaultStatDB.Load`
  unfoldable pub load : kv.Store → Address → Option Account
  load s addr = do data_bytes ← kv.get s addr; rlp.decode_account data_bytes

  -- `DefaultStatDB.Store`: an encoding error and an error of the store are only printed
  unfoldable pub store : kv.Store → Address → Account → kv.Store
  store s addr account = elim (rlp.encode_account account) [
    | none ↦ s
    | some data_bytes ↦ (kv.put s addr data_bytes).0
  ]

  -- `DefaultStatDB.IncNonce`
  unfoldable pub inc_nonce : kv.Store → Address → kv.Store
  inc_nonce s addr = elim (load s addr) [
    | none ↦ store s addr (record new_account { nonce = 1 })
    | some account ↦ store s addr (record account { nonce = add64 account.nonce 1 })
  ]

  -- `DefaultStatDB.SetStatRoot`; the key is "stat_root"
  unfoldable pub set_stat_root : kv.Store → Bytes → kv.Store
  set_stat_root s root = elim (rlp.encode_hash root) [
    | none ↦ s
    | some data_bytes ↦
        (kv.put s (115 ∷ 116 ∷ 97 ∷ 116 ∷ 95 ∷ 114 ∷ 111 ∷ 111 ∷ 116 ∷ []) data_bytes).0
  ]
