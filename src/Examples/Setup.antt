-- ===== src/Examples/Setup.antt =====
-- The data of the examples: an account database over `MemDB`, with a toy encoding, and a few
-- transactions whose sender is read from their input.
use simple_standalone_versio.Base.{
  ℕ, ◌≡◌, refl, true, Option, none, some, [], ◌∷◌, ◌&&◌, ltb, if◌then◌else◌, Bytes, u64_mod, arith,
}
use simple_standalone_versio.Types.{Address, Account, IsU64, Transaction}
use simple_standalone_versio.KvStore.{MemDb, mem_kv, mem_put}
use simple_standalone_versio.StatDb.{StatDb, Rlp}
use simple_standalone_versio.StatDb.Laws.{default_stat_db}

abbrev pub toy_decode : Bytes → Option Account
toy_decode (x ∷ y ∷ []) =
    if ltb x u64_mod && ltb y u64_mod then some (record { amount = x; nonce = y }) else none
toy_decode _ = none

pub toy_IsU64 : (d : Bytes) (a : Account) → toy_decode d ≡ some a → IsU64 a
toy_IsU64 [] a h = absurd (cc)
toy_IsU64 (x ∷ []) a h = absurd (cc)
toy_IsU64 (x ∷ y ∷ []) a h = ground arith
toy_IsU64 (x ∷ y ∷ z ∷ d) a h = absurd (cc)

pub toy_round :
    (a : Account)
    → IsU64 a
    → (d : Bytes) × (◌≡◌ {A = Option Bytes} (some (a.amount ∷ a.nonce ∷ [])) (some d))
      × (toy_decode d ≡ some a)
toy_round a u = (a.amount ∷ a.nonce ∷ [], refl, ground arith)

abbrev pub toy_rlp : Rlp
toy_rlp = record {
  encode_account = λ a. some (a.amount ∷ a.nonce ∷ []);
  decode_account = toy_decode;
  encode_hash = λ h. some h;
  decode-encode = toy_round;
  decode-IsU64 = toy_IsU64;
}

pub mem_writes : (s : MemDb) (k v : Bytes) → (mem_put s k v).1 ≡ true
unfolding mem_put
mem_writes s k v = refl

abbrev pub db : StatDb
db = default_stat_db mem_kv toy_rlp mem_writes

abbrev pub alice : Address
alice = 1 ∷ []

abbrev pub bob : Address
bob = 2 ∷ []

-- alice has 100000, bob nothing
abbrev pub start : MemDb
start = (alice, 100000 ∷ 0 ∷ []) ∷ []

abbrev pub from_of : Transaction → Address
from_of tx = tx.input

abbrev pub payment : Address → Address → ℕ → ℕ → ℕ → Transaction
payment from to nonce value gas_price = record {
  tx_data = record {
    to = to;
    nonce = nonce;
    value = value;
    gas = 21000;
    gas_price = gas_price;
    input = from;
  };
  signature = record { r = 1; s = 1; v = 0 };
  time = 0;
}
