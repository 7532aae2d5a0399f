-- ===== src/StateMachine.antt =====
-- Transaction execution (statemachine/machine.go) over the account database. `from` is the
-- transaction's sender, `tx.From()`.
pub mod Execute
pub mod Conservation
use simple_standalone_versio.Base.{
  ℕ, zero, ◌+◌, ◌-◌, ◌*◌, ◌%◌, Bool, Option, none, some, ltb, if◌then◌else◌, u64_mod, add64,
}
use simple_standalone_versio.Types.{Address, Account, new_account, Transaction, Receiption}
use simple_standalone_versio.StatDb.{StatDb}

abbrev pub base_gas : ℕ
base_gas = 21000

abbrev pub receipt : ℕ → ℕ → Receiption
receipt status gas_used = record { tx_hash = none; status = status; gas_used = gas_used }

-- `gasCost := gasUsed * tx.GasPrice`, `cost := value + gasCost`, in uint64
unfoldable pub gas_cost : Transaction → ℕ
gas_cost tx = (base_gas * tx.gas_price) % u64_mod

unfoldable pub cost : Transaction → ℕ
unfolding gas_cost
cost tx = add64 tx.value (gas_cost tx)

-- `account.Amount -= cost; account.Nonce += 1`, on an amount that the cost does not pass
abbrev pub debited : Account → ℕ → Account
debited account c = record { amount = account.amount - c; nonce = add64 account.nonce 1 }

-- `toAccount.Amount += value`, on `&types.Account{}` where the account is missing
abbrev pub credited : Option Account → ℕ → Account
credited none value = record new_account { amount = add64 0 value }
credited (some account) value = record account { amount = add64 account.amount value }

-- the balance and the nonce that a client reads; a missing account has neither
abbrev pub amount_of : Option Account → ℕ
amount_of none = 0
amount_of (some account) = account.amount

abbrev pub nonce_of : Option Account → ℕ
nonce_of none = 0
nonce_of (some account) = account.nonce

abbrev pub balance : (db : StatDb) → db.State → Address → ℕ
balance db s a = amount_of (db.load s a)

abbrev pub nonce_at : (db : StatDb) → db.State → Address → ℕ
nonce_at db s a = nonce_of (db.load s a)

module _ (db : StatDb) (from_of : Transaction → Address) where
  -- the writes of a transaction that is paid for
  unfoldable pub transfer : db.State → Transaction → Account → db.State
  transfer s tx account =
      let s1 = db.store s (from_of tx) (debited account (cost tx)) in
      db.store s1 tx.to (credited (db.load s1 tx.to) tx.value)

  -- `StateMachine.Execute`
  unfoldable pub execute : db.State → Transaction → db.State × Receiption
  execute s tx =
      if ltb tx.gas base_gas then (s, receipt 0 tx.gas) else (elim (db.load s (from_of tx)) [
        | none ↦ (s, receipt 0 base_gas)
        | some account ↦
            if ltb account.amount (cost tx)
            then (s, receipt 0 base_gas)
            else (transfer s tx account, receipt 1 base_gas)
      ])
