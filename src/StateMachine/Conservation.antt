-- ===== src/StateMachine/Conservation.antt =====
-- Balances and nonces across `Execute`.
use simple_standalone_versio.Base.{
  ℕ, ◌+◌, ◌*◌, ◌<◌, ◌≤◌, ◌≡◌, true, false, Option, none, some, u64_mod, add64, bytes_eq,
  bytes_eq_refl, bytes_eq_comm, ◌↔◌, sym, ap, ◌∙◌, bytes_eq_iff, arith, refl,
}
use simple_standalone_versio.Types.{Address, Account, Transaction}
use simple_standalone_versio.StatDb.{StatDb}
use simple_standalone_versio.StateMachine.{
  base_gas, cost, debited, credited, amount_of, nonce_of, execute, balance, nonce_at,
}
use simple_standalone_versio.StateMachine.Execute.{executed-load, execute_ok}

-- the fee of a transaction, without wrap-around
abbrev pub fee : Transaction → ℕ
fee tx = base_gas * tx.gas_price

amount_of-credited :
    (o : Option Account) (v : ℕ) → amount_of (some (credited o v)) ≡ add64 (amount_of o) v
amount_of-credited none v = refl
amount_of-credited (some x) v = refl

nonce_of-credited : (o : Option Account) (v : ℕ) → nonce_of (some (credited o v)) ≡ nonce_of o
nonce_of-credited none v = refl
nonce_of-credited (some x) v = refl

module _ (db : StatDb) (from_of : Transaction → Address) (s : db.State) (tx : Transaction)
    (ok : (execute db from_of s tx).1.status ≡ 1) where
  -- An executed transaction touches no account but the sender's and the recipient's.
  pub execute_frame :
      (b : Address)
      → bytes_eq (from_of tx) b ≡ false
      → bytes_eq tx.to b ≡ false
      → db.load (execute db from_of s tx).0 b ≡ db.load s b
  execute_frame b e1 e2 =
      let (x, found, paid, e) = executed-load db from_of s tx ok b in rw (e, e1, e2)

  -- the sender and the recipient after a transfer between two accounts
  transfer_between :
      bytes_eq (from_of tx) tx.to ≡ false
      → (balance db (execute db from_of s tx).0 (from_of tx) + cost tx ≡ balance db s (from_of tx))
        × (balance db (execute db from_of s tx).0 tx.to ≡ add64 (balance db s tx.to) tx.value)
        × (nonce_at db (execute db from_of s tx).0 (from_of tx)
            ≡ add64 (nonce_at db s (from_of tx)) 1)
        × (nonce_at db (execute db from_of s tx).0 tx.to ≡ nonce_at db s tx.to)
  transfer_between apart =
      let (x, found, paid, at_from) = executed-load db from_of s tx ok (from_of tx) in
      let (y, _, _, at_to) = executed-load db from_of s tx ok tx.to in
      let back = bytes_eq_comm tx.to (from_of tx) ∙ apart in
      (
        rw (at_from, back, bytes_eq_refl, found) (omega arith),
        rw (at_to, bytes_eq_refl, apart) (amount_of-credited (db.load s tx.to) tx.value),
        rw (at_from, back, bytes_eq_refl, found) refl,
        rw (at_to, bytes_eq_refl, apart) (nonce_of-credited (db.load s tx.to) tx.value),
      )

  -- A transfer between two accounts moves money and burns the fee: where neither the cost nor the
  -- recipient's balance passes 2 ^ 64, the two balances and the fee add up to the balances before.
  -- The sender's nonce goes up by one (modulo 2 ^ 64), and the recipient's stays.
  pub execute-conserves :
      bytes_eq (from_of tx) tx.to ≡ false
      → tx.value + fee tx < u64_mod
      → balance db s tx.to + tx.value < u64_mod
      → (balance db (execute db from_of s tx).0 (from_of tx)
            + balance db (execute db from_of s tx).0 tx.to
            + fee tx
          ≡ balance db s (from_of tx) + balance db s tx.to)
        × (balance db (execute db from_of s tx).0 tx.to ≡ balance db s tx.to + tx.value)
        × (nonce_at db (execute db from_of s tx).0 (from_of tx)
            ≡ add64 (nonce_at db s (from_of tx)) 1)
        × (nonce_at db (execute db from_of s tx).0 tx.to ≡ nonce_at db s tx.to)
  unfolding cost
  execute-conserves apart fits room =
      let (a, b, c, d) = transfer_between apart in (omega arith, omega arith, c, d)

  -- A transfer to oneself costs exactly the fee, where the cost stays below 2 ^ 64, and raises the
  -- nonce.
  pub execute_self :
      bytes_eq (from_of tx) tx.to ≡ true
      → tx.value + fee tx < u64_mod
      → (balance db (execute db from_of s tx).0 tx.to + fee tx ≡ balance db s tx.to)
        × (nonce_at db (execute db from_of s tx).0 tx.to ≡ add64 (nonce_at db s tx.to) 1)
  unfolding cost
  execute_self same fits =
      let (x, found, paid, at_to) = executed-load db from_of s tx ok tx.to in
      let e = (bytes_eq_iff (from_of tx) tx.to).0 same in
      let found' : db.load s tx.to ≡ some x = sym (ap (db.load s) e) ∙ found in
      let u = db.load-IsU64 s tx.to x found' in
      (
        rw (at_to, bytes_eq_refl, same, found') (omega (arith, u.amount_lt)),
        rw (at_to, bytes_eq_refl, same, found') refl,
      )

  -- The cost is a uint64 and wraps: a transfer whose value and fee pass 2 ^ 64 together mints money.
  -- The two balances and the fee add up to 2 ^ 64 more than the balances before.
  pub execute_overflow_mints :
      bytes_eq (from_of tx) tx.to ≡ false
      → tx.value < u64_mod
      → fee tx < u64_mod
      → u64_mod ≤ tx.value + fee tx
      → balance db s tx.to + tx.value < u64_mod
      → balance db (execute db from_of s tx).0 (from_of tx)
          + balance db (execute db from_of s tx).0 tx.to
          + fee tx
        ≡ balance db s (from_of tx) + balance db s tx.to + u64_mod
  unfolding cost
  execute_overflow_mints apart small_value small_fee wraps room =
      let (a, b, c, d) = transfer_between apart in omega arith

module _ (db : StatDb) (from_of : Transaction → Address) (s : db.State) (tx : Transaction) where
  -- `Execute` succeeds exactly when the gas limit reaches 21000 and the sender's balance covers the
  -- cost; the transaction's nonce plays no part.
  pub execute_status_iff : ((execute db from_of s tx).1.status ≡ 1) ↔ (
      (x : Account) × (db.load s (from_of tx) ≡ some x)
      × (base_gas ≤ tx.gas)
      × (cost tx ≤ x.amount))
  unfolding execute
  execute_status_iff = (
    (λ ok.
        let (x, found, gas, paid, _) = execute_ok db from_of s tx (unfold execute in ok) in
        (x, found, gas, paid)),
    (λ (x, found, gas, paid). ground arith),
  )

-- A transfer to another account can be executed again after it was executed, with the same nonce,
-- as long as the sender's balance covers the cost twice.
pub execute_replay :
    (db : StatDb) (from_of : Transaction → Address) (s : db.State) (tx : Transaction)
    → (execute db from_of s tx).1.status ≡ 1
    → bytes_eq (from_of tx) tx.to ≡ false
    → cost tx + cost tx ≤ balance db s (from_of tx)
    → (execute db from_of (execute db from_of s tx).0 tx).1.status ≡ 1
execute_replay db from_of s tx ok apart twice =
    let (x, found, gas, paid) = (execute_status_iff db from_of s tx).0 ok in
    let (y, found', _, at_from) = executed-load db from_of s tx ok (from_of tx) in
    let enough : cost tx + cost tx ≤ y.amount = rw found' at twice in
    (execute_status_iff db from_of (execute db from_of s tx).0 tx).1 (
      debited y (cost tx),
      rw (at_from, bytes_eq_comm tx.to (from_of tx) ∙ apart, bytes_eq_refl) refl,
      gas,
      omega arith,
    )
