-- ===== src/StateMachine/Execute.antt =====
-- What `Execute` does to the accounts.
use simple_standalone_versio.Base.{
  ℕ, ◌≤◌, ◌≡◌, Option, none, some, ltb, if◌then◌else◌, bytes_eq, Option-cases, Bool-cases, inl, inr,
  arith, refl,
}
use simple_standalone_versio.Types.{Address, Account, Transaction, IsU64}
use simple_standalone_versio.StatDb.{StatDb}
use simple_standalone_versio.StateMachine.{base_gas, cost, debited, credited, transfer, execute}

credited-IsU64 :
    (o : Option Account) (v : ℕ) → ((x : Account) → o ≡ some x → IsU64 x) → IsU64 (credited o v)
credited-IsU64 none v h = omega arith
credited-IsU64 (some x) v h =
    let u = h x refl in record { amount_lt = omega arith; nonce_lt = u.nonce_lt }

module _ (db : StatDb) (from_of : Transaction → Address) (s : db.State) (tx : Transaction) where
  -- A transaction that is not executed changes no account, and its status is 0 or 1.
  pub execute_failed : (execute db from_of s tx).1.status ≡ 0 → (execute db from_of s tx).0 ≡ s
  unfolding execute
  execute_failed h = ground arith

  debited-IsU64 : (x : Account) → db.load s (from_of tx) ≡ some x → IsU64 (debited x (cost tx))
  debited-IsU64 x e =
      let u = db.load-IsU64 s (from_of tx) x e in
      record { amount_lt = omega (arith, u.amount_lt); nonce_lt = omega arith }

  module _ (x : Account) (found : db.load s (from_of tx) ≡ some x) where
    -- what `transfer` leaves at each address
    pub load-transfer :
        (b : Address)
        → db.load (transfer db from_of s tx x) b ≡ (
            if bytes_eq tx.to b
            then some (
                credited
                  (if bytes_eq (from_of tx) tx.to
                    then some (debited x (cost tx))
                    else db.load s tx.to)
                  tx.value)
            else (if bytes_eq (from_of tx) b then some (debited x (cost tx)) else db.load s b))
    unfolding transfer
    load-transfer b =
        let d = debited x (cost tx) in
        let s1 = db.store s (from_of tx) d in
        let step = db.load-store s (from_of tx) tx.to d (debited-IsU64 x found) in
        let u = credited-IsU64 (db.load s1 tx.to) tx.value (db.load-IsU64 s1 tx.to) in
        rw (db.load-store s1 tx.to b _ u)
          (rw (db.load-store s (from_of tx) b d (debited-IsU64 x found)) (rw step refl))

  -- a transaction with status 1 was paid for, and its writes are those of `transfer`
  pub execute_ok :
      (execute db from_of s tx).1.status ≡ 1
      → (x : Account) × (db.load s (from_of tx) ≡ some x)
        × (base_gas ≤ tx.gas)
        × (cost tx ≤ x.amount)
        × ((execute db from_of s tx).0 ≡ transfer db from_of s tx x)
  unfolding execute
  execute_ok h = elim (Bool-cases (ltb tx.gas base_gas)) [
    | inl low ↦ absurd (ground arith)
    | inr enough ↦ elim (Option-cases (db.load s (from_of tx))) [
      | inl e ↦ absurd (ground arith)
      | inr (x, e) ↦ (x, e, ground arith, ground arith, ground arith)
    ]
  ]

  -- What an executed transaction leaves at each address.
  pub executed-load :
      (ok : (execute db from_of s tx).1.status ≡ 1) (b : Address)
      → (x : Account) × (db.load s (from_of tx) ≡ some x)
        × (cost tx ≤ x.amount)
        × (db.load (execute db from_of s tx).0 b ≡ (
            if bytes_eq tx.to b
            then some (
                credited
                  (if bytes_eq (from_of tx) tx.to
                    then some (debited x (cost tx))
                    else db.load s tx.to)
                  tx.value)
            else (if bytes_eq (from_of tx) b then some (debited x (cost tx)) else db.load s b)))
  executed-load ok b =
      let (x, found, gas, paid, e) = execute_ok ok in
      (x, found, paid, rw e (load-transfer x found b))
