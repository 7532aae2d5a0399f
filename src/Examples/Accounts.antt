-- ===== src/Examples/Accounts.antt =====
-- Accounts and execution.
use simple_standalone_versio.Base.{
  ◌+◌, ◌-◌, ◌≤◌, ◌≡◌, ◌↔◌, ◌&&◌, Bytes, refl, true, false, some, [], ◌∷◌, arith, u64_mod, bytes_eq,
  lookup, insert, add64, if◌then◌else◌,
}
use simple_standalone_versio.Types.{Account, Transaction}
use simple_standalone_versio.KvStore.{mem_get, mem_put, mem_kv}
use simple_standalone_versio.StatDb
use simple_standalone_versio.StatDb.Laws.{load-inc_nonce, bumped}
use simple_standalone_versio.StateMachine.{
  execute, transfer, cost, gas_cost, balance, nonce_at, base_gas,
}
use simple_standalone_versio.StateMachine.Execute.{execute_failed}
use simple_standalone_versio.StateMachine.Conservation.{
  fee, execute-conserves, execute_self, execute_overflow_mints, execute_frame, execute_status_iff,
  execute_replay,
}
use simple_standalone_versio.Examples.Setup.{db, start, alice, bob, from_of, payment, toy_rlp}

program : Unit {0}
unfolding execute transfer cost gas_cost StatDb.load StatDb.store mem_get mem_put lookup insert
    bytes_eq
program = tt

abbrev pay : Transaction
pay = payment alice bob 1 10 1

paid : (execute db from_of start pay).1.status ≡ 1
unfolding program
paid = refl

apart : bytes_eq alice bob ≡ false
unfolding program
apart = refl

execute-conserves_example :
    (balance db (execute db from_of start pay).0 alice
        + balance db (execute db from_of start pay).0 bob
        + fee pay
      ≡ balance db start alice + balance db start bob)
    × (balance db (execute db from_of start pay).0 bob ≡ balance db start bob + 10)
    × (nonce_at db (execute db from_of start pay).0 alice ≡ add64 (nonce_at db start alice) 1)
    × (nonce_at db (execute db from_of start pay).0 bob ≡ nonce_at db start bob)
unfolding program
execute-conserves_example =
    execute-conserves db from_of start pay paid apart (omega arith) (omega arith)

abbrev to_self : Transaction
to_self = payment alice alice 1 10 1

to_self_paid : (execute db from_of start to_self).1.status ≡ 1
unfolding program
to_self_paid = refl

same : bytes_eq alice alice ≡ true
unfolding program
same = refl

execute_self_example :
    (balance db (execute db from_of start to_self).0 alice + fee to_self ≡ balance db start alice)
    × (nonce_at db (execute db from_of start to_self).0 alice ≡ add64 (nonce_at db start alice) 1)
execute_self_example = execute_self db from_of start to_self to_self_paid same (omega arith)

-- value and fee are 2 ^ 64 together
abbrev minting : Transaction
minting = payment alice bob 1 (u64_mod - 21000) 1

minting_paid : (execute db from_of start minting).1.status ≡ 1
unfolding program
minting_paid = refl

execute_overflow_mints_example :
    balance db (execute db from_of start minting).0 alice
      + balance db (execute db from_of start minting).0 bob
      + fee minting
    ≡ balance db start alice + balance db start bob + u64_mod
unfolding program
execute_overflow_mints_example =
    execute_overflow_mints db from_of start minting minting_paid apart (omega arith) (omega arith)
      (omega arith) (omega arith)

-- the sender of the minting transaction pays nothing, and the recipient is rich
minted : balance db (execute db from_of start minting).0 bob ≡ u64_mod - 21000
unfolding program
minted = refl

carol_apart : (bytes_eq alice (3 ∷ []) ≡ false) × (bytes_eq bob (3 ∷ []) ≡ false)
unfolding program
carol_apart = (refl, refl)

execute_frame_example : db.load (execute db from_of start pay).0 (3 ∷ []) ≡ db.load start (3 ∷ [])
execute_frame_example = execute_frame db from_of start pay paid (3 ∷ []) carol_apart.0 carol_apart.1

execute_status_iff_example : ((execute db from_of start pay).1.status ≡ 1) ↔ (
    (x : Account) × (db.load start alice ≡ some x) × (base_gas ≤ pay.gas) × (cost pay ≤ x.amount))
execute_status_iff_example = execute_status_iff db from_of start pay

affordable_twice : cost pay + cost pay ≤ balance db start alice
unfolding program
affordable_twice = omega arith

execute_replay_example : (execute db from_of (execute db from_of start pay).0 pay).1.status ≡ 1
execute_replay_example = execute_replay db from_of start pay paid apart affordable_twice

abbrev too_dear : Transaction
too_dear = payment bob alice 1 10 1

refused : (execute db from_of start too_dear).1.status ≡ 0
unfolding program
refused = refl

execute_failed_example : (execute db from_of start too_dear).0 ≡ start
execute_failed_example = execute_failed db from_of start too_dear refused

load-inc_nonce_example :
    (d : Bytes) × (toy_rlp.encode_account (bumped (StatDb.load mem_kv toy_rlp start alice))
      ≡ some d)
    × (StatDb.load mem_kv toy_rlp (StatDb.inc_nonce mem_kv toy_rlp start alice) alice ≡ (
        if (mem_kv.put start alice d).1 && bytes_eq alice alice
        then some (bumped (StatDb.load mem_kv toy_rlp start alice))
        else StatDb.load mem_kv toy_rlp start alice))
load-inc_nonce_example = load-inc_nonce mem_kv toy_rlp start alice alice
