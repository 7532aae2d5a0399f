-- ===== src/StatDb/Laws.antt =====
-- `DefaultStatDB` over a key-value store, whose writes may fail, and over one whose writes succeed, as
-- those of `MemDB` do.
use simple_standalone_versio.Base.{
  ◌≡◌, true, Option, none, some, ◌&&◌, if◌then◌else◌, Bytes, ap, ◌∙◌, bytes_eq, Option-cases, inl,
  inr, add64, arith,
}
use simple_standalone_versio.Types.{Address, Account, IsU64}
use simple_standalone_versio.KvStore.{KvStore}
use simple_standalone_versio.StatDb

-- the account with its nonce raised by one; a missing account starts as `types.Account{}`
abbrev pub bumped : Option Account → Account
bumped none = record { amount = 0; nonce = 1 }
bumped (some x) = record { amount = x.amount; nonce = add64 x.nonce 1 }

module _ (kv : KvStore) (rlp : StatDb.Rlp) where
  -- `Load` after `Store`, whether or not the write of the encoded account succeeds: with it, the stored
  -- account is loaded, and every other account is as it was; without it, every account is.
  load-store_either :
      (s : kv.Store) (a b : Address) (x : Account)
      → IsU64 x
      → (d : Bytes) × (rlp.encode_account x ≡ some d)
        × (StatDb.load kv rlp (StatDb.store kv rlp s a x) b
            ≡ (if (kv.put s a d).1 && bytes_eq a b then some x else StatDb.load kv rlp s b))
  unfolding StatDb.load StatDb.store
  load-store_either s a b x h =
      let (d, e, back) = rlp.decode-encode x h in
      (d, e, rw (e, StatDb.store) (rw (kv.get-put s a b d) (ground arith)))

  -- What `Load` returns has uint64 fields.
  pub load-IsU64 :
      (s : kv.Store) (a : Address) (x : Account) → StatDb.load kv rlp s a ≡ some x → IsU64 x
  unfolding StatDb.load
  load-IsU64 s a x h = elim (Option-cases (kv.get s a)) [
    | inl e ↦ absurd (ground arith)
    | inr (d, e) ↦ rlp.decode-IsU64 d x (ground arith)
  ]

  bumped-IsU64 : (s : kv.Store) (a : Address) → IsU64 (bumped (StatDb.load kv rlp s a))
  bumped-IsU64 s a = elim (Option-cases (StatDb.load kv rlp s a)) [
    | inl e ↦ rw e (omega arith)
    | inr (x, e) ↦ rw e (
        let u = load-IsU64 s a x e in
        record { amount_lt = u.amount_lt; nonce_lt = omega (arith, u.nonce_lt) })
  ]

  inc_nonce-eq-store :
      (s : kv.Store) (a : Address)
      → StatDb.inc_nonce kv rlp s a ≡ StatDb.store kv rlp s a (bumped (StatDb.load kv rlp s a))
  unfolding StatDb.inc_nonce
  inc_nonce-eq-store s a = elim (Option-cases (StatDb.load kv rlp s a)) [
    | inl e ↦ rw (e, StatDb.inc_nonce)
    | inr (x, e) ↦ rw (e, StatDb.inc_nonce)
  ]

  -- `IncNonce` writes the account with one added to its nonce, modulo 2 ^ 64, and creates a missing account. If
  -- the write succeeds, `Load` gives that account, and every other account is as it was. If it fails, which
  -- `Store` only prints, every account is as it was.
  pub load-inc_nonce :
      (s : kv.Store) (a b : Address)
      → (d : Bytes) × (rlp.encode_account (bumped (StatDb.load kv rlp s a)) ≡ some d)
        × (StatDb.load kv rlp (StatDb.inc_nonce kv rlp s a) b ≡ (
            if (kv.put s a d).1 && bytes_eq a b
            then some (bumped (StatDb.load kv rlp s a))
            else StatDb.load kv rlp s b))
  load-inc_nonce s a b =
      rw inc_nonce-eq-store
        (load-store_either s a b (bumped (StatDb.load kv rlp s a)) (bumped-IsU64 s a))

  module _ (writes : (s : kv.Store) (k v : Bytes) → (kv.put s k v).1 ≡ true) where
    -- Over a store whose writes succeed, `Load` after `Store` returns the stored account, and every other
    -- account is as it was.
    pub load-store :
        (s : kv.Store) (a b : Address) (x : Account)
        → IsU64 x
        → StatDb.load kv rlp (StatDb.store kv rlp s a x) b
          ≡ (if bytes_eq a b then some x else StatDb.load kv rlp s b)
    load-store s a b x h =
        let (d, e, either) = load-store_either s a b x h in
        either
        ∙ ap (λ c. if c && bytes_eq a b then some x else StatDb.load kv rlp s b) (writes s a d)

    -- So the account database keeps its contract.
    abbrev pub default_stat_db : StatDb.StatDb
    default_stat_db = record {
      State = kv.Store;
      load = StatDb.load kv rlp;
      store = StatDb.store kv rlp;
      load-store = load-store;
      load-IsU64 = load-IsU64;
    }
