-- ===== src/KvStore.antt =====
-- The key-value interface (kvstore/kvstore.go) and the map that main.go implements it by.
use simple_standalone_versio.Base.{
  ◌≡◌, Bool, true, false, Option, none, some, [], arith, if◌then◌else◌, Bytes, BytesMap, bytes_eq,
  lookup, insert, remove, lookup-insert, lookup-remove,
}

-- `Get` and `Put` report an error by `none` and by `false`. A write that fails changes nothing.
pub record KvStore : Type 1 where
  pub Store : Type 0
  pub get : Store → Bytes → Option Bytes
  pub put : Store → Bytes → Bytes → Store × Bool
  pub delete : Store → Bytes → Store × Bool
  pub has : Store → Bytes → Bool
  pub get-put :
      (s : Store) (k j v : Bytes)
      → get (put s k v).0 j
        ≡ (if (put s k v).1 then (if bytes_eq k j then some v else get s j) else get s j)
  pub get-delete :
      (s : Store) (k j : Bytes)
      → get (delete s k).0 j
        ≡ (if (delete s k).1 then (if bytes_eq k j then none else get s j) else get s j)

-- main.go, `MemDB`: `data map[string][]byte`
abbrev pub MemDb : Type 0
MemDb = BytesMap Bytes

abbrev pub new_mem_db : MemDb
new_mem_db = []

unfoldable pub mem_get : MemDb → Bytes → Option Bytes
unfolding lookup
mem_get m key = lookup key m

unfoldable pub mem_put : MemDb → Bytes → Bytes → MemDb × Bool
unfolding insert
mem_put m key value = (insert key value m, true)

unfoldable pub mem_delete : MemDb → Bytes → MemDb × Bool
unfolding remove
mem_delete m key = (remove key m, true)

unfoldable pub mem_has : MemDb → Bytes → Bool
unfolding lookup
mem_has m key = elim (lookup key m) [ none ↦ false | some _ ↦ true ]

pub mem_get-mem_put :
    (m : MemDb) (k j v : Bytes)
    → mem_get (mem_put m k v).0 j
      ≡ (if (mem_put m k v).1 then (if bytes_eq k j then some v else mem_get m j) else mem_get m j)
mem_get-mem_put m k j v = unfold mem_get mem_put in lookup-insert k j v m

pub mem_get-mem_delete :
    (m : MemDb) (k j : Bytes)
    → mem_get (mem_delete m k).0 j
      ≡ (if (mem_delete m k).1 then (if bytes_eq k j then none else mem_get m j) else mem_get m j)
mem_get-mem_delete m k j = unfold mem_get mem_delete in lookup-remove k j m

-- `MemDB` keeps the contract of a `KVStore`.
abbrev pub mem_kv : KvStore
mem_kv = record {
  Store = MemDb;
  get = mem_get;
  put = mem_put;
  delete = mem_delete;
  has = mem_has;
  get-put = mem_get-mem_put;
  get-delete = mem_get-mem_delete;
}

-- `Has` tells whether `Get` succeeds, after any write.
pub mem_has-mem_put :
    (m : MemDb) (k j v : Bytes)
    → mem_has (mem_put m k v).0 j ≡ (if bytes_eq k j then true else mem_has m j)
mem_has-mem_put m k j v = unfold mem_has mem_put in grind (arith, lookup-insert k j v m)
