-- ===== src/Mpt/Trie.antt =====
-- `Trie` itself: `Get`, `Insert` and `RootHash` over byte keys, with the node store of
-- mpt/database.go. JSON and SHA-256 are parameters.
use simple_standalone_versio.Base.{
  ◌≡◌, ◌⊎◌, refl, Bool, true, false, Option, none, some, [], if◌then◌else◌, ◌>>=◌, Bytes,
  bytes_eq_refl, Option-cases, inl, inr, ap,
}
use mathlib.Core.Option.{some-injective}
use simple_standalone_versio.KvStore.{KvStore}
use simple_standalone_versio.Mpt.{Node, nil, key_to_hex, get, insert, delete}
use simple_standalone_versio.Mpt.Shape.{IsTrie}
use simple_standalone_versio.Mpt.Insert.{drops_nibble, insert-Inserted}
use simple_standalone_versio.Mpt.Delete.{delete-DeletedFrom}
use simple_standalone_versio.Mpt.Hex.{AreBytes, IsNibbles-key_to_hex}

-- `json.Marshal` of a node, and SHA-256
pub record Codec : Type 0 where
  pub serial : Node → Option Bytes
  pub hash : Bytes → Bytes

module _ (kv : KvStore) (codec : Codec) where
  pub record Trie : Type 0 where
    pub root : Node
    pub db : kv.Store

  -- `NewTrie`
  unfoldable pub new_trie : kv.Store → Trie
  new_trie s = record { root = nil; db = s }

  -- `hashSerialized`: an error of the serialization is ignored, and leaves no bytes
  unfoldable pub node_hash : Node → Bytes
  node_hash n = elim (codec.serial n) [ none ↦ codec.hash [] | some d ↦ codec.hash d ]

  -- `TrieDB.StoreNode`, and whether it returns no error
  unfoldable pub store_node : kv.Store → Node → kv.Store × Bool
  store_node s n = elim (codec.serial n) [ none ↦ (s, false) | some d ↦ kv.put s (node_hash n) d ]

  -- a node that was stored can be read back under its hash
  store_node_ok :
      (s : kv.Store) (n : Node)
      → (store_node s n).1 ≡ true
      → (d : Bytes) × (codec.serial n ≡ some d) × (kv.get (store_node s n).0 (node_hash n) ≡ some d)
  unfolding store_node
  store_node_ok s n ok = elim (Option-cases (codec.serial n)) [
    | inl e ↦ absurd (let c : false ≡ true = rw (e, store_node) at ok in cc c)
    | inr (d, e) ↦
        let ok' : (kv.put s (node_hash n) d).1 ≡ true = rw (e, store_node) at ok in
        (
          d,
          e,
          rw (e, store_node)
              (rw (kv.get-put s (node_hash n) (node_hash n) d, ok', bytes_eq_refl) refl),
        )
  ]

  -- `Trie.Get`
  unfoldable pub trie_get : Trie → Bytes → Option Bytes
  trie_get t key = get t.root (key_to_hex key)

  -- `Trie.Insert`: the trie and whether it returns no error; `none` is a panic
  unfoldable pub trie_insert : Trie → Bytes → Bytes → Option (Trie × Bool)
  trie_insert t key value = do
    root' ← insert t.root (key_to_hex key) value
    some (record { root = root'; db = (store_node t.db root').0 }, (store_node t.db root').1)

  -- `Trie.Delete`: the trie and whether it returns no error; `none` is a panic
  unfoldable pub trie_delete : Trie → Bytes → Option (Trie × Bool)
  trie_delete t key = do
    (root', deleted) ← delete t.root (key_to_hex key)
    some (record t { root = root' }, deleted)

  -- `Trie.RootHash`; the hash of an empty trie is nil
  unfoldable pub root_hash : Trie → Option Bytes
  root_hash t = elim t.root [ nil ↦ none | _ ↦ some (node_hash t.root) ]

  -- `Insert` of a byte key never panics on a well-formed trie, leaves one, and `Get` then returns the
  -- value, unless the insertion ended in a split that left one nibble of the key: then `Get` does not
  -- find the key.
  pub trie_get-trie_insert :
      (t : Trie) (key value : Bytes)
      → IsTrie t.root
      → AreBytes key
      → (t' : Trie) × (ok : Bool) × (trie_insert t key value ≡ some (t', ok))
        × IsTrie t'.root
        × (trie_get t' key ≡ (if drops_nibble t.root (key_to_hex key) then none else some value))
  unfolding trie_insert trie_get
  trie_get-trie_insert t key value h b =
      let (n, e, w, g) =
        insert-Inserted t.root (key_to_hex key) value h (IsNibbles-key_to_hex key b) in
      (record { root = n; db = (store_node t.db n).0 }, (store_node t.db n).1, rw e refl, w, g)

  -- After an `Insert` that returns no error the store holds the serialized root under the root's hash.
  pub stored_root :
      (t t' : Trie) (key value : Bytes)
      → trie_insert t key value ≡ some (t', true)
      → (d : Bytes) × (codec.serial t'.root ≡ some d) × (kv.get t'.db (node_hash t'.root) ≡ some d)
  unfolding trie_insert
  stored_root t t' key value e = elim (Option-cases (insert t.root (key_to_hex key) value)) [
    | inl q ↦ absurd (let c : none ≡ some (t', true) = rw q at e in cc c)
    | inr (n, q) ↦
        let p : ◌≡◌ {A = Trie × Bool}
            (record { root = n; db = (store_node t.db n).0 }, (store_node t.db n).1) (t', true) =
          some-injective _ _ (rw q at e) in
        let same = ap (λ x. x.0) p in rw (← same) (store_node_ok t.db n (ap (λ x. x.1) p))
  ]

  -- `Delete` of a byte key never panics on a well-formed trie, and leaves one. If it returns the error that
  -- there is no such key, the trie is as it was, and `Get` does not find the key either.
  pub trie_get-trie_delete :
      (t : Trie) (key : Bytes)
      → IsTrie t.root
      → AreBytes key
      → (t' : Trie) × (ok : Bool) × (trie_delete t key ≡ some (t', ok))
        × IsTrie t'.root
        × ((ok ≡ true) ⊎ ((ok ≡ false) × (t' ≡ t) × (trie_get t key ≡ none)))
  unfolding trie_delete trie_get
  trie_get-trie_delete t key h b =
      let (n, deleted, e, w, r) =
        delete-DeletedFrom t.root (key_to_hex key) h (IsNibbles-key_to_hex key b) in
      (
        record t { root = n },
        deleted,
        rw e refl,
        w,
        elim r [
          | inl d ↦ inl d
          | inr (d, same, g) ↦ inr (d, ap (λ m. record t { root = m }) same, g)
        ],
      )
