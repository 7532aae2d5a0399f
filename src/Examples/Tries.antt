-- ===== src/Examples/Tries.antt =====
-- The trie.
use simple_standalone_versio.Base.{
  ◌≡◌, ◌⊎◌, false, ◌++◌, ◌>>=◌, refl, Bool, true, Option, some, none, [], ◌∷◌, arith, bytes_eq,
  lookup, insert, if◌then◌else◌, Bytes,
}
use simple_standalone_versio.KvStore.{mem_kv, mem_get, mem_put}
use simple_standalone_versio.Mpt.{
  Node, nil, branch, extension, leaf, child, nils, delete, collapse, scan, child_at, only_child,
  key_to_hex, set_child, place_rest, place_leaf, lead_to, split_leaf, shared_prefix, get, value_at,
  leaf_value, has_prefix, equal, equal_bytes,
}
use simple_standalone_versio.Mpt
use simple_standalone_versio.Mpt.Lost.{last_nibble_lost}
use simple_standalone_versio.Mpt.Insert.{drops_nibble}
use simple_standalone_versio.Mpt.Delete.{delete_loses_leaf}
use simple_standalone_versio.Mpt.Shape.{IsTrie}
use simple_standalone_versio.Mpt.Trie.{
  Codec, Trie, trie_get, trie_insert, node_hash, store_node, trie_get-trie_insert, trie_delete,
  trie_get-trie_delete, stored_root,
}

-- a toy serialization: the constructor
abbrev toy_serial : Node → Option Bytes
toy_serial nil = some (0 ∷ [])
toy_serial (branch cs) = some (1 ∷ [])
toy_serial (extension shared next) = some (2 ∷ shared)
toy_serial (leaf key value) = some (3 ∷ key ++ value)

abbrev codec : Codec
codec = record { serial = toy_serial; hash = λ b. b }

-- "key1" and "key2" of mpt_test.go
abbrev key1 : Bytes
key1 = 107 ∷ 101 ∷ 121 ∷ 49 ∷ []

abbrev key2 : Bytes
key2 = 107 ∷ 101 ∷ 121 ∷ 50 ∷ []

abbrev one : Trie mem_kv codec
one = record { root = leaf (6 ∷ 11 ∷ 6 ∷ 5 ∷ 7 ∷ 9 ∷ 3 ∷ 1 ∷ []) (1 ∷ []); db = [] }

program : Unit {0}
unfolding trie_get trie_insert store_node node_hash Mpt.insert split_leaf shared_prefix place_leaf
    place_rest set_child lead_to key_to_hex get value_at leaf_value has_prefix equal equal_bytes
    mem_get mem_put lookup insert bytes_eq
program = tt

trie_get-trie_insert_example :
    (t' : Trie mem_kv codec) × (ok : Bool) × (trie_insert mem_kv codec one (108 ∷ 1 ∷ []) (9 ∷ [])
      ≡ some (t', ok))
    × IsTrie t'.root
    × (trie_get mem_kv codec t' (108 ∷ 1 ∷ [])
        ≡ (if drops_nibble one.root (key_to_hex (108 ∷ 1 ∷ [])) then none else some (9 ∷ [])))
trie_get-trie_insert_example =
    trie_get-trie_insert mem_kv codec one (108 ∷ 1 ∷ []) (9 ∷ []) (omega arith) (omega arith)

-- the second key of the test is lost
key2_lost :
    (trie_insert mem_kv codec one key2 (2 ∷ []) >>= λ r. trie_get mem_kv codec r.0 key2) ≡ none
unfolding program
key2_lost = refl

last_nibble_lost_example :
    (n : Node) × ((Mpt.insert nil (6 ∷ 1 ∷ []) (1 ∷ []) >>= λ t. Mpt.insert t (6 ∷ 2 ∷ []) (2 ∷ []))
      ≡ some n)
    × (get n (6 ∷ 1 ∷ []) ≡ none)
    × (get n (6 ∷ 2 ∷ []) ≡ none)
last_nibble_lost_example =
    last_nibble_lost (6 ∷ []) (1 ∷ []) (2 ∷ []) 1 2 (omega arith) (omega arith) (omega arith)

abbrev two : Trie mem_kv codec
two = record {
  root = leaf (6 ∷ 1 ∷ []) (1 ∷ []);
  db = ((3 ∷ 6 ∷ 1 ∷ 1 ∷ []), (3 ∷ 6 ∷ 1 ∷ 1 ∷ [])) ∷ [];
}

inserted :
    trie_insert mem_kv codec (record two { root = nil; db = [] }) (97 ∷ []) (1 ∷ [])
    ≡ some (two, true)
unfolding program
inserted = refl

stored_root_example :
    (d : Bytes) × (toy_serial two.root ≡ some d)
    × (mem_get two.db (node_hash mem_kv codec two.root) ≡ some d)
stored_root_example =
    stored_root mem_kv codec (record two { root = nil; db = [] }) two (97 ∷ []) (1 ∷ []) inserted

-- the keys 0x6155 and 0x6277
abbrev forked : Node
forked =
    branch (
      child nil (child (leaf (5 ∷ 5 ∷ []) (1 ∷ [])) (child (leaf (7 ∷ 7 ∷ []) (2 ∷ [])) (nils 14))))

abbrev forked_trie : Trie mem_kv codec
forked_trie = record { root = extension (6 ∷ []) forked; db = [] }

trie_get-trie_delete_example :
    (t' : Trie mem_kv codec) × (ok : Bool) × (trie_delete mem_kv codec forked_trie (98 ∷ 119 ∷ [])
      ≡ some (t', ok))
    × IsTrie t'.root
    × ((ok ≡ true)
        ⊎ ((ok ≡ false)
            × (t' ≡ forked_trie)
            × (trie_get mem_kv codec forked_trie (98 ∷ 119 ∷ []) ≡ none)))
trie_get-trie_delete_example =
    trie_get-trie_delete mem_kv codec forked_trie (98 ∷ 119 ∷ []) (omega arith) (omega arith)

one_left_over : delete forked (2 ∷ 7 ∷ 7 ∷ []) ≡ some (leaf (1 ∷ 5 ∷ 5 ∷ []) (1 ∷ []), true)
unfolding delete collapse scan child_at only_child equal equal_bytes
one_left_over = refl

-- Deleting 0x6277 loses 0x6155.
delete_loses_leaf_example :
    (delete (extension (6 ∷ []) forked) (6 ∷ 2 ∷ 7 ∷ 7 ∷ [])
      ≡ some (extension (6 ∷ 1 ∷ 5 ∷ 5 ∷ []) (leaf (1 ∷ 5 ∷ 5 ∷ []) (1 ∷ [])), true))
    × (get (extension (6 ∷ 1 ∷ 5 ∷ 5 ∷ []) (leaf (1 ∷ 5 ∷ 5 ∷ []) (1 ∷ []))) (6 ∷ 1 ∷ 5 ∷ 5 ∷ [])
        ≡ none)
    × (get (extension (6 ∷ []) forked) (6 ∷ 1 ∷ 5 ∷ 5 ∷ []) ≡ get forked (1 ∷ 5 ∷ 5 ∷ []))
delete_loses_leaf_example =
    delete_loses_leaf (6 ∷ []) (2 ∷ 7 ∷ 7 ∷ []) (1 ∷ 5 ∷ 5 ∷ []) (1 ∷ []) forked (λ e. cc e)
      one_left_over

-- It was there before.
there_before : get (extension (6 ∷ []) forked) (6 ∷ 1 ∷ 5 ∷ 5 ∷ []) ≡ some (1 ∷ [])
unfolding get has_prefix equal equal_bytes
there_before = refl
