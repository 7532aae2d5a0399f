-- ===== src/Mpt.antt =====
-- The Merkle Patricia trie (mpt/node.go, mpt/trie.go): nodes, lookup, insertion and deletion. A byte
-- slice is its list of bytes: slices that share memory are not modelled.
pub mod Shape
pub mod Split
pub mod Insert
pub mod Delete
pub mod Hex
pub mod Lost
pub mod Trie
use simple_standalone_versio.Base.{
  ℕ, zero, suc, ◌+◌, ◌/◌, ◌%◌, Bool, true, false, Option, none, some, List, [], ◌∷◌, ◌++◌, ◌==◌,
  ltb, leb, ◌&&◌, if◌then◌else◌, ◌>>=◌, length, take, drop, Bytes,
}

-- `nil` is the nil interface value; a branch has 17 children.
mutual
  pub data Node : Type 0 where
    nil : Node
    branch : Children → Node
    extension : Bytes → Node → Node
    leaf : Bytes → Bytes → Node

  pub data Children : Type 0 where
    end : Children
    child : Node → Children → Children

-- `keyToHex`: `b >> 4` and `b & 0x0F` of each byte
unfoldable pub key_to_hex : Bytes → Bytes
key_to_hex [] = []
key_to_hex (b ∷ key) = (b / 16) ∷ (b % 16) ∷ key_to_hex key

-- the loop of `equal`
unfoldable pub equal_bytes : Bytes → Bytes → Bool
equal_bytes (x ∷ a) (y ∷ b) = if x == y then equal_bytes a b else false
equal_bytes a b = true

unfoldable pub equal : Bytes → Bytes → Bool
equal a b = if length a == length b then equal_bytes a b else false

-- the loop that both splits begin with
unfoldable pub shared_prefix : Bytes → Bytes → ℕ
shared_prefix (x ∷ a) (y ∷ b) = let n = shared_prefix a b in if x == y then suc n else 0
shared_prefix a b = 0

-- an assertion to `*LeafNode`, and the value
unfoldable pub leaf_value : Node → Option Bytes
leaf_value (leaf key value) = some value
leaf_value nil = none
leaf_value (branch cs) = none
leaf_value (extension shared next) = none

-- `branch.Children[i] = node`; `none` is the panic of an index out of range
unfoldable pub set_child : Children → ℕ → Node → Option Children
set_child end i node = none
set_child (child n cs) zero node = some (child node cs)
set_child (child n cs) (suc i) node = do cs' ← set_child cs i node; some (child n cs')

unfoldable pub value_at : Children → ℕ → Option Bytes
value_at end i = none
value_at (child n cs) zero = leaf_value n
value_at (child n cs) (suc i) = value_at cs i

-- the test of `Get` and `delete` at an extension
unfoldable pub has_prefix : Bytes → Bytes → Bool
has_prefix key shared = leb (length shared) (length key) && equal (take (length shared) key) shared

-- The loop of `Get`. Its one error, "key not found", is `none`.
unfoldable mutual
  pub get : Node → Bytes → Option Bytes
  get nil key = none
  get (branch cs) [] = value_at cs 16
  get (branch cs) (idx ∷ key) = get_child cs idx key
  get (extension shared next) key =
      let rest = get next (drop (length shared) key) in if has_prefix key shared then rest else none
  get (leaf k v) key = if equal key k then some v else none

  pub get_child : Children → ℕ → Bytes → Option Bytes
  get_child end i key = none
  get_child (child n cs) zero key = get n key
  get_child (child n cs) (suc i) key = get_child cs i key

abbrev pub nils : ℕ → Children
nils zero = end
nils (suc n) = child nil (nils n)

-- `&BranchNode{}`
abbrev pub empty_children : Children
empty_children = nils 17

-- what is left of the key behind the shared prefix goes into the new branch
unfoldable pub place_rest : Children → Bytes → Bytes → Option Children
place_rest cs [] value = set_child cs 16 (leaf [] value)
place_rest cs (i ∷ []) value = set_child cs 16 (leaf [] value)
place_rest cs (i ∷ j ∷ rest) value = set_child cs i (leaf (j ∷ rest) value)

-- the old leaf goes into the new branch, whole where its key is used up
unfoldable pub place_leaf : Children → Bytes → Bytes → Bytes → Option Children
place_leaf cs [] k value = set_child cs 16 (leaf k value)
place_leaf cs (i ∷ []) k value = set_child cs 16 (leaf [] value)
place_leaf cs (i ∷ j ∷ rest) k value = set_child cs i (leaf (j ∷ rest) value)

-- the rest of an extension goes into the new branch; here its path is not used up
unfoldable pub place_extension : Children → Bytes → Node → Option Children
place_extension cs [] next = none
place_extension cs (i ∷ []) next = set_child cs i next
place_extension cs (i ∷ j ∷ rest) next = set_child cs i (extension (j ∷ rest) next)

-- `if sharedPrefix > 0`: an extension leads to the new branch
unfoldable pub lead_to : Bytes → Node → Node
lead_to [] node = node
lead_to (x ∷ shared) node = extension (x ∷ shared) node

unfoldable pub split_leaf : ℕ → Bytes → Bytes → Bytes → Bytes → Option Node
split_leaf p k v key value = do
  old ← place_leaf empty_children (drop p k) k v
  cs ← place_rest old (drop p key) value
  some (lead_to (take p key) (branch cs))

unfoldable pub split_extension : ℕ → Bytes → Node → Bytes → Bytes → Option Node
split_extension p shared next key value = do
  old ← place_extension empty_children (drop p shared) next
  cs ← place_rest old (drop p key) value
  some (lead_to (take p shared) (branch cs))

-- `insert`; `none` is a panic
unfoldable mutual
  pub insert : Node → Bytes → Bytes → Option Node
  insert nil key value = some (leaf key value)
  insert (branch cs) [] value = do cs' ← set_child cs 16 (leaf [] value); some (branch cs')
  insert (branch cs) (idx ∷ key) value = do cs' ← insert_child cs idx key value; some (branch cs')
  insert (extension shared next) key value =
      let p : ℕ = shared_prefix key shared in
      let below = insert next (drop p key) value in
      if p == length shared
      then (do next' ← below; some (extension shared next'))
      else split_extension p shared next key value
  insert (leaf k v) key value =
      let p : ℕ = shared_prefix key k in
      if p == length key && p == length k then some (leaf k value) else split_leaf p k v key value

  pub insert_child : Children → ℕ → Bytes → Bytes → Option Children
  insert_child end i key value = none
  insert_child (child n cs) zero key value = do n' ← insert n key value; some (child n' cs)
  insert_child (child n cs) (suc i) key value = do
    cs' ← insert_child cs i key value
    some (child n cs')

abbrev pub is_nil : Node → Bool
is_nil nil = true
is_nil (branch cs) = false
is_nil (extension shared next) = false
is_nil (leaf k v) = false

-- the loop that counts the children of a branch, and the index of the last one
unfoldable pub scan : Children → ℕ → ℕ → ℕ → ℕ × ℕ
scan end i found last = (found, last)
scan (child n cs) i found last =
    let skipped = scan cs (suc i) found last in
    let counted = scan cs (suc i) (suc found) i in if is_nil n then skipped else counted

-- `n.Children[i]`, in range
unfoldable pub child_at : Children → ℕ → Node
child_at end i = nil
child_at (child n cs) zero = n
child_at (child n cs) (suc i) = child_at cs i

-- the only child that a branch has left, as the node in its place
unfoldable pub only_child : ℕ → Node → Node
only_child last (leaf k v) = if last == 16 then leaf [] v else leaf (last ∷ k) v
only_child last (extension shared next) =
    if last == 16 then extension shared next else extension (last ∷ shared) next
only_child last (branch cs) = if last == 16 then branch cs else extension (last ∷ []) (branch cs)
only_child last nil = if last == 16 then nil else extension (last ∷ []) nil

unfoldable pub collapse : Children → Node
collapse cs =
    let (found, last) = scan cs 0 0 0 in
    if found == 0
    then nil
    else (if found == 1 then only_child last (child_at cs last) else branch cs)

-- an extension over what is left below it
unfoldable pub merge_next : Bytes → Node → Node
merge_next shared nil = nil
merge_next shared (extension s next) = extension (shared ++ s) next
merge_next shared (leaf k v) = extension (shared ++ k) (leaf k v)
merge_next shared (branch cs) = extension shared (branch cs)

-- what `delete` makes of a branch and an extension whose child was looked at
abbrev pub collapse_if : Bool → Children → Node
collapse_if deleted cs = if deleted then collapse cs else branch cs

abbrev pub merge_if : Bool → Bytes → Node → Node
merge_if deleted shared next = if deleted then merge_next shared next else extension shared next

-- `delete`: the node and whether the key was deleted; `none` is a panic. It returns no error. A child that
-- is looked at in vain comes back as it was.
unfoldable mutual
  pub delete : Node → Bytes → Option (Node × Bool)
  delete nil key = some (nil, false)
  delete (leaf k v) key = if equal k key then some (nil, true) else some (leaf k v, false)
  delete (extension shared next) key =
      let below = delete next (drop (length shared) key) in
      if has_prefix key shared
      then (do (next', deleted) ← below; some (merge_if deleted shared next', deleted))
      else some (extension shared next, false)
  delete (branch cs) [] = do cs' ← set_child cs 16 nil; some (collapse cs', true)
  delete (branch cs) (idx ∷ key) = do
    (cs', deleted) ← delete_child cs idx key
    some (collapse_if deleted cs', deleted)

  pub delete_child : Children → ℕ → Bytes → Option (Children × Bool)
  delete_child end i key = none
  delete_child (child n cs) zero key = do (n', deleted) ← delete n key; some (child n' cs, deleted)
  delete_child (child n cs) (suc i) key = do
    (cs', deleted) ← delete_child cs i key
    some (child n cs', deleted)
