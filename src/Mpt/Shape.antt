-- ===== src/Mpt/Shape.antt =====
-- Well-formed tries, key comparison, and writes to the children of a branch.
use simple_standalone_versio.Base.{
  ℕ, zero, suc, ◌<◌, ◌≡◌, refl, ap, true, some, [], ◌∷◌, ◌++◌, ◌==◌, if◌then◌else◌, length, Bytes,
  All, arith, ==_refl, length-append, take-length-append, drop-length-append,
}
use simple_standalone_versio.Mpt.{
  Node, Children, nil, branch, extension, leaf, end, child, equal_bytes, equal, leaf_value,
  set_child, value_at, has_prefix, get, get_child, lead_to,
}

-- every byte is a nibble
abbrev pub IsNibbles : Bytes → Type 0
IsNibbles key = All (λ x. x < 16) key

abbrev pub count : Children → ℕ
count end = 0
count (child n cs) = suc (count cs)

-- branches have 17 children, and paths are nibbles
abbrev mutual
  pub IsTrie : Node → Type 0
  IsTrie nil = Unit
  IsTrie (branch cs) = (count cs ≡ 17) × AreTries cs
  IsTrie (extension shared next) = IsNibbles shared × IsTrie next
  IsTrie (leaf key value) = IsNibbles key

  pub AreTries : Children → Type 0
  AreTries end = Unit
  AreTries (child n cs) = IsTrie n × AreTries cs

equal_bytes_refl : (a : Bytes) → equal_bytes a a ≡ true
unfolding equal_bytes
equal_bytes_refl [] = refl
equal_bytes_refl (x ∷ a) = rw (==_refl x) (equal_bytes_refl a)

pub equal_refl : (a : Bytes) → equal a a ≡ true
unfolding equal
equal_refl a = rw (==_refl (length a)) (equal_bytes_refl a)

pub get-leaf : (key value : Bytes) → get (leaf key value) key ≡ some value
unfolding get
get-leaf key value = rw (equal_refl key) refl

pub has_prefix-append : (shared rest : Bytes) → has_prefix (shared ++ rest) shared ≡ true
unfolding has_prefix
has_prefix-append shared rest =
    rw (take-length-append shared rest, equal_refl shared)
      (ground (arith, length-append shared rest))

-- an extension leads the keys that begin with its path
pub get-extension :
    (shared rest : Bytes) (next : Node)
    → get (extension shared next) (shared ++ rest) ≡ get next rest
unfolding get
get-extension shared rest next =
    rw (has_prefix-append shared rest, drop-length-append shared rest) refl

pub get-lead_to :
    (shared rest : Bytes) (node : Node) → get (lead_to shared node) (shared ++ rest) ≡ get node rest
unfolding lead_to
get-lead_to [] rest node = refl
get-lead_to (x ∷ shared) rest node = get-extension (x ∷ shared) rest node

pub IsTrie-lead_to :
    (shared : Bytes) (node : Node) → IsNibbles shared → IsTrie node → IsTrie (lead_to shared node)
unfolding lead_to
IsTrie-lead_to [] node h t = t
IsTrie-lead_to (x ∷ shared) node h t = (h, t)

-- what a write to one child leaves
pub record Written (cs cs' : Children) (i : ℕ) (node : Node) : Type 0 where
  pub count_is : count cs' ≡ count cs
  pub tries : AreTries cs'
  pub get_is :
      (j : ℕ) (key : Bytes)
      → get_child cs' j key ≡ (if j == i then get node key else get_child cs j key)
  pub value_is : (j : ℕ) → value_at cs' j ≡ (if j == i then leaf_value node else value_at cs j)

at_zero :
    (m node : Node) (cs : Children) (j : ℕ) (key : Bytes)
    → get_child (child node cs) j key
      ≡ (if j == 0 then get node key else get_child (child m cs) j key)
unfolding get
at_zero m node cs zero key = refl
at_zero m node cs (suc j) key = ground arith

value_zero :
    (m node : Node) (cs : Children) (j : ℕ)
    → value_at (child node cs) j ≡ (if j == 0 then leaf_value node else value_at (child m cs) j)
unfolding value_at
value_zero m node cs zero = refl
value_zero m node cs (suc j) = ground arith

at_suc :
    (m node : Node) (cs cs' : Children) (i : ℕ)
    → Written cs cs' i node
    → (j : ℕ) (key : Bytes)
    → get_child (child m cs') j key
      ≡ (if j == suc i then get node key else get_child (child m cs) j key)
unfolding get
at_suc m node cs cs' i w zero key = ground arith
at_suc m node cs cs' i w (suc j) key = ground (arith, w.get_is j key)

value_suc :
    (m node : Node) (cs cs' : Children) (i : ℕ)
    → Written cs cs' i node
    → (j : ℕ)
    → value_at (child m cs') j ≡ (if j == suc i then leaf_value node else value_at (child m cs) j)
unfolding value_at
value_suc m node cs cs' i w zero = ground arith
value_suc m node cs cs' i w (suc j) = ground (arith, w.value_is j)

-- A write in range does not panic.
pub set_child_lem :
    (cs : Children) (i : ℕ) (node : Node)
    → i < count cs
    → AreTries cs
    → IsTrie node
    → (cs' : Children) × (set_child cs i node ≡ some cs') × Written cs cs' i node
unfolding set_child
set_child_lem end i node h t n = absurd (omega arith)
set_child_lem (child m cs) zero node h t n = (
  child node cs,
  refl,
  record {
    count_is = refl;
    tries = (n, t.1);
    get_is = λ j key. at_zero m node cs j key;
    value_is = λ j. value_zero m node cs j;
  },
)
set_child_lem (child m cs) (suc i) node h t n =
    let (cs', e, w) = set_child_lem cs i node (omega arith) t.1 n in
    (
      child m cs',
      rw e refl,
      record {
        count_is = ap suc w.count_is;
        tries = (t.0, w.tries);
        get_is = λ j key. at_suc m node cs cs' i w j key;
        value_is = λ j. value_suc m node cs cs' i w j;
      },
    )
