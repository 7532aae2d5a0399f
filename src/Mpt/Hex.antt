-- ===== src/Mpt/Hex.antt =====
-- The key as nibbles (`keyToHex`), and the flagged key of mpt/encoding.go (`hexPrefix`).
use simple_standalone_versio.Base.{
  ◌+◌, ◌*◌, ◌/◌, ◌%◌, ◌<◌, ◌≡◌, refl, ap₂, Bool, true, false, Option, none, some, [], ◌∷◌, ◌==◌,
  if◌then◌else◌, length, Bytes, All, arith,
}
use simple_standalone_versio.Mpt.{key_to_hex}
use simple_standalone_versio.Mpt.Shape.{IsNibbles}

abbrev pub AreBytes : Bytes → Type 0
AreBytes key = All (λ b. b < 256) key

-- the bytes that a list of nibbles stands for
unfoldable pub hex_to_key : Bytes → Bytes
hex_to_key [] = []
hex_to_key (h ∷ []) = []
hex_to_key (h ∷ l ∷ hex) = (h * 16 + l) ∷ hex_to_key hex

pub IsNibbles-key_to_hex : (key : Bytes) → AreBytes key → IsNibbles (key_to_hex key)
unfolding key_to_hex
IsNibbles-key_to_hex [] h = tt
IsNibbles-key_to_hex (b ∷ key) h = (omega arith, (omega arith, IsNibbles-key_to_hex key h.1))

-- The nibbles determine the key.
pub hex_to_key-key_to_hex : (key : Bytes) → AreBytes key → hex_to_key (key_to_hex key) ≡ key
unfolding hex_to_key key_to_hex
hex_to_key-key_to_hex [] h = refl
hex_to_key-key_to_hex (b ∷ key) h = ap₂ ◌∷◌ (omega arith) (hex_to_key-key_to_hex key h.1)

-- `hexPrefix`: 0x20 marks a leaf, 0x10 an odd length
unfoldable pub hex_prefix : Bytes → Bool → Bytes
hex_prefix key is_leaf =
    ((if is_leaf then 32 else 0) + (if length key % 2 == 1 then 16 else 0)) ∷ key

-- the reading of the flags
unfoldable pub read_prefix : Bytes → Option (Bytes × Bool × Bool)
read_prefix [] = none
read_prefix (flags ∷ key) = some (key, (flags / 32) % 2 == 1, (flags / 16) % 2 == 1)

-- The key, the kind of the node and the parity of the length can be read back.
pub read_prefix-hex_prefix :
    (key : Bytes) (is_leaf : Bool)
    → read_prefix (hex_prefix key is_leaf) ≡ some (key, is_leaf, length key % 2 == 1)
unfolding read_prefix hex_prefix
read_prefix-hex_prefix key true = ground arith
read_prefix-hex_prefix key false = ground arith
