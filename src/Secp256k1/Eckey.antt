-- ===== src/Secp256k1/Eckey.antt =====
-- Public keys as bytes, and keys that are tweaked
-- (crypto/secp256k1/libsecp256k1/src/eckey_impl.h). `ecmult` is a function that the operations take.
pub mod RoundTrip
use simple_standalone_versio.Base.{
  ℕ, Bool, true, false, not, ◌&&◌, ◌||◌, ◌==◌, same_bool, if◌then◌else◌, List, [], ◌∷◌, ◌++◌,
  length, drop,
}
use simple_standalone_versio.Secp256k1.Scalar.{Scalar, is_zero, add}
use simple_standalone_versio.Secp256k1.Scalar.Mul.{mul}
use simple_standalone_versio.Secp256k1.Field.{Fe, normalize_var, is_odd}
use simple_standalone_versio.Secp256k1.Field.Bytes.{byte_at, set_b32, get_b32}
use simple_standalone_versio.Secp256k1.Group.{
  Ge, Gej, ge_set_xy, ge_set_xo_var, ge_is_valid_var, gej_set_ge, ge_set_gej,
}

-- The key, which is `elem` as it was where nothing is stored, and whether the bytes are one.
unfoldable pub eckey_pubkey_parse : Ge → List ℕ → Ge × Bool
eckey_pubkey_parse elem pub_ =
    let size = length pub_ in
    let tag = byte_at pub_ 0 in
    let (x, x_ok) = set_b32 (drop 1 pub_) in
    let (y, y_ok) = set_b32 (drop 33 pub_) in
    if size == 33 && (tag == 2 || tag == 3)
    then (if x_ok then ge_set_xo_var x (tag == 3) else (elem, false))
    else (if size == 65 && (tag == 4 || tag == 6 || tag == 7)
        then (if not x_ok || not y_ok
            then (elem, false)
            else (if (tag == 6 || tag == 7) && not (same_bool (is_odd y) (tag == 7))
                then (ge_set_xy x y, false)
                else (ge_set_xy x y, ge_is_valid_var (ge_set_xy x y))))
        else (elem, false))

-- The key, whose coordinates are normalized, its bytes, and whether it has any.
unfoldable pub eckey_pubkey_serialize : Ge → Bool → Ge × List ℕ × Bool
eckey_pubkey_serialize elem compressed =
    let x = normalize_var elem.x in
    let y = normalize_var elem.y in
    if elem.infinity
    then (elem, [], false)
    else (if compressed
        then (record elem { x = x; y = y }, (if is_odd y then 3 else 2) ∷ get_b32 x, true)
        else (record elem { x = x; y = y }, 4 ∷ get_b32 x ++ get_b32 y, true))

unfoldable pub eckey_privkey_tweak_add : Scalar → Scalar → Scalar × Bool
eckey_privkey_tweak_add key tweak = let sum = (add key tweak).0 in (sum, not (is_zero sum))

unfoldable pub eckey_privkey_tweak_mul : Scalar → Scalar → Scalar × Bool
eckey_privkey_tweak_mul key tweak = if is_zero tweak then (key, false) else (mul key tweak, true)

unfoldable pub eckey_pubkey_tweak_add : (Gej → Scalar → Scalar → Gej) → Ge → Scalar → Ge × Bool
eckey_pubkey_tweak_add ecmult key tweak =
    let pt = ecmult (gej_set_ge key) (record { d0 = 1; d1 = 0; d2 = 0; d3 = 0 }) tweak in
    if pt.infinity then (key, false) else ((ge_set_gej pt).0, true)

unfoldable pub eckey_pubkey_tweak_mul : (Gej → Scalar → Scalar → Gej) → Ge → Scalar → Ge × Bool
eckey_pubkey_tweak_mul ecmult key tweak =
    let pt = ecmult (gej_set_ge key) tweak (record { d0 = 0; d1 = 0; d2 = 0; d3 = 0 }) in
    if is_zero tweak then (key, false) else ((ge_set_gej pt).0, true)
