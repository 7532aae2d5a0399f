-- ===== src/Secp256k1/Eckey/RoundTrip.antt =====
-- An uncompressed public key that is written and read back.
use simple_standalone_versio.Base.{
  ℕ, ◌+◌, ◌*◌, ◌%◌, ◌≡◌, refl, ap, ap₂, ◌∙◌, Bool, true, false, not, ◌||◌, if◌then◌else◌, ◌∷◌, ◌++◌,
  List, length, ==_iff, arith,
}
use simple_standalone_versio.Secp256k1.Field.{Fe, normalize, normalize_var, is_odd}
use simple_standalone_versio.Secp256k1.Field.Bytes.{set_b32, get_b32, set_b32-get_b32_fe}
use simple_standalone_versio.Secp256k1.Field.Value.{value, prime, IsNormalized}
use simple_standalone_versio.Secp256k1.Field.Normalize.{value-normalize, normalize_var-normalize}
use simple_standalone_versio.Secp256k1.Field.Inverse.{weaker}
use simple_standalone_versio.Secp256k1.Group.{Ge, ge_set_xy, ge_set_xo_var, ge_is_valid_var}
use simple_standalone_versio.Secp256k1.Group.Residue.{◌≈◌}
use simple_standalone_versio.Secp256k1.Group.Curve.{AreOnCurve, congruent-AreOnCurve}
use simple_standalone_versio.Secp256k1.Group.Valid.{
  IsGePoint, ge_is_valid_var_lem, IsGePoint-on_curve,
}
use simple_standalone_versio.Secp256k1.Eckey.{eckey_pubkey_parse, eckey_pubkey_serialize}

-- The code reads the first 32 bytes from the pointer.
first_bytes : (x : Fe) (more : List ℕ) → set_b32 (get_b32 x ++ more) ≡ set_b32 (get_b32 x)
unfolding set_b32 get_b32
first_bytes x more = refl

-- what parsing does with two coordinates
both : Ge → Fe × Bool → Fe × Bool → Ge × Bool
both elem (x, x_ok) (y, y_ok) =
    if not x_ok || not y_ok then (elem, false) else (ge_set_xy x y, ge_is_valid_var (ge_set_xy x y))

parsed_both :
    (elem : Ge) (x y : Fe)
    → eckey_pubkey_parse elem (4 ∷ get_b32 x ++ get_b32 y)
      ≡ both elem (set_b32 (get_b32 x)) (set_b32 (get_b32 y))
unfolding eckey_pubkey_parse both set_b32 get_b32
parsed_both elem x y = refl

parsed :
    (elem : Ge) (x y : Fe)
    → IsNormalized x
    → IsNormalized y
    → ge_is_valid_var (ge_set_xy x y) ≡ true
    → eckey_pubkey_parse elem (4 ∷ get_b32 x ++ get_b32 y) ≡ (ge_set_xy x y, true)
unfolding both
parsed elem x y nx ny valid =
    parsed_both elem x y
    ∙ ap₂ (both elem) (set_b32-get_b32_fe x nx) (set_b32-get_b32_fe y ny)
    ∙ ap (λ v. (ge_set_xy x y, v)) valid

bytes_lem : (x y : Fe) → length (4 ∷ get_b32 x ++ get_b32 y) ≡ 65
unfolding get_b32
bytes_lem x y = refl

curve_lem : (x y u v : ℕ) → u ≡ x % prime → v ≡ y % prime → AreOnCurve x y 1 → v * v ≈ u * u * u + 7
curve_lem x y u v e f curve =
    congruent-AreOnCurve x y 1 u v 1 (omega arith) (omega arith) refl curve
    ∙ ap (λ t. t % prime) (omega arith)

-- normalized coordinates, and that they are a point as before
coordinates_lem :
    (a : Ge)
    → IsGePoint a
    → a.infinity ≡ false
    → IsNormalized (normalize_var a.x)
      × IsNormalized (normalize_var a.y)
      × (value (normalize_var a.x) ≡ value a.x % prime)
      × (value (normalize_var a.y) ≡ value a.y % prime)
      × (ge_is_valid_var (ge_set_xy (normalize_var a.x) (normalize_var a.y)) ≡ true)
unfolding ge_set_xy
coordinates_lem a point finite =
    let bx = weaker 8 1024 a.x (omega arith) point.0.0 in
    let by = weaker 8 1024 a.y (omega arith) point.0.1 in
    let (ex, nx) = value-normalize a.x bx in
    let (ey, ny) = value-normalize a.y by in
    rw (normalize_var-normalize a.x bx, normalize_var-normalize a.y by)
      (
        nx,
        ny,
        ex,
        ey,
        ge_is_valid_var_lem (ge_set_xy (normalize a.x) (normalize a.y)) (omega (arith, nx))
              (omega (arith, ny)) refl
            ∙ (==_iff _ _).1 (curve_lem _ _ _ _ ex ey (IsGePoint-on_curve a point finite)),
      )

bytes_33_lem : (tag : ℕ) (x : Fe) → length (tag ∷ get_b32 x) ≡ 33
unfolding get_b32
bytes_33_lem tag x = refl

-- what parsing does with the one coordinate of the short form
one_coordinate : Ge → Fe × Bool → Bool → Ge × Bool
one_coordinate elem (x, x_ok) odd = if x_ok then ge_set_xo_var x odd else (elem, false)

parsed_short :
    (elem : Ge) (x : Fe) (odd : Bool)
    → eckey_pubkey_parse elem ((if odd then 3 else 2) ∷ get_b32 x)
      ≡ one_coordinate elem (set_b32 (get_b32 x)) odd
unfolding eckey_pubkey_parse one_coordinate set_b32 get_b32
parsed_short elem x true = refl
parsed_short elem x false = refl

parsed_x :
    (elem : Ge) (x : Fe) (odd : Bool)
    → IsNormalized x
    → eckey_pubkey_parse elem ((if odd then 3 else 2) ∷ get_b32 x) ≡ ge_set_xo_var x odd
unfolding one_coordinate
parsed_x elem x odd nx =
    parsed_short elem x odd ∙ ap (λ r. one_coordinate elem r odd) (set_b32-get_b32_fe x nx)

-- The short form of such a point has 33 bytes, from which the point is looked for by its first coordinate and
-- whether the second is odd.
pub eckey_pubkey_parse-short :
    (elem a : Ge)
    → IsGePoint a
    → a.infinity ≡ false
    → let (b, bytes, ok) = eckey_pubkey_serialize a true in
      (ok ≡ true)
      × (length bytes ≡ 33)
      × (eckey_pubkey_parse elem bytes ≡ ge_set_xo_var b.x (is_odd b.y))
unfolding eckey_pubkey_serialize
eckey_pubkey_parse-short elem a point finite =
    let (nx, ny, ex, ey, valid) = coordinates_lem a point finite in
    rw finite (
      refl,
      bytes_33_lem (if is_odd (normalize_var a.y) then 3 else 2) (normalize_var a.x),
      parsed_x elem _ _ nx,
    )

-- A finite point of the curve, on limbs of magnitude at most 8, is written as 65 bytes and read back: the key that
-- is read is the one that writing leaves, and its coordinates are the point's modulo the prime.
pub eckey_pubkey_parse-eckey_pubkey_serialize :
    (elem a : Ge)
    → IsGePoint a
    → a.infinity ≡ false
    → let (b, bytes, ok) = eckey_pubkey_serialize a false in
      (ok ≡ true)
      × (length bytes ≡ 65)
      × (eckey_pubkey_parse elem bytes ≡ (b, true))
      × (value b.x ≡ value a.x % prime)
      × (value b.y ≡ value a.y % prime)
unfolding eckey_pubkey_serialize ge_set_xy
eckey_pubkey_parse-eckey_pubkey_serialize elem a point finite =
    let (nx, ny, ex, ey, valid) = coordinates_lem a point finite in
    rw finite (refl, bytes_lem _ _, parsed elem _ _ nx ny valid, ex, ey)
