-- ===== src/Secp256k1/Ecdsa.antt =====
-- Signing and verification (crypto/secp256k1/libsecp256k1/src/ecdsa_impl.h). The multiplications of points of
-- ecmult_impl.h and ecmult_gen_impl.h are functions that the operations take.
pub mod Encoding
pub mod Verify
pub mod Sign
pub mod RoundTrip
use Prim.Native.Nat.{Ordering}
use simple_standalone_versio.Base.{
  ℕ, bit_or, bit_xor, Bool, true, false, not, ◌||◌, ◌==◌, if◌then◌else◌,
}
use simple_standalone_versio.Secp256k1.Scalar.{Scalar, is_zero, is_high, add, negate}
use simple_standalone_versio.Secp256k1.Scalar.Mul.{mul}
use simple_standalone_versio.Secp256k1.Scalar.Inverse.{inverse, inverse_var}
use simple_standalone_versio.Secp256k1.Scalar.Bytes.{set_b32, get_b32}
use simple_standalone_versio.Secp256k1.Field
use simple_standalone_versio.Secp256k1.Field.{Fe, normalize, is_odd, cmp_var}
use simple_standalone_versio.Secp256k1.Field.Bytes
use simple_standalone_versio.Secp256k1.Group.{Ge, Gej, gej_set_ge, ge_set_gej, gej_eq_x_var}

-- the order as a field element, and the prime minus the order
abbrev pub order_as_fe : Fe
order_as_fe = record {
  n0 = 0x25e8cd0364141;
  n1 = 0xe6af48a03bbfd;
  n2 = 0xffffffebaaedc;
  n3 = 0xfffffffffffff;
  n4 = 0xffffffffffff;
}

abbrev pub p_minus_order : Fe
p_minus_order = record {
  n0 = 0xda1722fc9baee;
  n1 = 0x1950b75fc4402;
  n2 = 0x1455123;
  n3 = 0x0;
  n4 = 0x0;
}

-- `cmp_var(a, b) >= 0`
abbrev pub not_less : Ordering → Bool
not_less Ordering.lt = false
not_less Ordering.eq = true
not_less Ordering.gt = true

-- The test of the point that was computed: its first coordinate is `sigr`, or `sigr` and the order.
unfoldable pub matches_point : Scalar → Gej → Bool
matches_point sigr pr =
    let xr = (Bytes.set_b32 (get_b32 sigr)).0 in
    if gej_eq_x_var xr pr
    then true
    else (if not_less (cmp_var xr p_minus_order)
        then false
        else gej_eq_x_var (Field.add xr order_as_fe) pr)

-- `ecmult` computes the sum of a multiple of a point and one of the generator.
unfoldable pub ecdsa_sig_verify :
    (Gej → Scalar → Scalar → Gej) → Scalar → Scalar → Ge → Scalar → Bool
ecdsa_sig_verify ecmult sigr sigs pubkey message =
    let sn = inverse_var sigs in
    let u1 = mul sn message in
    let u2 = mul sn sigr in
    let pr = ecmult (gej_set_ge pubkey) u2 u1 in
    if is_zero sigr || is_zero sigs
    then false
    else (if pr.infinity then false else matches_point sigr pr)

-- what signing gives: the signature, the identifier for recovery, and whether it succeeded
pub record Signed : Type 0 where
  pub sigr : Scalar
  pub sigs : Scalar
  pub recid : ℕ
  pub ok : Bool

-- the end of signing, which makes `sigs` low
unfoldable pub low_s : Scalar → Scalar → ℕ → Signed
low_s sigr sigs recid =
    if is_zero sigs
    then record { sigr = sigr; sigs = sigs; recid = recid; ok = false }
    else (if is_high sigs
        then record { sigr = sigr; sigs = negate sigs; recid = bit_xor recid 1; ok = true }
        else record { sigr = sigr; sigs = sigs; recid = recid; ok = true })

-- `ecmult_gen` computes a multiple of the generator. `recid` is always computed here, as if the caller asked
-- for it.
unfoldable pub ecdsa_sig_sign : (Scalar → Gej) → Scalar → Scalar → Scalar → Signed
ecdsa_sig_sign ecmult_gen seckey message nonce =
    let r = (ge_set_gej (ecmult_gen nonce)).0 in
    let (sigr, overflow) = set_b32 (Bytes.get_b32 (normalize r.x)) in
    let recid = bit_or (if overflow == 0 then 0 else 2) (if is_odd (normalize r.y) then 1 else 0) in
    let n = (add (mul sigr seckey) message).0 in low_s sigr (mul (inverse nonce) n) recid
