-- ===== src/Secp256k1/Scalar/Accumulator.antt =====
-- The 160-bit accumulator of the products (the macros of scalar_4x64_impl.h). `c0` and `c1` are
-- uint64, `c2` is uint32.
pub mod Laws
use simple_standalone_versio.Base.{
  ℕ, ◌+◌, ◌*◌, ◌/◌, ◌%◌, ◌^◌, ltb, leb, ◌==◌, not, ◌&&◌, u64_mod, add64,
}
use simple_standalone_versio.Secp256k1.Scalar.{to_bit}

pub record Accumulator : Type 0 where
  pub c0 : ℕ
  pub c1 : ℕ
  pub c2 : ℕ

abbrev pub cleared : Accumulator
cleared = record { c0 = 0; c1 = 0; c2 = 0 }

abbrev pub add32 : ℕ → ℕ → ℕ
add32 a b = (a + b) % 2 ^ 32

unfoldable pub muladd : ℕ → ℕ → Accumulator → Accumulator
muladd a b acc =
    let t = (a * b) % 2 ^ 128 in
    let th = t / u64_mod in
    let tl = t % u64_mod in
    let c0 = add64 acc.c0 tl in
    let th = add64 th (to_bit (ltb c0 tl)) in
    let c1 = add64 acc.c1 th in record { c0 = c0; c1 = c1; c2 = add32 acc.c2 (to_bit (ltb c1 th)) }

unfoldable pub muladd_fast : ℕ → ℕ → Accumulator → Accumulator
muladd_fast a b acc =
    let t = (a * b) % 2 ^ 128 in
    let th = t / u64_mod in
    let tl = t % u64_mod in
    let c0 = add64 acc.c0 tl in
    let th = add64 th (to_bit (ltb c0 tl)) in record acc { c0 = c0; c1 = add64 acc.c1 th }

unfoldable pub muladd2 : ℕ → ℕ → Accumulator → Accumulator
muladd2 a b acc =
    let t = (a * b) % 2 ^ 128 in
    let th = t / u64_mod in
    let tl = t % u64_mod in
    let th2 = add64 th th in
    let c2 = add32 acc.c2 (to_bit (ltb th2 th)) in
    let tl2 = add64 tl tl in
    let th2 = add64 th2 (to_bit (ltb tl2 tl)) in
    let c0 = add64 acc.c0 tl2 in
    let th2 = add64 th2 (to_bit (ltb c0 tl2)) in
    let c2 = add32 c2 (to_bit (ltb c0 tl2 && th2 == 0)) in
    let c1 = add64 acc.c1 th2 in record { c0 = c0; c1 = c1; c2 = add32 c2 (to_bit (ltb c1 th2)) }

unfoldable pub sumadd : ℕ → Accumulator → Accumulator
sumadd a acc =
    let c0 = add64 acc.c0 a in
    let over = to_bit (ltb c0 a) in
    let c1 = add64 acc.c1 over in
    record { c0 = c0; c1 = c1; c2 = add32 acc.c2 (to_bit (ltb c1 over)) }

unfoldable pub sumadd_fast : ℕ → Accumulator → Accumulator
sumadd_fast a acc =
    let c0 = add64 acc.c0 a in record acc { c0 = c0; c1 = add64 acc.c1 (to_bit (ltb c0 a)) }

-- what `extract` leaves; the number that it takes out is `c0`
unfoldable pub extract : Accumulator → Accumulator
extract acc = record { c0 = acc.c1; c1 = acc.c2; c2 = 0 }

unfoldable pub extract_fast : Accumulator → Accumulator
extract_fast acc = record acc { c0 = acc.c1; c1 = 0 }
