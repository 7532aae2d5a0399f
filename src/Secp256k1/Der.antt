-- ===== src/Secp256k1/Der.antt =====
-- Signatures in DER (crypto/secp256k1/libsecp256k1/src/ecdsa_impl.h). The bytes from `sig` to `sigend` are a
-- list, which shortens as `sig` goes on. A result of `none` is the code's -1 or 0.
pub mod Integers
pub mod RoundTrip
use simple_standalone_versio.Base.{
  ℕ, zero, suc, ◌+◌, ◌-◌, ◌*◌, ◌%◌, ◌^◌, bit_and, bit_or, Bool, true, false, ◌&&◌, ◌||◌, not, ltb,
  leb, ◌==◌, if◌then◌else◌, Option, none, some, List, [], ◌∷◌, ◌++◌, length, take, drop, u64_mod,
  add64,
}
use simple_standalone_versio.Secp256k1.Sha256.{zeros}
use simple_standalone_versio.Secp256k1.Scalar.{Scalar}
use simple_standalone_versio.Secp256k1.Scalar.Bytes.{byte_at, set_b32, get_b32}

-- The loop over the bytes of a long length; `ret` is what was read so far. A byte is there in each round,
-- as the number of them was compared with what is left.
unfoldable pub read_bytes : ℕ → ℕ → List ℕ → Option (ℕ × List ℕ)
read_bytes zero ret sig = some (ret, sig)
read_bytes (suc lenleft) ret [] = none
read_bytes (suc lenleft) ret (b ∷ sig) =
    let ret = bit_or (ret * 2 ^ 8 % u64_mod) b in
    let rest = read_bytes lenleft ret sig in
    if ltb (suc (length sig)) (add64 ret (suc lenleft)) then none else rest

-- The result is an `int`: a length that it does not hold is negative there, which every caller refuses.
abbrev pub as_length : Option (ℕ × List ℕ) → Option (ℕ × List ℕ)
as_length none = none
as_length (some (ret, sig)) =
    if ltb ret 128
    then none
    else (if leb (2 ^ 31) (ret % 2 ^ 32) then none else some (ret % 2 ^ 32, sig))

unfoldable pub der_read_len : List ℕ → Option (ℕ × List ℕ)
der_read_len [] = none
der_read_len (b1 ∷ sig) =
    let lenleft = bit_and b1 0x7f in
    let long = as_length (read_bytes lenleft 0 sig) in
    if b1 == 0xff
    then none
    else (if bit_and b1 0x80 == 0
        then some (b1, sig)
        else (if b1 == 0x80
            then none
            else (if ltb (length sig) lenleft
                then none
                else (if byte_at sig 0 == 0
                    then none
                    else (if ltb 8 lenleft then none else long)))))

-- the loop that skips leading zero bytes
unfoldable pub skip_zeros : ℕ → List ℕ → ℕ × List ℕ
skip_zeros zero sig = (0, sig)
skip_zeros (suc rlen) [] = (suc rlen, [])
skip_zeros (suc rlen) (b ∷ sig) =
    let rest = skip_zeros rlen sig in if b == 0 then rest else (suc rlen, b ∷ sig)

abbrev pub scalar_0 : Scalar
scalar_0 = record { d0 = 0; d1 = 0; d2 = 0; d3 = 0 }

-- The number of the `rlen` bytes, 0 where it is negative or not below the order, and what is left.
unfoldable pub parse_value : Bool → ℕ → List ℕ → Scalar × List ℕ
parse_value negative rlen sig =
    let (rlen, sig) = skip_zeros rlen sig in
    let (r, over) = set_b32 (zeros (32 - rlen) ++ take rlen sig) in
    let overflow = negative || ltb 32 rlen || not (over == 0) in
    (if overflow then scalar_0 else r, drop rlen sig)

-- after the length
unfoldable pub integer_body : Option (ℕ × List ℕ) → Option (Scalar × List ℕ)
integer_body none = none
integer_body (some (rlen, sig)) =
    let b0 = byte_at sig 0 in
    let b1 = byte_at sig 1 in
    if rlen == 0 || ltb (length sig) rlen
    then none
    else (if b0 == 0x00 && (ltb 1 rlen && bit_and b1 0x80 == 0x00)
        then none
        else (if b0 == 0xff && (ltb 1 rlen && bit_and b1 0x80 == 0x80)
            then none
            else some (parse_value (bit_and b0 0x80 == 0x80) rlen sig)))

unfoldable pub der_parse_integer : List ℕ → Option (Scalar × List ℕ)
der_parse_integer [] = none
der_parse_integer (tag ∷ sig) = if not (tag == 0x02) then none else integer_body (der_read_len sig)

-- the second integer, with nothing after it
unfoldable pub last_integer : Scalar → Option (Scalar × List ℕ) → Option (Scalar × Scalar)
last_integer r none = none
last_integer r (some (s, [])) = some (r, s)
last_integer r (some (s, b ∷ sig)) = none

unfoldable pub two_integers : Option (Scalar × List ℕ) → Option (Scalar × Scalar)
two_integers none = none
two_integers (some (r, sig)) = last_integer r (der_parse_integer sig)

-- after the length, which is that of all that is left
unfoldable pub sequence_body : Option (ℕ × List ℕ) → Option (Scalar × Scalar)
sequence_body none = none
sequence_body (some (rlen, sig)) =
    if not (rlen == length sig) then none else two_integers (der_parse_integer sig)

unfoldable pub ecdsa_sig_parse : List ℕ → Option (Scalar × Scalar)
ecdsa_sig_parse [] = none
ecdsa_sig_parse (tag ∷ sig) = if not (tag == 0x30) then none else sequence_body (der_read_len sig)

-- the loop that drops a leading zero byte where the next byte has no sign bit
unfoldable pub shortest : List ℕ → List ℕ
shortest [] = []
shortest (b0 ∷ []) = b0 ∷ []
shortest (b0 ∷ b1 ∷ rest) =
    let shorter = shortest (b1 ∷ rest) in if b0 == 0 && ltb b1 0x80 then shorter else b0 ∷ b1 ∷ rest

-- The bytes, if `size` is enough for them, and the size that they need.
unfoldable pub ecdsa_sig_serialize : ℕ → Scalar → Scalar → Option (List ℕ) × ℕ
ecdsa_sig_serialize size ar bs =
    let r = shortest (0 ∷ get_b32 ar) in
    let s = shortest (0 ∷ get_b32 bs) in
    let needed = 6 + length s + length r in
    (
      if ltb size needed
          then none
          else some (
              (0x30 ∷ (4 + length s + length r) % 256 ∷ 0x02 ∷ length r % 256 ∷ [])
              ++ (r ++ (0x02 ∷ length s % 256 ∷ s))),
      needed,
    )
