-- ===== src/Examples/Keys.antt =====
-- The generator as a public key, written and read back.
use simple_standalone_versio.Base.{◌%◌, ◌≡◌, refl, true, false, length}
use simple_standalone_versio.Secp256k1.Field.Value.{value, prime}
use simple_standalone_versio.Secp256k1.Eckey.{eckey_pubkey_parse, eckey_pubkey_serialize}
use simple_standalone_versio.Secp256k1.Eckey.RoundTrip.{eckey_pubkey_parse-eckey_pubkey_serialize}
use simple_standalone_versio.Examples.Points.{generator, generator-IsGePoint}

eckey_pubkey_parse-eckey_pubkey_serialize_example :
    let (b, bytes, ok) = eckey_pubkey_serialize generator false in
    (ok ≡ true)
    × (length bytes ≡ 65)
    × (eckey_pubkey_parse generator bytes ≡ (b, true))
    × (value b.x ≡ value generator.x % prime)
    × (value b.y ≡ value generator.y % prime)
eckey_pubkey_parse-eckey_pubkey_serialize_example =
    eckey_pubkey_parse-eckey_pubkey_serialize generator generator generator-IsGePoint refl
