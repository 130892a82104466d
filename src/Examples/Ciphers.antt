-- ===== src/Examples/Ciphers.antt =====
-- Blowfish and the packets, at concrete data.
use sparkle.Prelude.{◌%◌, ◌<◌, ◌≡◌, [], ◌∷◌, arith, length, take}
use sparkle.Prelude.Bytes.{Bytes}
use sparkle.Blowfish.{Context, do_bf_setkey}
use sparkle.Blowfish.Key
use sparkle.Blowfish.Key.{set_bytes, pad}
use sparkle.Blowfish.Key.RoundTrip.{decrypt-encrypt}
use sparkle.Examples.{zeroes}

abbrev raw : Bytes
raw = 1 ∷ 2 ∷ 3 ∷ 4 ∷ 5 ∷ []

abbrev scheduled : Context
scheduled = (do_bf_setkey raw).0

abbrev twice : Bytes
twice = 1 ∷ 2 ∷ 1 ∷ 2 ∷ []

decrypt-encrypt_example :
    let c = Key.encrypt zeroes (set_bytes raw) (72 ∷ 105 ∷ 33 ∷ []) in
    let d = Key.decrypt zeroes (set_bytes raw) c in
    (d ≡ pad zeroes (72 ∷ 105 ∷ 33 ∷ []))
    × (take 3 d ≡ 72 ∷ 105 ∷ 33 ∷ [])
    × (length d < 11)
    × (length c ≡ length d)
    × (length c % 8 ≡ 0)
decrypt-encrypt_example =
    decrypt-encrypt zeroes zeroes (λ i. omega arith) raw (72 ∷ 105 ∷ 33 ∷ []) (omega arith)
      (omega arith)
