-- ===== src/Address.antt =====
-- SparkleAddress.cpp: the six-byte address of a node.
use sparkle.Prelude.{
  ℕ, suc, Bool, true, false, [], ◌∷◌, ◌++◌, take, length, ◌==◌, if◌then◌else◌, ◌≡◌, ap,
}
use sparkle.Prelude.Bytes.{Bytes, byte_at, bytes_eq, bytes_eq_sound}

pub record SparkleAddress : Type 0 where
  pub bytes : Bytes

-- SparkleAddress()
abbrev pub null_address : SparkleAddress
null_address = record { bytes = 0 ∷ 0 ∷ 0 ∷ 0 ∷ 0 ∷ 0 ∷ [] }

-- SparkleAddress(const quint8[6]), at an offset of an array.
abbrev pub address_at : Bytes → ℕ → SparkleAddress
address_at xs i = record {
  bytes =
      byte_at xs i
      ∷ byte_at xs (suc i)
      ∷ byte_at xs (suc (suc i))
      ∷ byte_at xs (suc (suc (suc i)))
      ∷ byte_at xs (suc (suc (suc (suc i))))
      ∷ byte_at xs (suc (suc (suc (suc (suc i)))))
      ∷ [];
}

-- SparkleAddress(QByteArray): another size is resized to six; `memory` is what the bytes that
-- `resize` adds happen to hold.
unfoldable pub of_bytes : Bytes → Bytes → SparkleAddress
of_bytes memory origin = record {
  bytes = if length origin == 6 then origin else take 6 (origin ++ memory);
}

unfoldable pub all_zero : Bytes → Bool
all_zero [] = true
all_zero (x ∷ xs) = if x == 0 then all_zero xs else false

-- isNull: the loop over the bytes, which leaves at the first one that is not 0.
unfoldable pub is_null : SparkleAddress → Bool
unfolding all_zero
is_null a = all_zero a.bytes

-- operator==, by memcmp.
abbrev pub address_eq : SparkleAddress → SparkleAddress → Bool
address_eq a b = bytes_eq a.bytes b.bytes

pub address_eq_sound : (a b : SparkleAddress) → address_eq a b ≡ true → a ≡ b
address_eq_sound a b h =
    ap (λ (xs : Bytes). let r : SparkleAddress = record { bytes = xs } in r)
      (bytes_eq_sound a.bytes b.bytes h)
