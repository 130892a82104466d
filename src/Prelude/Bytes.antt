-- ===== src/Prelude/Bytes.antt =====
-- Byte arrays (`QByteArray`), and big-endian words in them (`qToBigEndian`, `qFromBigEndian`).
use Prim.Native.Nat.{ℕ, zero, suc, ◌+◌, ◌*◌, ◌/◌, ◌%◌, ◌^◌, ◌<◌}
use mathlib.Core.Path.{◌≡◌, refl}
use mathlib.Core.Bool.{Bool, true, false, ◌&&◌}
use mathlib.Core.List.{List, [], ◌∷◌}
use native.Mathlib.Omega.{arith}
use sparkle.Prelude.Tests.{◌==◌, if◌then◌else◌}
use sparkle.Prelude.Lists.{get_or, All}

abbrev pub Bytes : Type 0
Bytes = List ℕ

abbrev pub IsByte : ℕ → Type 0
IsByte b = b < 256

abbrev pub IsBytes : Bytes → Type 0
IsBytes = All IsByte

-- `operator==` of two arrays, and `memcmp(...) == 0`.
abbrev pub bytes_eq : Bytes → Bytes → Bool
bytes_eq [] [] = true
bytes_eq [] (y ∷ ys) = false
bytes_eq (x ∷ xs) [] = false
bytes_eq (x ∷ xs) (y ∷ ys) = (x == y) && bytes_eq xs ys

pub bytes_eq_sound : (xs ys : Bytes) → bytes_eq xs ys ≡ true → xs ≡ ys
bytes_eq_sound [] [] h = refl
bytes_eq_sound [] (y ∷ ys) h = cc
bytes_eq_sound (x ∷ xs) [] h = cc
bytes_eq_sound (x ∷ xs) (y ∷ ys) h = ground (arith, bytes_eq_sound xs ys)

pub bytes_eq_refl : (xs : Bytes) → bytes_eq xs xs ≡ true
bytes_eq_refl [] = refl
bytes_eq_refl (x ∷ xs) = ground (arith, bytes_eq_refl xs)

abbrev pub byte_at : Bytes → ℕ → ℕ
byte_at xs i = get_or xs i 0

abbrev pub be16 : ℕ → Bytes
be16 n = (n / 256 % 256) ∷ (n % 256) ∷ []

abbrev pub be32 : ℕ → Bytes
be32 n = (n / 2 ^ 24 % 256) ∷ (n / 2 ^ 16 % 256) ∷ (n / 256 % 256) ∷ (n % 256) ∷ []

-- The big-endian words at an offset.
abbrev pub word16_at : Bytes → ℕ → ℕ
word16_at xs i = byte_at xs i * 256 + byte_at xs (suc i)

abbrev pub word32_at : Bytes → ℕ → ℕ
word32_at xs i =
    byte_at xs i * 2 ^ 24
    + byte_at xs (suc i) * 2 ^ 16
    + byte_at xs (suc (suc i)) * 256
    + byte_at xs (suc (suc (suc i)))

abbrev pub of_bool : Bool → ℕ
of_bool b = if b then 1 else 0

-- C's reading of a byte as a condition.
abbrev pub to_bool : ℕ → Bool
to_bool n = if n == 0 then false else true

-- The bytes `i`, `i + 1`, … of a memory.
abbrev pub memory_from : (ℕ → ℕ) → ℕ → ℕ → Bytes
memory_from memory i zero = []
memory_from memory i (suc n) = memory i ∷ memory_from memory (suc i) n
