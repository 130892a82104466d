-- ===== src/DataStream.antt =====
-- What the code relies on of Qt's QDataStream: writing appends to an array, reading takes from the
-- front of one, and what was written reads back. The operations are a parameter of the code that
-- uses them; Qt below it has the documented format.
pub mod Qt
use sparkle.Prelude.{[], ℕ, ◌+◌, ◌*◌, ◌^◌, ◌<◌, ◌≡◌, List, ◌++◌, length, Option, none, some, All}
use sparkle.Prelude.Bytes.{Bytes, IsBytes}

-- QString: the null string, or UTF-16 code units.
abbrev pub Text : Type 0
Text = Option (List ℕ)

abbrev pub IsText : Text → Type 0
IsText none = Unit
IsText (some units) = (length units * 2 + 1 < 2 ^ 32) × All (λ u. u < 2 ^ 16) units

-- The code units of a text, none for the null text.
abbrev pub units : Text → List ℕ
units none = []
units (some us) = us

-- QDateTime: the date and the time of day as QDataStream has them, and the time specification.
pub record DateTime : Type 0 where
  pub date : ℕ
  pub time : ℕ
  pub spec : ℕ

abbrev pub IsDateTime : DateTime → Type 0
IsDateTime t = (t.date < 2 ^ 32) × (t.time < 2 ^ 32) × (t.spec < 256)

-- A value, and what is left to read.
abbrev pub Reader {ℓ} : Type ℓ → Type ℓ
Reader A = Bytes → A × Bytes

pub record DataStream : Type 0 where
  pub put_u16 : ℕ → Bytes
  pub put_u32 : ℕ → Bytes
  pub put_bytes : Bytes → Bytes
  pub put_text : Text → Bytes
  pub put_time : DateTime → Bytes
  pub get_u16 : Reader ℕ
  pub get_u32 : Reader ℕ
  pub get_bytes : Reader Bytes
  pub get_text : Reader Text
  pub get_time : Reader DateTime

-- Each value reads back, and leaves what stands behind it; what is written are bytes.
pub record IsDataStream (s : DataStream) : Type 0 where
  pub u16_reads : (n : ℕ) (rest : Bytes) → n < 2 ^ 16 → s.get_u16 (s.put_u16 n ++ rest) ≡ (n, rest)
  pub u32_reads : (n : ℕ) (rest : Bytes) → n < 2 ^ 32 → s.get_u32 (s.put_u32 n ++ rest) ≡ (n, rest)
  pub bytes_reads :
      (xs rest : Bytes) → length xs + 1 < 2 ^ 32 → s.get_bytes (s.put_bytes xs ++ rest) ≡ (xs, rest)
  pub text_reads :
      (t : Text) (rest : Bytes) → IsText t → s.get_text (s.put_text t ++ rest) ≡ (t, rest)
  pub time_reads :
      (t : DateTime) (rest : Bytes) → IsDateTime t → s.get_time (s.put_time t ++ rest) ≡ (t, rest)
  pub u16_bytes : (n : ℕ) → IsBytes (s.put_u16 n)
  pub u32_bytes : (n : ℕ) → IsBytes (s.put_u32 n)
  pub text_bytes : (t : Text) → IsText t → IsBytes (s.put_text t)
  pub time_bytes : (t : DateTime) → IsDateTime t → IsBytes (s.put_time t)
