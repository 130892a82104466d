-- ===== src/Messaging/AddressText/Digits.antt =====
-- Hexadecimal digits as Qt documents them: toHex writes lower case, and fromHex reads either case and
-- skips what is no digit.
use sparkle.Prelude.{
  ℕ, ◌+◌, ◌-◌, ◌*◌, ◌/◌, ◌%◌, ◌<◌, ◌≡◌, ◌≢◌, refl, Bool, true, false, not, ◌&&◌, List, [], ◌∷◌,
  length, Option, none, some, ltb, leb, if◌then◌else◌, All, arith,
}
use sparkle.Prelude.Bytes.{Bytes, IsByte}
use sparkle.Messaging.AddressText.{HexCodec, IsHexCodec}

abbrev digit : ℕ → ℕ
digit n = if ltb n 10 then 48 + n else 87 + n

hex_of : Bytes → List ℕ
hex_of [] = []
hex_of (x ∷ xs) = digit (x / 16) ∷ digit (x % 16) ∷ hex_of xs

-- On letters of ASCII, which is all there is in a text of digits.
abbrev upper : ℕ → ℕ
upper u = if leb 97 u && leb u 122 then u - 32 else u

upper_of : List ℕ → List ℕ
upper_of [] = []
upper_of (u ∷ us) = upper u ∷ upper_of us

abbrev value : ℕ → Option ℕ
value u =
    if leb 48 u && leb u 57
    then some (u - 48)
    else if leb 65 u && leb u 70
    then some (u - 55)
    else if leb 97 u && leb u 102
    then some (u - 87)
    else none

abbrev keep : Option ℕ → List ℕ → List ℕ
keep none ns = ns
keep (some n) ns = n ∷ ns

nibbles : List ℕ → List ℕ
nibbles [] = []
nibbles (u ∷ us) = keep (value u) (nibbles us)

pairs : List ℕ → Bytes
pairs [] = []
pairs (n ∷ []) = n ∷ []
pairs (m ∷ n ∷ ns) = (16 * m + n) ∷ pairs ns

is_odd : List ℕ → Bool
is_odd [] = false
is_odd (n ∷ ns) = not (is_odd ns)

-- A first digit without a second one is a byte of its own.
abbrev bytes_of : Bool → List ℕ → Bytes
bytes_of true (n ∷ ns) = n ∷ pairs ns
bytes_of true [] = []
bytes_of false ns = pairs ns

pub hex_codec : HexCodec
hex_codec = record {
  to_hex = hex_of;
  to_upper = upper_of;
  from_hex = λ us. bytes_of (is_odd (nibbles us)) (nibbles us);
}

abbrev halves : Bytes → List ℕ
halves [] = []
halves (x ∷ xs) = (x / 16) ∷ (x % 16) ∷ halves xs

value-digit : (n : ℕ) → n < 16 → value (upper (digit n)) ≡ some n
value-digit n h = ground arith

digit-Colon : (n : ℕ) → n < 16 → upper (digit n) ≢ 58
digit-Colon n h = ground arith

nibbles-hex_of : (xs : Bytes) → All IsByte xs → nibbles (upper_of (hex_of xs)) ≡ halves xs
unfolding nibbles hex_of upper_of
nibbles-hex_of [] h = refl
nibbles-hex_of (x ∷ xs) (b, h) =
    rw (value-digit (x / 16) (omega arith), value-digit (x % 16) (omega arith), nibbles-hex_of xs h)
      refl

is_odd-halves : (xs : Bytes) → is_odd (halves xs) ≡ false
unfolding is_odd
is_odd-halves [] = refl
is_odd-halves (x ∷ xs) = rw (is_odd-halves xs) refl

pairs-halves : (xs : Bytes) → pairs (halves xs) ≡ xs
unfolding pairs
pairs-halves [] = refl
pairs-halves (x ∷ xs) =
    let whole : 16 * (x / 16) + x % 16 ≡ x = omega arith in rw (whole, pairs-halves xs) refl

length-hex_of : (xs : Bytes) → length (upper_of (hex_of xs)) ≡ 2 * length xs
unfolding hex_of upper_of
length-hex_of [] = refl
length-hex_of (x ∷ xs) = omega (arith, length-hex_of xs)

hex_of-Colon : (xs : Bytes) → All IsByte xs → All (λ u. u ≢ 58) (upper_of (hex_of xs))
unfolding hex_of upper_of
hex_of-Colon [] h = tt
hex_of-Colon (x ∷ xs) (b, h) =
    (digit-Colon (x / 16) (omega arith), (digit-Colon (x % 16) (omega arith), hex_of-Colon xs h))

pub hex_codec-IsHexCodec : IsHexCodec hex_codec
unfolding hex_codec
hex_codec-IsHexCodec = record {
  hex_length = λ xs h. length-hex_of xs;
  hex_digits = hex_of-Colon;
  hex_reads = λ xs h. rw (nibbles-hex_of xs h, is_odd-halves xs) (pairs-halves xs);
}
