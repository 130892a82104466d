-- ===== src/Messaging/AddressText.antt =====
-- SparkleAddress.cpp, pretty, and sippy/Contact.cpp, the constructor that reads an address as a user
-- writes it. What Qt makes of hexadecimal digits is a record of operations and laws.
pub mod Digits
use sparkle.Prelude.{
  ℕ, zero, suc, ◌+◌, ◌*◌, ◌≡◌, ◌≢◌, refl, sym, ap, ◌∙◌, List, [], ◌∷◌, take, length, ◌==◌,
  if◌then◌else◌, All, arith,
}
use sparkle.Prelude.Bytes.{Bytes, IsByte}
use sparkle.Address.{SparkleAddress, of_bytes}
use sparkle.Messaging.Html.{replace}

-- QByteArray::toHex, QString::toUpper and QByteArray::fromHex; a text is its code units.
pub record HexCodec : Type 0 where
  pub to_hex : Bytes → List ℕ
  pub to_upper : List ℕ → List ℕ
  pub from_hex : List ℕ → Bytes

-- Two digits for each byte, none of which is a colon, in either case.
pub record IsHexCodec (h : HexCodec) : Type 0 where
  pub hex_length : (xs : Bytes) → All IsByte xs → length (h.to_upper (h.to_hex xs)) ≡ 2 * length xs
  pub hex_digits : (xs : Bytes) → All IsByte xs → All (λ u. u ≢ 58) (h.to_upper (h.to_hex xs))
  pub hex_reads : (xs : Bytes) → All IsByte xs → h.from_hex (h.to_upper (h.to_hex xs)) ≡ xs

-- replace(QRegExp("(..)"), "\\1:")
unfoldable pub insert_colons : List ℕ → List ℕ
insert_colons [] = []
insert_colons (a ∷ []) = a ∷ []
insert_colons (a ∷ b ∷ us) = a ∷ b ∷ 58 ∷ insert_colons us

unfoldable pub pretty : HexCodec → SparkleAddress → List ℕ
pretty h a = take 17 (insert_colons (h.to_upper (h.to_hex a.bytes)))

-- Contact::Contact(QString)
unfoldable pub address_of_text : HexCodec → Bytes → List ℕ → SparkleAddress
address_of_text h memory text = of_bytes memory (h.from_hex (replace 58 [] text))

replace-digit : (u : ℕ) (us : List ℕ) → u ≢ 58 → replace 58 [] (u ∷ us) ≡ u ∷ replace 58 [] us
unfolding replace
replace-digit u us h = ground arith

replace-colon : (us : List ℕ) → replace 58 [] (58 ∷ us) ≡ replace 58 [] us
unfolding replace
replace-colon us = refl

more : (n : ℕ) → 3 * suc n + 2 ≡ suc (suc (suc (3 * n + 2)))
more n = omega arith

-- The colons that were put in are taken out again; the last one is cut off before.
replace-insert_colons :
    (n : ℕ) (us : List ℕ)
    → length us ≡ 2 * suc n
    → All (λ u. u ≢ 58) us
    → replace 58 [] (take (3 * n + 2) (insert_colons us)) ≡ us
unfolding insert_colons replace
replace-insert_colons n [] h digits = absurd (omega arith)
replace-insert_colons n (a ∷ []) h digits = absurd (omega arith)
replace-insert_colons zero (a ∷ b ∷ []) h (p, (q, _)) =
    rw (replace-digit a (b ∷ []) p, replace-digit b [] q) refl
replace-insert_colons (suc n) (a ∷ b ∷ []) h digits = absurd (omega arith)
replace-insert_colons zero (a ∷ b ∷ c ∷ us) h digits = absurd (omega arith)
replace-insert_colons (suc n) (a ∷ b ∷ c ∷ us) h (p, (q, rest)) = rw (more n) (
    let left = take (3 * n + 2) (insert_colons (c ∷ us)) in
    rw (replace-digit a (b ∷ 58 ∷ left) p, replace-digit b (58 ∷ left) q, replace-colon left)
      (ap (λ t. a ∷ b ∷ t) (replace-insert_colons n (c ∷ us) (omega arith) rest)))

-- An address that is printed is read back.
pub address_of_text-pretty :
    (h : HexCodec)
    → IsHexCodec h
    → (a : SparkleAddress) (memory : Bytes) → length a.bytes ≡ 6
    → All IsByte a.bytes
    → address_of_text h memory (pretty h a) ≡ a
unfolding address_of_text pretty of_bytes
address_of_text-pretty h laws a memory six bytes =
    let digits = h.to_upper (h.to_hex a.bytes) in
    let text : replace 58 [] (take 17 (insert_colons digits)) ≡ digits =
      replace-insert_colons 5 digits (laws.hex_length a.bytes bytes ∙ ap (λ n. 2 * n) six)
        (laws.hex_digits a.bytes bytes) in
    rw (text, laws.hex_reads a.bytes bytes, six) refl
