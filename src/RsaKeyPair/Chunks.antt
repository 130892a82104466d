-- ===== src/RsaKeyPair/Chunks.antt =====
-- The loops of encrypt and decrypt.
use sparkle.Prelude.{
  ◌^◌, ltb-true, ℕ, zero, suc, ◌+◌, ◌-◌, ◌<◌, ◌≤◌, ◌≡◌, refl, subst, sym, ◌∙◌, [], ◌∷◌, ◌++◌,
  length, take, drop, Option, none, some, arith, length-append, length-drop, take-length,
  take-length-append, drop-length-append, take-append-drop,
}
use sparkle.Prelude.Bytes.{Bytes}
use sparkle.RsaKeyPair.{
  RsaContext, Pkcs1, IsPkcs1, prepend, encrypt_loop, encrypt, decrypt_loop, decrypt,
}

length-take-le : (n : ℕ) (xs : Bytes) → length (take n xs) ≤ n
length-take-le zero xs = omega arith
length-take-le (suc n) [] = omega arith
length-take-le (suc n) (x ∷ xs) = omega (arith, length-take-le n xs)

take_exact : (n : ℕ) (xs ys : Bytes) → length xs ≡ n → take n (xs ++ ys) ≡ xs
take_exact n xs ys e = subst (λ (k : ℕ). take k (xs ++ ys) ≡ xs) e (take-length-append xs ys)

drop_exact : (n : ℕ) (xs ys : Bytes) → length xs ≡ n → drop n (xs ++ ys) ≡ ys
drop_exact n xs ys e = subst (λ (k : ℕ). drop k (xs ++ ys) ≡ ys) e (drop-length-append xs ys)

take_all : (n : ℕ) (xs : Bytes) → length xs ≡ n → take n xs ≡ xs
take_all n xs e = subst (λ (k : ℕ). take k xs ≡ xs) e (take-length xs)

-- A pass of decrypt over a block.
decrypt_loop-block :
    (pkcs : Pkcs1) (k : RsaContext) (fuel : ℕ) (out : ℕ × Bytes) (block rest : Bytes)
    → length block ≡ k.len
    → 0 < k.len
    → let r = pkcs.decrypt k block out in
      decrypt_loop pkcs (suc fuel) k out (block ++ rest)
      ≡ prepend (take r.0 r.1) (decrypt_loop pkcs fuel k r rest)
unfolding decrypt_loop
decrypt_loop-block pkcs k fuel out [] rest e h = absurd (omega arith)
decrypt_loop-block pkcs k fuel out (x ∷ xs) rest e h =
    rw (take_exact k.len (x ∷ xs) rest e, drop_exact k.len (x ∷ xs) rest e) refl

module _ (pkcs : Pkcs1) (public private : RsaContext) (laws : IsPkcs1 pkcs public private)
    (same_len : private.len ≡ public.len) (long : 11 < public.len) where
  record Decrypts (plain : Bytes) (out : Option Bytes) : Type 0 where
    crypted : Bytes
    ends : out ≡ some crypted
    back :
        (fuel : ℕ) (old : ℕ × Bytes)
        → length crypted ≤ fuel
        → decrypt_loop pkcs fuel private old crypted ≡ some plain

  nothing_left :
      (fuel : ℕ) (old : ℕ × Bytes) → 0 ≤ fuel → decrypt_loop pkcs fuel private old [] ≡ some []
  unfolding decrypt_loop
  nothing_left fuel old h = refl

  -- The blocks behind one block, decrypted after it.
  block_back :
      (call : ℕ) (chunk first rest crypted : Bytes)
      → length first + 11 ≤ public.len
      → ((fuel : ℕ) (old : ℕ × Bytes)
          → length crypted ≤ fuel
          → decrypt_loop pkcs fuel private old crypted ≡ some rest)
      → (fuel : ℕ) (old : ℕ × Bytes)
      → length (pkcs.encrypt call public first chunk ++ crypted) ≤ fuel
      → decrypt_loop pkcs fuel private old (pkcs.encrypt call public first chunk ++ crypted)
        ≡ some (first ++ rest)
  block_back call chunk first rest crypted fits back zero old h =
      let block = pkcs.encrypt call public first chunk in
      absurd (omega (arith, length-append block crypted, laws.block_length call first chunk fits))
  block_back call chunk first rest crypted fits back (suc fuel) old h =
      let block = pkcs.encrypt call public first chunk in
      let long_block = laws.block_length call first chunk fits in
      let enough : length crypted ≤ fuel = omega (arith, length-append block crypted, long_block) in
      decrypt_loop-block pkcs private fuel old block crypted (long_block ∙ sym same_len)
        (omega arith)
      ∙ rw (laws.block_reads call first chunk old fits, back fuel _ enough) refl

  encrypt_loop-Decrypts :
      (fuel call : ℕ) (chunk xs : Bytes)
      → length xs ≤ fuel
      → Decrypts xs (encrypt_loop pkcs fuel call public chunk xs)
  unfolding encrypt_loop
  encrypt_loop-Decrypts fuel call chunk [] h = record {
    crypted = [];
    ends = refl;
    back = nothing_left;
  }
  encrypt_loop-Decrypts zero call chunk (x ∷ xs) h = absurd (omega arith)
  encrypt_loop-Decrypts (suc fuel) call chunk (x ∷ xs) h =
      let flen = public.len - 11 in
      let first = take flen (x ∷ xs) in
      let rest = drop flen (x ∷ xs) in
      let block = pkcs.encrypt call public first chunk in
      let fits : length first + 11 ≤ public.len = omega (arith, length-take-le flen (x ∷ xs)) in
      let later =
        encrypt_loop-Decrypts fuel (suc call) block rest
          (omega (arith, length-drop flen (x ∷ xs))) in
      record {
        crypted = block ++ later.crypted;
        ends =
            rw (later.ends, take_all public.len block (laws.block_length call first chunk fits))
              refl;
        back =
            subst
              (λ (ys : Bytes).
                (n : ℕ) (old : ℕ × Bytes)
                → length (block ++ later.crypted) ≤ n
                → decrypt_loop pkcs n private old (block ++ later.crypted) ≡ some ys)
              (take-append-drop flen (x ∷ xs))
              (block_back call chunk first rest later.crypted fits later.back);
      }

  -- A key of more than eleven bytes, and less than 2^31, encrypts any data, and the private key of the
  -- same length decrypts what comes out to that data, if PKCS#1 decryption undoes PKCS#1
  -- encryption.
  pub decrypt-encrypt_data :
      (memory xs : Bytes) (old : ℕ × Bytes)
      → public.len < 2 ^ 31
      → (crypted : Bytes) × (encrypt pkcs memory public xs ≡ some crypted)
        × (decrypt pkcs old private crypted ≡ some xs)
  unfolding encrypt decrypt
  decrypt-encrypt_data memory xs old fits =
      let d = encrypt_loop-Decrypts (length xs) 0 memory xs (omega arith) in
      let small = ltb-true public.len (2 ^ 31) fits in
      (
        d.crypted,
        rw (small) d.ends,
        rw (ltb-true private.len (2 ^ 31) (omega (arith, same_len, fits)))
            (d.back (length d.crypted) old (omega arith)),
      )

-- With a key of at most eleven bytes, a length that a public key from the network can have, the
-- loop of encrypt never ends for data of one byte or more.
pub encrypt_loop-endless :
    (pkcs : Pkcs1) (k : RsaContext) (fuel call : ℕ) (chunk : Bytes) (x : ℕ) (xs : Bytes)
    → k.len ≤ 11
    → encrypt_loop pkcs fuel call k chunk (x ∷ xs) ≡ none
unfolding encrypt_loop
encrypt_loop-endless pkcs k zero call chunk x xs h = refl
encrypt_loop-endless pkcs k (suc fuel) call chunk x xs h =
    let stuck : k.len - 11 ≡ 0 = omega arith in
    rw (stuck, encrypt_loop-endless pkcs k fuel (suc call) _ x xs h) refl
