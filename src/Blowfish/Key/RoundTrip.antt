-- ===== src/Blowfish/Key/RoundTrip.antt =====
-- BlowfishKey.cpp: decryption after encryption, at every length.
use native.Mathlib.Nat.{le_refl}
use sparkle.Blowfish.Schedule.{do_bf_setkey-IsWord}
use sparkle.Prelude.{
  sym, ◌∙◌, ℕ, zero, suc, ◌+◌, ◌-◌, ◌%◌, ◌≤◌, ◌<◌, ◌≡◌, refl, ap, ap₂, [], ◌∷◌, ◌++◌, length, take,
  take-length, take-length-append, All, All-append, length-append, arith, inl, inr, Bool-cases,
  ◌==◌,
}
use sparkle.Prelude.Bytes.{Bytes, IsByte, IsBytes, memory_from}
use sparkle.Blowfish.{Context, do_bf_setkey, do_encrypt_block, do_decrypt_block}
use sparkle.Blowfish.Feistel.{IsWord}
use sparkle.Blowfish.Block.{block, do_decrypt_block-do_encrypt_block}
use sparkle.Blowfish.Key.{set_bytes, each_block, pad, encrypt, decrypt}

data Blocks : Bytes → Type 0 where
  nil : Blocks []
  cons :
      (a b c d e f g h : ℕ) {rest : Bytes}
      → IsBytes (block a b c d e f g h)
      → Blocks rest
      → Blocks (a ∷ b ∷ c ∷ d ∷ e ∷ f ∷ g ∷ h ∷ rest)

to_Blocks : (xs : Bytes) → length xs % 8 ≡ 0 → IsBytes xs → Blocks xs
to_Blocks [] m w = nil
to_Blocks (a ∷ []) m w = absurd (omega arith)
to_Blocks (a ∷ b ∷ []) m w = absurd (omega arith)
to_Blocks (a ∷ b ∷ c ∷ []) m w = absurd (omega arith)
to_Blocks (a ∷ b ∷ c ∷ d ∷ []) m w = absurd (omega arith)
to_Blocks (a ∷ b ∷ c ∷ d ∷ e ∷ []) m w = absurd (omega arith)
to_Blocks (a ∷ b ∷ c ∷ d ∷ e ∷ f ∷ []) m w = absurd (omega arith)
to_Blocks (a ∷ b ∷ c ∷ d ∷ e ∷ f ∷ g ∷ []) m w = absurd (omega arith)
to_Blocks (a ∷ b ∷ c ∷ d ∷ e ∷ f ∷ g ∷ h ∷ rest) m w =
    cons a b c d e f g h (omega arith) (to_Blocks rest (omega arith) w.1.1.1.1.1.1.1.1)

module _ (bc : Context) (wf : All IsWord bc.p) (memory memory' : ℕ → ℕ) where
  length-each_block :
      {xs : Bytes} (n : ℕ)
      → Blocks xs
      → length xs ≤ n
      → length (each_block (do_encrypt_block bc) memory n xs) ≡ length xs
  unfolding each_block do_encrypt_block
  length-each_block zero nil h = refl
  length-each_block (suc n) nil h = refl
  length-each_block zero (cons a b c d e f g h w bs) le = absurd (omega arith)
  length-each_block (suc n) (cons a b c d e f g h w bs) le =
      omega (arith, length-each_block n bs (omega arith))

  each_block-undo :
      {xs : Bytes} (n m : ℕ)
      → Blocks xs
      → length xs ≤ n
      → length xs ≤ m
      → each_block (do_decrypt_block bc) memory' m (each_block (do_encrypt_block bc) memory n xs)
        ≡ xs
  unfolding each_block do_encrypt_block
  each_block-undo zero zero nil h k = refl
  each_block-undo zero (suc m) nil h k = refl
  each_block-undo (suc n) zero nil h k = refl
  each_block-undo (suc n) (suc m) nil h k = refl
  each_block-undo zero m (cons a b c d e f g h w bs) le k = absurd (omega arith)
  each_block-undo (suc n) zero (cons a b c d e f g h w bs) le k = absurd (omega arith)
  each_block-undo (suc n) (suc m) (cons a b c d e f g h w bs) le k =
      ap₂ ◌++◌ (do_decrypt_block-do_encrypt_block bc wf a b c d e f g h w)
        (each_block-undo n m bs (omega arith) (omega arith))

module _ (memory : ℕ → ℕ) (bytes : (i : ℕ) → IsByte (memory i)) where
  memory_from-IsBytes : (i n : ℕ) → IsBytes (memory_from memory i n)
  memory_from-IsBytes i zero = tt
  memory_from-IsBytes i (suc n) = (bytes i, memory_from-IsBytes (suc i) n)

  length-memory_from : (i n : ℕ) → length (memory_from memory i n) ≡ n
  length-memory_from i zero = refl
  length-memory_from i (suc n) = ap suc (length-memory_from (suc i) n)

  pad-IsBytes : (xs : Bytes) → IsBytes xs → IsBytes (pad memory xs)
  unfolding pad
  pad-IsBytes xs w = elim (Bool-cases (length xs % 8 == 0)) [
    | inl e ↦ rw e w
    | inr e ↦ rw e (All-append IsByte xs _ w (memory_from-IsBytes 0 _))
  ]

  pad-length :
      (xs : Bytes) → (length (pad memory xs) % 8 ≡ 0) × (length (pad memory xs) < length xs + 8)
  unfolding pad
  pad-length xs = elim (Bool-cases (length xs % 8 == 0)) [
    | inl e ↦ rw e (ground arith)
    | inr e ↦ rw e (
        ground (
          arith,
          length-append xs (memory_from memory 0 (8 - length xs % 8)),
          length-memory_from 0 (8 - length xs % 8),
        ))
  ]

  take-pad : (xs : Bytes) → take (length xs) (pad memory xs) ≡ xs
  unfolding pad
  take-pad xs = elim (Bool-cases (length xs % 8 == 0)) [
    | inl e ↦ rw e (take-length xs)
    | inr e ↦ rw e (take-length-append xs _)
  ]

-- Under one session key, and whatever the memory holds, decryption gives back the data that was
-- encrypted, followed by fewer than eight bytes of padding, and the cipher text is as long as that.
pub decrypt-encrypt :
    (memory memory' : ℕ → ℕ)
    → ((i : ℕ) → IsByte (memory i))
    → (raw xs : Bytes) → IsBytes raw
    → IsBytes xs
    → let c = encrypt memory (set_bytes raw) xs in
      let d = decrypt memory' (set_bytes raw) c in
      (d ≡ pad memory xs)
      × (take (length xs) d ≡ xs)
      × (length d < length xs + 8)
      × (length c ≡ length d)
      × (length c % 8 ≡ 0)
unfolding encrypt decrypt set_bytes
decrypt-encrypt memory memory' bytes raw xs hr hx =
    let ys = pad memory xs in
    let wf = do_bf_setkey-IsWord raw hr in
    let bc = (do_bf_setkey raw).0 in
    let lens = pad-length memory bytes xs in
    let bs = to_Blocks ys lens.0 (pad-IsBytes memory bytes xs hx) in
    let len = length-each_block bc wf memory memory' (length ys) bs (le_refl _) in
    let d : each_block (do_decrypt_block bc) memory'
          (length (each_block (do_encrypt_block bc) memory (length ys) ys))
          (each_block (do_encrypt_block bc) memory (length ys) ys)
        ≡ ys =
      each_block-undo bc wf memory memory' (length ys)
        (length (each_block (do_encrypt_block bc) memory (length ys) ys)) bs (le_refl _)
        (omega (arith, len)) in
    (
      d,
      rw d (take-pad memory bytes xs),
      rw d (lens.1),
      len ∙ ap length (sym d),
      omega (arith, len, lens.0),
    )
