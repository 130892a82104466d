-- ===== src/Blowfish/Block.antt =====
-- The cipher on blocks of eight bytes: do_encrypt_block and do_decrypt_block.
use sparkle.Prelude.{ℕ, ◌≡◌, [], ◌∷◌, All, arith}
use sparkle.Prelude.Bytes.{Bytes, IsBytes}
use sparkle.Blowfish.{
  Context, do_encrypt, do_encrypt_block, do_decrypt_block, load_block, store_block,
}
use sparkle.Blowfish.Feistel.{IsWord, IsPair, decrypt-do_encrypt, do_encrypt-IsPair}

-- A block of eight bytes, byte by byte.
abbrev pub block : (a b c d e f g h : ℕ) → Bytes
block a b c d e f g h = a ∷ b ∷ c ∷ d ∷ e ∷ f ∷ g ∷ h ∷ []

load-store : (x : ℕ × ℕ) → IsPair x → load_block (store_block x) ≡ x
load-store (l, r) h = ground arith

store-load :
    (a b c d e f g h : ℕ)
    → IsBytes (block a b c d e f g h)
    → store_block (load_block (block a b c d e f g h)) ≡ block a b c d e f g h
store-load a b c d e f g h w = ground arith

load_block-IsPair :
    (a b c d e f g h : ℕ)
    → IsBytes (block a b c d e f g h)
    → IsPair (load_block (block a b c d e f g h))
load_block-IsPair a b c d e f g h w = (omega arith, omega arith)

store_block-IsBytes : (x : ℕ × ℕ) → IsBytes (store_block x)
store_block-IsBytes (l, r) = omega arith

module _ (bc : Context) (wf : All IsWord bc.p) where
  -- The same on blocks: eight bytes are encrypted to what decrypts to them.
  pub do_decrypt_block-do_encrypt_block :
      (a b c d e f g h : ℕ)
      → IsBytes (block a b c d e f g h)
      → do_decrypt_block bc (do_encrypt_block bc (block a b c d e f g h)) ≡ block a b c d e f g h
  unfolding do_decrypt_block do_encrypt_block
  do_decrypt_block-do_encrypt_block a b c d e f g h w =
      let x = load_block (block a b c d e f g h) in
      let hx = load_block-IsPair a b c d e f g h w in
      rw
        (load-store (do_encrypt bc x) (do_encrypt-IsPair bc wf x hx), decrypt-do_encrypt bc wf x hx)
        (store-load a b c d e f g h w)
