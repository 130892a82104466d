-- ===== src/Blowfish/Schedule.antt =====
-- The key schedule of crypto/blowfish.c: every key of bytes gives a P array of 32-bit words.
use sparkle.Prelude.{ℕ, zero, suc, ◌+◌, ◌%◌, List, [], ◌∷◌, set, length, All, arith}
use sparkle.Prelude.Bits.{bit_xor-lt}
use sparkle.Prelude.Bytes.{Bytes, IsByte, IsBytes, byte_at}
use sparkle.Blowfish.{
  Context, Part, p_array, s_box0, s_box1, s_box2, s_box3, mix_key, key_word, fill, do_encrypt,
  do_bf_setkey,
}
use sparkle.Blowfish.Tables.{ps}
use sparkle.Blowfish.Feistel.{IsWord, IsPair, get_or-IsWord, do_encrypt-IsPair}

byte_at-IsByte : (xs : Bytes) (i : ℕ) → IsBytes xs → IsByte (byte_at xs i)
byte_at-IsByte [] i h = omega arith
byte_at-IsByte (x ∷ xs) zero h = h.0
byte_at-IsByte (x ∷ xs) (suc i) h = byte_at-IsByte xs i h.1

set-IsWord : (xs : List ℕ) (i v : ℕ) → All IsWord xs → IsWord v → All IsWord (set xs i v)
set-IsWord [] i v h k = tt
set-IsWord (x ∷ xs) zero v h k = (k, h.1)
set-IsWord (x ∷ xs) (suc i) v h k = (h.0, set-IsWord xs i v h.1 k)

key_word-IsWord : (key : Bytes) (j : ℕ) → IsBytes key → IsWord (key_word key j)
unfolding key_word
key_word-IsWord key j h = omega (
  arith,
  byte_at-IsByte key j h,
  byte_at-IsByte key ((j + 1) % length key) h,
  byte_at-IsByte key ((j + 2) % length key) h,
  byte_at-IsByte key ((j + 3) % length key) h,
)

mix_key-IsWord :
    (key : Bytes) (n i j : ℕ) (p : List ℕ)
    → IsBytes key
    → All IsWord p
    → All IsWord (mix_key key n i j p)
unfolding mix_key
mix_key-IsWord key zero i j p hk hp = hp
mix_key-IsWord key (suc n) i j p hk hp =
    mix_key-IsWord key n (suc i) _ _ hk
      (set-IsWord p i _ hp (bit_xor-lt 32 _ _ (get_or-IsWord p i hp) (key_word-IsWord key j hk)))

-- What the later loops rely on.
abbrev IsRunning : Context × (ℕ × ℕ) → Type 0
IsRunning (c, x) = All IsWord c.p × IsPair x

fill-IsRunning :
    (a : Part) (n i : ℕ) (c : Context) (x : ℕ × ℕ) → IsRunning (c, x) → IsRunning (fill a n i c x)
unfolding fill
fill-IsRunning a zero i c x h = h
fill-IsRunning p_array (suc n) i c x h =
    let y = do_encrypt-IsPair c h.0 x h.1 in
    fill-IsRunning p_array n (i + 2) _ (do_encrypt c x)
      (set-IsWord (set c.p i (do_encrypt c x).0) (i + 1) _ (set-IsWord c.p i _ h.0 y.0) y.1, y)
fill-IsRunning s_box0 (suc n) i c x h =
    fill-IsRunning s_box0 n (i + 2) _ (do_encrypt c x) (h.0, do_encrypt-IsPair c h.0 x h.1)
fill-IsRunning s_box1 (suc n) i c x h =
    fill-IsRunning s_box1 n (i + 2) _ (do_encrypt c x) (h.0, do_encrypt-IsPair c h.0 x h.1)
fill-IsRunning s_box2 (suc n) i c x h =
    fill-IsRunning s_box2 n (i + 2) _ (do_encrypt c x) (h.0, do_encrypt-IsPair c h.0 x h.1)
fill-IsRunning s_box3 (suc n) i c x h =
    fill-IsRunning s_box3 n (i + 2) _ (do_encrypt c x) (h.0, do_encrypt-IsPair c h.0 x h.1)

ps-IsWord : All IsWord ps
unfolding ps
ps-IsWord = omega arith

-- The schedule of a key of bytes has a P array of 32-bit words.
pub do_bf_setkey-IsWord : (key : Bytes) → IsBytes key → All IsWord (do_bf_setkey key).0.p
unfolding do_bf_setkey
do_bf_setkey-IsWord key h =
    (fill-IsRunning s_box3 128 0 _ _ (
      fill-IsRunning s_box2 128 0 _ _ (
        fill-IsRunning s_box1 128 0 _ _ (
          fill-IsRunning s_box0 128 0 _ _ (
            fill-IsRunning p_array 9 0 _ _
              (mix_key-IsWord key 18 0 0 ps h ps-IsWord, omega arith)))))).0
