-- ===== src/Blowfish/Feistel.antt =====
-- The rounds of crypto/blowfish.c undone: `decrypt` against `do_encrypt`.
use sparkle.Prelude.{ℕ, zero, suc, ◌^◌, ◌<◌, ◌≡◌, ap₂, bit_xor, List, [], ◌∷◌, get_or, All, arith}
use sparkle.Prelude.Bits.{bit_xor-lt, bit_xor_cancel, bit_xor_right_comm}
use sparkle.Blowfish.{Context, function_f, round, round_pair, whiten, swap, do_encrypt, decrypt}

abbrev pub IsWord : ℕ → Type 0
IsWord x = x < 2 ^ 32

abbrev pub IsPair : ℕ × ℕ → Type 0
IsPair (a, b) = IsWord a × IsWord b

pub get_or-IsWord : (xs : List ℕ) (i : ℕ) → All IsWord xs → IsWord (get_or xs i 0)
get_or-IsWord [] i h = omega arith
get_or-IsWord (x ∷ xs) zero h = h.0
get_or-IsWord (x ∷ xs) (suc i) h = get_or-IsWord xs i h.1

function_f-IsWord : (bc : Context) (x : ℕ) → IsWord (function_f bc x)
unfolding function_f
function_f-IsWord bc x = omega arith

-- a ^ f ^ p ^ f
xor_around :
    (a f p : ℕ) → IsWord a → IsWord f → IsWord p → bit_xor (bit_xor (bit_xor a f) p) f ≡ bit_xor a p
xor_around a f p ha hf hp =
    rw (bit_xor_right_comm 32 a f p ha hf hp)
      (bit_xor_cancel 32 (bit_xor a p) f (bit_xor-lt 32 a p ha hp) hf)

module _ (bc : Context) (wf : All IsWord bc.p) where
  entry : (i : ℕ) → IsWord (get_or bc.p i 0)
  entry i = get_or-IsWord bc.p i wf

  round-IsPair : (i : ℕ) (x : ℕ × ℕ) → IsPair x → IsPair (round bc i x)
  unfolding round
  round-IsPair i (l, r) h =
      (bit_xor-lt 32 l _ h.0 (entry i), bit_xor-lt 32 r _ h.1 (function_f-IsWord bc _))

  pub round_pair-IsPair : (i j : ℕ) (x : ℕ × ℕ) → IsPair x → IsPair (round_pair bc i j x)
  unfolding round_pair
  round_pair-IsPair i j x h =
      let a = round-IsPair i x h in
      let b = round-IsPair j (swap (round bc i x)) (a.1, a.0) in (b.1, b.0)

  pub whiten-IsPair : (i j : ℕ) (x : ℕ × ℕ) → IsPair x → IsPair (whiten bc i j x)
  unfolding whiten
  whiten-IsPair i j (l, r) h = (bit_xor-lt 32 r _ h.1 (entry j), bit_xor-lt 32 l _ h.0 (entry i))

  -- Two rounds, seen through the whitening, are undone by two rounds.
  round_pair-undo :
      (i j k m : ℕ) (x : ℕ × ℕ)
      → IsPair x
      → round_pair bc m k (whiten bc k m (round_pair bc i j x)) ≡ whiten bc i j x
  unfolding round_pair whiten round
  round_pair-undo i j k m (l, r) h =
      let pi = get_or bc.p i 0 in
      let pk = get_or bc.p k 0 in
      let l1 = bit_xor l pi in
      let f1 = function_f bc l1 in
      let rj = bit_xor (bit_xor r f1) (get_or bc.p j 0) in
      let f2 = function_f bc rj in
      let hl = bit_xor-lt 32 l pi h.0 (entry i) in
      let hr = bit_xor-lt 32 _ _ (bit_xor-lt 32 r f1 h.1 (function_f-IsWord bc l1)) (entry j) in
      rw (bit_xor_cancel 32 rj (get_or bc.p m 0) hr (entry m)) (
        rw (xor_around l1 f2 pk hl (function_f-IsWord bc rj) (entry k)) (
          rw (bit_xor_cancel 32 l1 pk hl (entry k))
            (rw (xor_around r f1 (get_or bc.p j 0) h.1 (function_f-IsWord bc l1) (entry j)))))

  whiten-undo : (i j : ℕ) (x : ℕ × ℕ) → IsPair x → whiten bc j i (whiten bc i j x) ≡ x
  unfolding whiten
  whiten-undo i j (l, r) h =
      ap₂ (λ (a b : ℕ). (a, b)) (bit_xor_cancel 32 l _ h.0 (entry i))
        (bit_xor_cancel 32 r _ h.1 (entry j))

  -- Under one context, `decrypt` gives back what `do_encrypt` was given, for each pair of words.
  -- Decryption undoes encryption, for any S boxes and any P array of 32-bit words.
  pub decrypt-do_encrypt : (x : ℕ × ℕ) → IsPair x → decrypt bc (do_encrypt bc x) ≡ x
  unfolding decrypt do_encrypt
  decrypt-do_encrypt x0 h0 =
      let x2 = round_pair bc 0 1 x0 in
      let x4 = round_pair bc 2 3 x2 in
      let x6 = round_pair bc 4 5 x4 in
      let x8 = round_pair bc 6 7 x6 in
      let x10 = round_pair bc 8 9 x8 in
      let x12 = round_pair bc 10 11 x10 in
      let x14 = round_pair bc 12 13 x12 in
      let h2 = round_pair-IsPair 0 1 x0 h0 in
      let h4 = round_pair-IsPair 2 3 x2 h2 in
      let h6 = round_pair-IsPair 4 5 x4 h4 in
      let h8 = round_pair-IsPair 6 7 x6 h6 in
      let h10 = round_pair-IsPair 8 9 x8 h8 in
      let h12 = round_pair-IsPair 10 11 x10 h10 in
      let h14 = round_pair-IsPair 12 13 x12 h12 in
      rw
        (
          round_pair-undo 14 15 16 17 x14 h14,
          round_pair-undo 12 13 14 15 x12 h12,
          round_pair-undo 10 11 12 13 x10 h10,
          round_pair-undo 8 9 10 11 x8 h8,
          round_pair-undo 6 7 8 9 x6 h6,
          round_pair-undo 4 5 6 7 x4 h4,
          round_pair-undo 2 3 4 5 x2 h2,
          round_pair-undo 0 1 2 3 x0 h0,
        )
        (whiten-undo 0 1 x0 h0)

  pub do_encrypt-IsPair : (x : ℕ × ℕ) → IsPair x → IsPair (do_encrypt bc x)
  unfolding do_encrypt
  do_encrypt-IsPair x h = whiten-IsPair 16 17 _ (
      round_pair-IsPair 14 15 _ (
        round_pair-IsPair 12 13 _ (
          round_pair-IsPair 10 11 _ (
            round_pair-IsPair 8 9 _ (
              round_pair-IsPair 6 7 _
                (round_pair-IsPair 4 5 _ (round_pair-IsPair 2 3 _ (round_pair-IsPair 0 1 x h))))))))
