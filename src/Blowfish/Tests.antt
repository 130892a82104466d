-- ===== src/Blowfish/Tests.antt =====
-- Runs of the cipher.
use sparkle.Prelude.{Bool, ◌≡◌, refl, [], ◌∷◌}
use sparkle.Prelude.Bytes.{Bytes}
use sparkle.Blowfish.{
  Context, do_bf_setkey, mix_key, key_word, fill, do_encrypt, round_pair, round, whiten, function_f,
  occurs, repeats, do_encrypt_block,
}
use sparkle.Blowfish.Tables.{ks0, ks1, ks2, ks3, ps}

-- "abcdefghijklmnopqrstuvwxyz"
abbrev alphabet : Bytes
alphabet =
    97 ∷ 98 ∷ 99 ∷ 100 ∷ 101 ∷ 102 ∷ 103 ∷ 104 ∷ 105 ∷ 106 ∷ 107 ∷ 108 ∷ 109 ∷ 110 ∷ 111 ∷ 112 ∷ 113
    ∷ 114 ∷ 115 ∷ 116 ∷ 117 ∷ 118 ∷ 119 ∷ 120 ∷ 121 ∷ 122 ∷ []

schedule : Context × Bool
unfolding do_bf_setkey mix_key key_word fill do_encrypt round_pair round whiten function_f occurs
    repeats ks0 ks1 ks2 ks3 ps
schedule = do_bf_setkey alphabet

cipher : Bytes
unfolding schedule do_encrypt_block
cipher = do_encrypt_block schedule.0 (66 ∷ 76 ∷ 79 ∷ 87 ∷ 70 ∷ 73 ∷ 83 ∷ 72 ∷ [])

known_answer : cipher ≡ 0x32 ∷ 0x4e ∷ 0xd0 ∷ 0xfe ∷ 0xf4 ∷ 0x13 ∷ 0xa2 ∷ 0x03 ∷ []
unfolding cipher
known_answer = refl
