-- ===== src/Blowfish/Key.antt =====
-- BlowfishKey.cpp: a session key, and the cipher run over whole byte arrays.
pub mod RoundTrip
pub mod Session
use sparkle.Prelude.{
  ℕ, zero, suc, ◌+◌, ◌-◌, ◌%◌, List, [], ◌∷◌, ◌++◌, length, take, drop, ◌==◌, if◌then◌else◌,
}
use sparkle.Prelude.Bytes.{Bytes, memory_from}
use sparkle.Blowfish.{Context, do_bf_setkey, do_encrypt_block, do_decrypt_block}

-- BlowfishKeyPrivate: the bytes and the schedule that cb_setkey made of them.
pub record BlowfishKey : Type 0 where
  pub raw_key : Bytes
  pub key : Context

-- The weak-key result of the schedule is not looked at.
pub set_bytes : Bytes → BlowfishKey
set_bytes raw = record { raw_key = raw; key = (do_bf_setkey raw).0 }

-- One call of the cipher for each eight bytes; the last one reads on past the end of a short rest.
-- Each round takes at least one byte, so `length data` rounds are enough.
pub each_block : (Bytes → Bytes) → (ℕ → ℕ) → ℕ → Bytes → Bytes
each_block f memory zero xs = []
each_block f memory (suc n) [] = []
each_block f memory (suc n) (x ∷ xs) =
    f (take 8 ((x ∷ xs) ++ memory_from memory 0 8)) ++ each_block f memory n (drop 8 (x ∷ xs))

-- `resize` to the next multiple of eight; `memory` is what the added bytes happen to hold.
pub pad : (ℕ → ℕ) → Bytes → Bytes
pad memory xs = if length xs % 8 == 0 then xs else xs ++ memory_from memory 0 (8 - length xs % 8)

pub encrypt : (ℕ → ℕ) → BlowfishKey → Bytes → Bytes
encrypt memory k xs =
    let ys = pad memory xs in each_block (do_encrypt_block k.key) memory (length ys) ys

pub decrypt : (ℕ → ℕ) → BlowfishKey → Bytes → Bytes
decrypt memory k xs = each_block (do_decrypt_block k.key) memory (length xs) xs
