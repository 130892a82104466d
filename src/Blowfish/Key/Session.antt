-- ===== src/Blowfish/Key/Session.antt =====
-- BlowfishKey.cpp as the session cipher of the link layer.
use sparkle.Prelude.{ℕ}
use sparkle.Prelude.Bytes.{IsByte}
use sparkle.Cipher.{SessionCipher}
use sparkle.Blowfish.Key.{encrypt, decrypt, set_bytes}
use sparkle.Blowfish.Key.RoundTrip.{decrypt-encrypt}

-- Each key's schedule is made of its bytes; the two memories are what padding and over-reads find at
-- the two ends.
abbrev pub session_cipher : (memory memory' : ℕ → ℕ) → ((i : ℕ) → IsByte (memory i)) → SessionCipher
session_cipher memory memory' bytes = record {
  encrypt = λ key xs. encrypt memory (set_bytes key) xs;
  decrypt = λ key xs. decrypt memory' (set_bytes key) xs;
  take-decrypt-encrypt = λ key xs hk hx. (decrypt-encrypt memory memory' bytes key xs hk hx).1;
  length-decrypt-encrypt = λ key xs hk hx. (decrypt-encrypt memory memory' bytes key xs hk hx).2;
}
