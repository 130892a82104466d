-- ===== src/Cipher.antt =====
-- The interface between the link layer and the session cipher (BlowfishKey in libsparkle).
use sparkle.Prelude.{◌+◌, ◌<◌, ◌≡◌, length, take}
use sparkle.Prelude.Bytes.{Bytes, IsBytes}

-- Keys stand for themselves as bytes. A key makes a cipher text of whole blocks of eight bytes.
pub record SessionCipher : Type 0 where
  pub encrypt : Bytes → Bytes → Bytes
  pub decrypt : Bytes → Bytes → Bytes
  pub take-decrypt-encrypt :
      (key xs : Bytes)
      → IsBytes key
      → IsBytes xs
      → take (length xs) (decrypt key (encrypt key xs)) ≡ xs
  pub length-decrypt-encrypt :
      (key xs : Bytes)
      → IsBytes key
      → IsBytes xs
      → length (decrypt key (encrypt key xs)) < length xs + 8
