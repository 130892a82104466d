-- ===== src/Blowfish/Repeated.antt =====
-- The key schedule of crypto/blowfish.c reads the key as if it were repeated without an end.
use sparkle.Prelude.{ℕ, ◌+◌, ◌*◌, ◌%◌, ◌^◌, length}
use sparkle.Prelude.Bytes.{Bytes, byte_at}

-- The byte at a place of the key's endless repetition, and the `i`-th word of it, the highest byte first.
abbrev pub repeated : Bytes → ℕ → ℕ
repeated key i = byte_at key (i % length key)

abbrev pub repeated_word : Bytes → ℕ → ℕ
repeated_word key i =
    repeated key (4 * i) * 2 ^ 24
    + repeated key (4 * i + 1) * 2 ^ 16
    + repeated key (4 * i + 2) * 2 ^ 8
    + repeated key (4 * i + 3)
