-- ===== src/Node/OwnAddress.antt =====
-- SparkleNode.cpp: the address that a node makes of its key.
use sparkle.Prelude.{ℕ, ◌/◌, ◌%◌, ◌≤◌, ◌≡◌, refl, false, [], ◌∷◌, arith, length, take, drop}
use sparkle.Prelude.Bytes.{Bytes, IsBytes, byte_at}
use sparkle.Address.{SparkleAddress, all_zero, is_null, of_bytes}
use sparkle.World.{Environment}
use sparkle.Node.{address_from_key, local_unicast}

-- An address of a node: six bytes, of which the first is that of a unicast address that no
-- manufacturer has, and the others are those of the hash.
pub record IsOwnAddress (hash : Bytes) (a : SparkleAddress) : Type 0 where
  size : length a.bytes ≡ 6
  bytes : IsBytes a.bytes
  kind : byte_at a.bytes 0 % 4 ≡ 2
  high : byte_at a.bytes 0 / 4 ≡ byte_at hash 0 / 4
  rest : drop 1 a.bytes ≡ drop 1 (take 6 hash)
  not_null : is_null a ≡ false

of_hash :
    (a b c d e f : ℕ) (xs : Bytes)
    → IsBytes (a ∷ b ∷ c ∷ d ∷ e ∷ f ∷ xs)
    → let hash = a ∷ b ∷ c ∷ d ∷ e ∷ f ∷ xs in
      IsOwnAddress hash (of_bytes [] (local_unicast (take 6 hash)))
unfolding of_bytes local_unicast is_null all_zero
of_hash a b c d e f xs (ha, (hb, (hc, (hd, (he, (hf, hs)))))) = record {
  size = refl;
  bytes = (omega arith, (hb, (hc, (hd, (he, (hf, tt))))));
  kind = omega arith;
  high = omega arith;
  rest = refl;
  not_null = ground arith;
}

of_list :
    (hash : Bytes)
    → 6 ≤ length hash
    → IsBytes hash
    → IsOwnAddress hash (of_bytes [] (local_unicast (take 6 hash)))
of_list (a ∷ b ∷ c ∷ d ∷ e ∷ f ∷ xs) h k = of_hash a b c d e f xs k
of_list [] h k = absurd (omega arith)
of_list (a ∷ []) h k = absurd (omega arith)
of_list (a ∷ b ∷ []) h k = absurd (omega arith)
of_list (a ∷ b ∷ c ∷ []) h k = absurd (omega arith)
of_list (a ∷ b ∷ c ∷ d ∷ []) h k = absurd (omega arith)
of_list (a ∷ b ∷ c ∷ d ∷ e ∷ []) h k = absurd (omega arith)

module _ (env : Environment) (key : Bytes) where
  -- The address that is made of a key has six bytes, the first with the two low bits of a locally
  -- administered unicast address and the rest from the hash of the key, and it is never null.
  pub address_from_key-IsOwnAddress :
      6 ≤ length (env.sha1 key)
      → IsBytes (env.sha1 key)
      → IsOwnAddress (env.sha1 key) (address_from_key env key)
  unfolding address_from_key
  address_from_key-IsOwnAddress h k = of_list (env.sha1 key) h k
