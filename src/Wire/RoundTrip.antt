-- ===== src/Wire/RoundTrip.antt =====
-- The packets of LinkLayer.h read back.
use sparkle.Prelude.{
  ℕ, ◌+◌, ◌^◌, ◌<◌, ◌≡◌, refl, Bool, true, false, [], ◌∷◌, ◌++◌, length, drop, arith,
}
use sparkle.Prelude.Bytes.{Bytes, of_bool, to_bool}
use sparkle.Address.{SparkleAddress}
use sparkle.Wire.{
  PacketType, code, frame, header_type, header_length, KeyExchange, key_exchange_t,
  read_key_exchange, Endpoint, endpoint_t, read_endpoint, PingRequest, ping_request_t,
  read_ping_request, RegisterReply, register_reply_t, read_register_reply, Route, route_t,
  read_route,
}

-- A 16-bit port, a 32-bit address.
abbrev pub InRange : Endpoint → Type 0
InRange e = (e.addr < 2 ^ 32) × (e.port < 2 ^ 16)

-- Six bytes, as the address they make.
abbrev pub mac : (a b c d e f : ℕ) → SparkleAddress
mac a b c d e f = record { bytes = a ∷ b ∷ c ∷ d ∷ e ∷ f ∷ [] }

to_bool-of_bool : (b : Bool) → to_bool (of_bool b) ≡ b
to_bool-of_bool true = refl
to_bool-of_bool false = refl

code-lt : (t : PacketType) → code t < 31
code-lt t = ground arith

-- A frame of less than 2^16 bytes has its type and its size in its header, and the data behind it.
pub frame-fields :
    (t : PacketType) (xs : Bytes)
    → length xs + 4 < 2 ^ 16
    → (header_type (frame t xs) ≡ code t)
      × (header_length (frame t xs) ≡ length (frame t xs))
      × (drop 4 (frame t xs) ≡ xs)
unfolding frame
frame-fields t xs h = (omega (arith, code-lt t), omega arith, refl)

-- An endpoint reads back.
pub read-endpoint_t :
    (memory : ℕ → ℕ) (e : Endpoint) → InRange e → read_endpoint (endpoint_t memory e) ≡ e
read-endpoint_t memory e h = ground arith

-- A ping request for up to 255 pings reads back.
pub read-ping_request_t :
    (memory : ℕ → ℕ) (r : PingRequest)
    → InRange r.target
    → r.count < 256
    → read_ping_request (ping_request_t memory r) ≡ r
read-ping_request_t memory r h k = ground arith

-- A key exchange reads back, and the key behind it.
pub read-key_exchange_t :
    (memory : ℕ → ℕ) (k : KeyExchange) (key : Bytes)
    → k.cookie < 2 ^ 32
    → (read_key_exchange (key_exchange_t memory k ++ key) ≡ k)
      × (drop 8 (key_exchange_t memory k ++ key) ≡ key)
read-key_exchange_t memory k key h = (ground (arith, to_bool-of_bool k.need_others_key), refl)

-- A register reply with a divisor of one byte reads back.
pub read-register_reply_t :
    (memory : ℕ → ℕ) (divisor : ℕ) (m : Bool) (a b c d e f : ℕ) (x : Endpoint)
    → divisor < 256
    → InRange x
    → let r : RegisterReply = record {
      network_divisor = divisor;
      is_master = m;
      sparkle_mac = mac a b c d e f;
      real = x;
    } in
      read_register_reply (register_reply_t memory r) ≡ r
read-register_reply_t memory divisor m a b c d e f x h k = ground (arith, to_bool-of_bool m)

-- A route reads back, its three flags included.
pub read-route_t :
    (memory : ℕ → ℕ) (a b c d e f : ℕ) (x : Endpoint) (m n t : Bool)
    → InRange x
    → let r : Route = record {
      sparkle_mac = mac a b c d e f;
      real = x;
      is_master = m;
      is_behind_nat = n;
      tunnel_request = t;
    } in
      read_route (route_t memory r) ≡ r
read-route_t memory a b c d e f x m n t h = ground arith
