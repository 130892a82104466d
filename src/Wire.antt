-- ===== src/Wire.antt =====
-- The packets of LinkLayer.h on the wire. The structures are not packed: fields stand at their
-- natural alignment, and the bytes between them are whatever `memory` holds.
pub mod RoundTrip
use sparkle.Prelude.{ℕ, suc, ◌+◌, ◌%◌, ◌^◌, Bool, List, [], ◌∷◌, ◌++◌, length, Option, none, some}
use sparkle.Prelude.Bytes.{Bytes, be16, be32, byte_at, word16_at, word32_at, of_bool, to_bool}
use sparkle.Address.{SparkleAddress, address_at}

pub data PacketType : Type 0 where
  protocol_version_request protocol_version_reply : PacketType
  public_key_exchange session_key_exchange : PacketType
  ping encrypted_packet local_rewrite_packet : PacketType
  master_node_request master_node_reply : PacketType
  ping_request ping_initiate : PacketType
  register_request register_reply : PacketType
  route route_request route_invalidate route_missing : PacketType
  role_update exit_notification keepalive_packet backlink_redirect data_packet : PacketType

abbrev pub code : PacketType → ℕ
code protocol_version_request = 1
code protocol_version_reply = 2
code public_key_exchange = 3
code session_key_exchange = 4
code ping = 5
code encrypted_packet = 10
code local_rewrite_packet = 11
code master_node_request = 12
code master_node_reply = 13
code ping_request = 14
code ping_initiate = 15
code register_request = 16
code register_reply = 17
code route = 18
code route_request = 19
code route_invalidate = 21
code route_missing = 22
code role_update = 23
code exit_notification = 24
code keepalive_packet = 25
code backlink_redirect = 26
code data_packet = 30

-- packet_header_t and the data behind it, as sendPacket and sendEncryptedPacket build them.
unfoldable pub frame : PacketType → Bytes → Bytes
frame t xs = be16 (code t) ++ (be16 ((4 + length xs) % 2 ^ 16) ++ xs)

abbrev pub header_type : Bytes → ℕ
header_type xs = word16_at xs 0

abbrev pub header_length : Bytes → ℕ
header_length xs = word16_at xs 2

-- protocol_version_reply_t
abbrev pub protocol_version_reply_t : ℕ → Bytes
protocol_version_reply_t version = be32 version

-- key_exchange_t: needOthersKey, three bytes of padding, cookie.
pub record KeyExchange : Type 0 where
  pub need_others_key : Bool
  pub cookie : ℕ

abbrev pub key_exchange_t : (ℕ → ℕ) → KeyExchange → Bytes
key_exchange_t memory k = of_bool k.need_others_key ∷ memory 1 ∷ memory 2 ∷ memory 3 ∷ be32 k.cookie

abbrev pub read_key_exchange : Bytes → KeyExchange
read_key_exchange xs = record { need_others_key = to_bool (byte_at xs 0); cookie = word32_at xs 4 }

-- An address and a port: master_node_reply_t, ping_t, route_invalidate_t and backlink_redirect_t,
-- each with two bytes of padding behind.
pub record Endpoint : Type 0 where
  pub addr : ℕ
  pub port : ℕ

abbrev pub endpoint_t : (ℕ → ℕ) → Endpoint → Bytes
endpoint_t memory e = be32 e.addr ++ (be16 e.port ++ (memory 6 ∷ memory 7 ∷ []))

abbrev pub read_endpoint : Bytes → Endpoint
read_endpoint xs = record { addr = word32_at xs 0; port = word16_at xs 4 }

-- ping_request_t
pub record PingRequest : Type 0 where
  pub target : Endpoint
  pub count : ℕ

abbrev pub ping_request_t : (ℕ → ℕ) → PingRequest → Bytes
ping_request_t memory r =
    be32 r.target.addr ++ (be16 r.target.port ++ ((r.count % 256) ∷ memory 7 ∷ []))

abbrev pub read_ping_request : Bytes → PingRequest
read_ping_request xs = record { target = read_endpoint xs; count = byte_at xs 6 }

-- register_request_t and role_update_t are one byte.
abbrev pub flag_t : Bool → Bytes
flag_t b = of_bool b ∷ []

abbrev pub read_flag : Bytes → Bool
read_flag xs = to_bool (byte_at xs 0)

-- register_reply_t
pub record RegisterReply : Type 0 where
  pub network_divisor : ℕ
  pub is_master : Bool
  pub sparkle_mac : SparkleAddress
  pub real : Endpoint

abbrev pub register_reply_t : (ℕ → ℕ) → RegisterReply → Bytes
register_reply_t memory r =
    (r.network_divisor % 256) ∷ of_bool r.is_master ∷ r.sparkle_mac.bytes
    ++ (be32 r.real.addr ++ (be16 r.real.port ++ (memory 14 ∷ memory 15 ∷ [])))

abbrev pub read_register_reply : Bytes → RegisterReply
read_register_reply xs = record {
  network_divisor = byte_at xs 0;
  is_master = to_bool (byte_at xs 1);
  sparkle_mac = address_at xs 2;
  real = record { addr = word32_at xs 8; port = word16_at xs 12 };
}

-- route_t
pub record Route : Type 0 where
  pub sparkle_mac : SparkleAddress
  pub real : Endpoint
  pub is_master : Bool
  pub is_behind_nat : Bool
  pub tunnel_request : Bool

abbrev pub route_t : (ℕ → ℕ) → Route → Bytes
route_t memory r =
    r.sparkle_mac.bytes
    ++ (memory 6 ∷ memory 7 ∷ be32 r.real.addr
        ++ (be16 r.real.port
            ++ (of_bool r.is_master
                ∷ of_bool r.is_behind_nat
                ∷ of_bool r.tunnel_request
                ∷ memory 17
                ∷ memory 18
                ∷ memory 19
                ∷ [])))

abbrev pub read_route : Bytes → Route
read_route xs = record {
  sparkle_mac = address_at xs 0;
  real = record { addr = word32_at xs 8; port = word16_at xs 12 };
  is_master = to_bool (byte_at xs 14);
  is_behind_nat = to_bool (byte_at xs 15);
  tunnel_request = to_bool (byte_at xs 16);
}

-- data_packet_t
abbrev pub data_packet_t : ℕ → Bytes
data_packet_t encapsulation = be16 encapsulation
