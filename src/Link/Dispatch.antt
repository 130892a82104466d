-- ===== src/Link/Dispatch.antt =====
-- LinkLayer.cpp: handlePacket, and the table of its handlers.
pub mod Table
pub mod Clear
pub mod Sealed
pub mod Delivery
use sparkle.Prelude.{
  ℕ, suc, ◌+◌, Bool, true, false, not, ◌&&◌, ◌||◌, List, [], ◌∷◌, Option, none, some, length, take,
  drop, ◌==◌, ltb, leb, if◌then◌else◌,
}
use sparkle.Prelude.Bytes.{Bytes}
use sparkle.Cipher.{SessionCipher}
use sparkle.Wire
use sparkle.Wire.{PacketType, code, encrypted_packet, header_type, header_length}
use sparkle.World.{
  Ref, HostAddress, SparkleNode, World, Environment, M, pure, ◌>>=◌, ◌>>◌, skip, deref,
}
use sparkle.Link.Send
use sparkle.Link.Keys
use sparkle.Link.Join
use sparkle.Link.Routes
use sparkle.Link.Peers

-- packet_handler_t, without the handler, which `handler` gives.
pub record Entry : Type 0 where
  pub type : PacketType
  pub encrypted : Bool

abbrev entry : PacketType → Bool → Entry
entry t e = record { type = t; encrypted = e }

-- packetHandlers[]
unfoldable pub packet_handlers : List Entry
packet_handlers =
    entry Wire.protocol_version_request false
    ∷ entry Wire.protocol_version_reply false
    ∷ entry Wire.public_key_exchange false
    ∷ entry Wire.session_key_exchange false
    ∷ entry Wire.ping false
    ∷ entry Wire.keepalive_packet false
    ∷ entry Wire.local_rewrite_packet true
    ∷ entry Wire.master_node_request true
    ∷ entry Wire.master_node_reply true
    ∷ entry Wire.ping_request true
    ∷ entry Wire.ping_initiate true
    ∷ entry Wire.register_request true
    ∷ entry Wire.register_reply true
    ∷ entry Wire.route true
    ∷ entry Wire.route_request true
    ∷ entry Wire.route_missing true
    ∷ entry Wire.route_invalidate true
    ∷ entry Wire.role_update true
    ∷ entry Wire.keepalive_packet true
    ∷ entry Wire.backlink_redirect true
    ∷ entry Wire.exit_notification true
    ∷ entry Wire.data_packet true
    ∷ []

abbrev bool_eq : Bool → Bool → Bool
bool_eq true b = b
bool_eq false b = not b

-- The first entry for a type code and a way of arrival.
unfoldable pub find_entry : List Entry → ℕ → Bool → Option PacketType
find_entry [] t e = none
find_entry (x ∷ xs) t e =
    if (code x.type == t) && bool_eq x.encrypted e then some x.type else find_entry xs t e

-- A packet whose length field is its size.
unfoldable pub is_well_formed : Bytes → Bool
is_well_formed xs = leb 4 (length xs) && (header_length xs == length xs)

-- The alignment bytes behind a decrypted packet are cut off.
unfoldable pub trim : Bytes → Bytes
trim xs =
    if ltb (header_length xs) (length xs) && ltb (length xs) (header_length xs + 8)
    then take (header_length xs) xs
    else xs

module _ (env : Environment) where
  open env use {cipher}

  -- The handler of each type; EncryptedPacket has none.
  unfoldable pub handler : PacketType → Bytes → Ref → M (Unit {0})
  handler Wire.protocol_version_request = Join.handle_protocol_version_request env
  handler Wire.protocol_version_reply = Join.handle_protocol_version_reply env
  handler Wire.public_key_exchange = Keys.handle_public_key_exchange env
  handler Wire.session_key_exchange = Keys.handle_session_key_exchange env
  handler Wire.ping = Join.handle_ping env
  handler Wire.encrypted_packet = λ _ _. skip
  handler Wire.local_rewrite_packet = Keys.handle_local_rewrite_packet env
  handler Wire.master_node_request = Join.handle_master_node_request env
  handler Wire.master_node_reply = Join.handle_master_node_reply env
  handler Wire.ping_request = Join.handle_ping_request env
  handler Wire.ping_initiate = Join.handle_ping_initiate env
  handler Wire.register_request = Routes.handle_register_request env
  handler Wire.register_reply = Join.handle_register_reply env
  handler Wire.route = Routes.handle_route env
  handler Wire.route_request = Peers.handle_route_request env
  handler Wire.route_invalidate = Peers.handle_route_invalidate env
  handler Wire.route_missing = Peers.handle_route_missing env
  handler Wire.role_update = Peers.handle_role_update env
  handler Wire.exit_notification = Peers.handle_exit_notification env
  handler Wire.keepalive_packet = Peers.handle_keepalive env
  handler Wire.backlink_redirect = Peers.handle_backlink_redirect env
  handler Wire.data_packet = Peers.handle_data_packet env

  -- The walk over the table.
  unfoldable pub dispatch : ℕ → Bool → Bytes → Ref → M (Unit {0})
  dispatch t encrypted payload r = elim (find_entry packet_handlers t encrypted) [
    | some type ↦ handler type payload r
    | none ↦ skip
  ]

  -- handlePacket of decrypted data: another EncryptedPacket in it is dropped.
  unfoldable pub handle_inner : Bytes → HostAddress → ℕ → M (Unit {0})
  handle_inner xs host port = if not (is_well_formed xs) then skip else (do
    r ← Send.wrap_node env host port
    if header_type xs == code encrypted_packet
        then skip
        else dispatch (header_type xs) true (drop 4 xs) r)

  unfoldable pub handle_encrypted : Bytes → HostAddress → ℕ → Ref → M (Unit {0})
  handle_encrypted payload host port r = do
    n ← deref r
    if not n.keys_negotiated
        then skip
        else (let xs = cipher.decrypt n.his_session_key payload in
            if ltb (length xs) 4 || (ltb (header_length xs) 4 || ltb (length xs) (header_length xs))
            then skip
            else handle_inner (trim xs) host port)

  -- handlePacket of a datagram.
  unfoldable pub handle_packet : Bytes → HostAddress → ℕ → M (Unit {0})
  handle_packet xs host port = if not (is_well_formed xs) then skip else (do
    r ← Send.wrap_node env host port
    if header_type xs == code encrypted_packet
        then handle_encrypted (drop 4 xs) host port r
        else dispatch (header_type xs) false (drop 4 xs) r)
