-- ===== src/Link/Dispatch/Table.antt =====
-- LinkLayer.cpp: which packets the handler table takes, in clear and encrypted.
use sparkle.Prelude.{
  ℕ, ◌≡◌, ◌≢◌, refl, Bool, true, false, List, [], ◌∷◌, none, some, arith, if◌then◌else◌,
}
use sparkle.Wire
use sparkle.Wire.{PacketType, code}
use sparkle.Link.Dispatch.{Entry, packet_handlers, find_entry}

-- What a node takes from anyone: versions, the key exchange, pings, keepalives.
abbrev pub in_clear : PacketType → Bool
in_clear Wire.protocol_version_request = true
in_clear Wire.protocol_version_reply = true
in_clear Wire.public_key_exchange = true
in_clear Wire.session_key_exchange = true
in_clear Wire.ping = true
in_clear Wire.keepalive_packet = true
in_clear _ = false

-- What it takes under a session key only, and keepalives.
abbrev pub under_key : PacketType → Bool
under_key Wire.protocol_version_request = false
under_key Wire.protocol_version_reply = false
under_key Wire.public_key_exchange = false
under_key Wire.session_key_exchange = false
under_key Wire.ping = false
under_key Wire.encrypted_packet = false
under_key _ = true

abbrev pub taken : PacketType → Bool → Bool
taken t true = under_key t
taken t false = in_clear t

-- At the code of a type the table has that type's handler, or none where it is not taken this way.
pub find_entry-code :
    (t : PacketType) (e : Bool)
    → find_entry packet_handlers (code t) e ≡ (if taken t e then some t else none)
unfolding find_entry packet_handlers
find_entry-code Wire.ping true = refl
find_entry-code Wire.ping false = refl
find_entry-code t true = refl
find_entry-code t false = refl

find_entry-other :
    (xs : List Entry) (n : ℕ) (e : Bool)
    → ((t : PacketType) → code t ≢ n)
    → find_entry xs n e ≡ none
unfolding find_entry
find_entry-other [] n e h = refl
find_entry-other (x ∷ xs) n e h = ground (arith, h x.type, find_entry-other xs n e h)
