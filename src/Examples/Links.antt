-- ===== src/Examples/Links.antt =====
-- Runs of LinkLayer.cpp in the small network.
use sparkle.Prelude.{
  take, drop, ℕ, ◌≡◌, ◌≢◌, refl, true, false, [], ◌∷◌, ◌++◌, some, arith, if◌then◌else◌,
}
use sparkle.Prelude.Bytes.{Bytes}
use sparkle.Address.{SparkleAddress, address_eq, is_null}
use sparkle.Wire
use sparkle.Wire.{frame, data_packet_t, encrypted_packet, read_key_exchange}
use sparkle.World.{null_host, ipv4, World, done, fault, datagram, ◌>>=◌, skip}
use sparkle.World.Refs.{Returns}
use sparkle.Router
use sparkle.Router.Selection.{keep, selected}
use sparkle.Node
use sparkle.Link.Send.{send_encrypted_packet, wrap_node, cleanup, lookup_cookie}
use sparkle.Link.Send.Quiet.{Step}
use sparkle.Link.Send.Steps.{send_encrypted_packet-Step}
use sparkle.Link.Send.Wrap.{Wrapped, wrap_node-Wrapped}
use sparkle.Link.Send.Cleanup.{Cleaned, cleanup-Cleaned, cleanup_fault}
use sparkle.Link.Send.Direct.{sealed_packet}
use sparkle.Link.Keys.{handle_session_key_exchange, handle_public_key_exchange}
use sparkle.Link.Keys.Flush.{Settled, notices, own_key, sealed, handle_session_key_exchange-Settled}
use sparkle.Link.Keys.Replies.{
  Answered, handle_public_key_exchange-unsolicited, handle_public_key_exchange-Answered,
}
use sparkle.Link.Join.{handle_protocol_version_reply}
use sparkle.Link.Keys.Exposure.{send_session_key_exchange-exposes}
use sparkle.Link.Send.{send_session_key_exchange}
use sparkle.Link.Join.Version.{handle_protocol_version_reply_mismatch}
use sparkle.Link.Routes.{queued, enqueue, send_route_request, release_queue}
use sparkle.Link.Routes.Queue.{Released, release_queue-Released}
use sparkle.Link.Peers.{send_data_packet, send_route_missing, handle_route_missing}
use sparkle.Link.Peers.Missing.{send_route_missing-rejected}
use sparkle.Link.Peers.Waiting.{wait, send_data_packet-queued}
use sparkle.Link.Dispatch.{handle_packet}
use sparkle.Link.Dispatch.Clear.{handle_packet-clear}
use sparkle.Examples.{
  environment, joined, joining, self, keyed, unkeyed, master, mac_of, joined-IsSound,
}

-- A slave sends to another slave whose keys it has not; here a master does, and asks for the key.
send_encrypted_packet-Step_example :
    Returns
      (λ _ v. Step environment joined v)
      (send_encrypted_packet environment Wire.data_packet (1 ∷ 2 ∷ []) 3 false joined)
send_encrypted_packet-Step_example =
    send_encrypted_packet-Step environment joined joined-IsSound 3 unkeyed refl Wire.data_packet
      (1 ∷ 2 ∷ []) false

-- A session key of four bytes, and the wish for this node's own.
abbrev session_payload : Bytes
session_payload = 1 ∷ 0 ∷ 0 ∷ 0 ∷ 0 ∷ 0 ∷ 0 ∷ 0 ∷ 8 ∷ 8 ∷ 8 ∷ 8 ∷ []

handle_session_key_exchange-Settled_example :
    let key = record unkeyed { his_session_key = 8 ∷ 8 ∷ 8 ∷ 8 ∷ []; keys_negotiated = true } in
    Returns
      (λ _ v.
        Settled joined 3 key
          (notices (1 ∷ 2 ∷ 3 ∷ 4 ∷ []) 3
            ++ (own_key environment true key ++ sealed environment key ((5 ∷ []) ∷ (6 ∷ []) ∷ [])))
          v)
      (handle_session_key_exchange environment session_payload 3 joined)
handle_session_key_exchange-Settled_example =
    handle_session_key_exchange-Settled environment 3 unkeyed session_payload joined (omega arith)
      refl refl refl

-- An answer with the cookie 12, which nobody has asked for, and one with the cookie 11.
abbrev answer_payload : ℕ → Bytes
answer_payload cookie = 0 ∷ 0 ∷ 0 ∷ 0 ∷ 0 ∷ 0 ∷ 0 ∷ cookie ∷ 7 ∷ 7 ∷ []

handle_public_key_exchange-unsolicited_example :
    handle_public_key_exchange environment (answer_payload 12) 3 joined ≡ done tt joined
unfolding lookup_cookie
handle_public_key_exchange-unsolicited_example =
    handle_public_key_exchange-unsolicited environment 3 (answer_payload 12) joined refl refl

handle_public_key_exchange-Answered_example :
    Returns
      (λ _ v.
        Answered environment joined 3
          (record unkeyed { auth_key = 7 ∷ 7 ∷ []; auth_key_present = true })
          11
          v)
      (handle_public_key_exchange environment (answer_payload 11) 3 joined)
unfolding lookup_cookie
handle_public_key_exchange-Answered_example =
    handle_public_key_exchange-Answered environment 3 unkeyed (answer_payload 11) joined
      (7 ∷ 7 ∷ []) (omega arith) refl refl refl refl refl refl

wrap_node-Wrapped_example :
    Returns
      (λ r v. Wrapped environment (ipv4 9) 1801 joined r v)
      (wrap_node environment (ipv4 9) 1801 joined)
wrap_node-Wrapped_example =
    wrap_node-Wrapped environment (ipv4 9) 1801 joined
      ((keyed, refl), ((unkeyed, refl), ((master, refl), tt))) refl

cleanup-Cleaned_example : Returns (λ _ v. Cleaned joining v) (cleanup joining)
cleanup-Cleaned_example =
    cleanup-Cleaned joining ((master, refl), ((unkeyed, refl), tt)) (refl, (refl, tt)) refl

-- The router's first node is in the spool.
abbrev entangled : World
entangled = record joined { router = record { self = some 2; nodes = 2 ∷ 4 ∷ [] } }

cleanup_fault_example : cleanup entangled ≡ fault
cleanup_fault_example =
    cleanup_fault entangled ((keyed, refl), ((unkeyed, refl), ((master, refl), tt)))
      (refl, (refl, (refl, tt))) 2 (4 ∷ []) refl refl

handle_protocol_version_reply_mismatch_example :
    handle_protocol_version_reply environment (0 ∷ 0 ∷ 0 ∷ 14 ∷ []) 4 joining ≡ fault
handle_protocol_version_reply_mismatch_example =
    handle_protocol_version_reply_mismatch environment (0 ∷ 0 ∷ 0 ∷ 14 ∷ []) 4 joining refl refl
      refl refl ((master, refl), ((unkeyed, refl), tt)) (refl, (refl, tt)) refl

send_route_missing-rejected_example :
    (send_route_missing environment 2 (mac_of 9) joined
      ≡ done tt (record joined {
        events =
            datagram
              (sealed_packet environment keyed Wire.route_missing (2 ∷ 9 ∷ 0 ∷ 0 ∷ 0 ∷ 9 ∷ 0 ∷ []))
              (ipv4 2)
              1801
            ∷ [];
      }))
    × (handle_route_missing environment (2 ∷ 9 ∷ 0 ∷ 0 ∷ 0 ∷ 9 ∷ 0 ∷ []) 4 joined ≡ done tt joined)
unfolding Node.phantom_ip Node.phantom_port
send_route_missing-rejected_example =
    send_route_missing-rejected environment environment joined joined 2 4 keyed (mac_of 9) refl refl
      refl refl

release_queue-Released_example :
    Returns
      (λ _ v. Released environment joined (mac_of 2) keyed v)
      (release_queue environment (mac_of 2) 2 joined)
release_queue-Released_example =
    release_queue-Released environment joined (mac_of 2) 2 keyed refl refl refl

masters_of_joined : selected Router.masters null_host joined ≡ 1 ∷ 4 ∷ []
unfolding keep Router.excluded
masters_of_joined = refl

some_master : selected Router.masters null_host joined ≢ []
some_master e = cc masters_of_joined

send_data_packet-queued_example :
    (send_data_packet environment (mac_of 9) 6 (42 ∷ []) joined
      ≡ send_route_request environment
          (mac_of 9)
          (wait joined (enqueue (mac_of 9) (0 ∷ 6 ∷ 42 ∷ []) joined.link.queued_data)))
    × Returns
        (λ _ v.
          (b : SparkleAddress)
          → queued b v.link.queued_data ≡ (
              if address_eq (mac_of 9) b
              then queued b joined.link.queued_data ++ (0 ∷ 6 ∷ 42 ∷ []) ∷ []
              else queued b joined.link.queued_data))
        (send_data_packet environment (mac_of 9) 6 (42 ∷ []) joined)
unfolding is_null
send_data_packet-queued_example =
    send_data_packet-queued environment joined (mac_of 9) 6 (42 ∷ []) joined-IsSound some_master
      refl
      (
        (self, refl, refl),
        ((keyed, refl, refl), ((unkeyed, refl, refl), ((master, refl, refl), tt))),
      )

-- A route in clear has no handler.
handle_packet-clear_example :
    handle_packet environment (frame Wire.route (1 ∷ 2 ∷ [])) (ipv4 2) 1801 joined
    ≡ (wrap_node environment (ipv4 2) 1801 >>= λ r. skip) joined
handle_packet-clear_example =
    handle_packet-clear environment (ipv4 2) 1801 Wire.route (1 ∷ 2 ∷ []) joined (omega arith) refl
      (λ e. cc)

send_session_key_exchange-exposes_example :
    (seen : Bytes) × (send_session_key_exchange environment 2 true joined
      ≡ done tt (record joined { events = datagram seen (ipv4 2) 1801 ∷ [] }))
    × (take 6 (
          environment.cipher.decrypt
            (drop 12 seen)
            (drop 4 (sealed_packet environment keyed Wire.data_packet (42 ∷ 43 ∷ []))))
        ≡ frame Wire.data_packet (42 ∷ 43 ∷ []))
unfolding Node.phantom_ip Node.phantom_port frame
send_session_key_exchange-exposes_example =
    send_session_key_exchange-exposes environment joined 2 keyed true Wire.data_packet
      (42 ∷ 43 ∷ []) refl refl (omega arith) (omega arith)
