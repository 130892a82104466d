-- ===== src/Examples/Joining.antt =====
-- LinkLayer.cpp: a node joins the network of another, packet by packet, up to the end of its
-- registration.
use sparkle.Prelude.{
  ℕ, zero, suc, ◌+◌, ◌≡◌, refl, Bool, true, false, List, [], ◌∷◌, ◌++◌, none, some, arith, length,
  replicate, take-length,
}
use sparkle.Cipher.{SessionCipher}
use sparkle.World.{
  HostAddress, ipv4, Event, datagram, World, Environment, Run, done, M, ◌>>◌, skip, join_finished,
  join_version_request,
}
use sparkle.Examples.{zeroes, session_key_of, link_layer}
use sparkle.Link.Send
use sparkle.Link.Keys
use sparkle.Link.Join
use sparkle.Link.Routes
use sparkle.Link.Dispatch
use sparkle.Link.Life
use sparkle.Router
use sparkle.Node
use sparkle.Wire
use sparkle.World
use sparkle.Link.Dispatch.{handle_packet}

-- A cipher that leaves the data as it is.
plain : SessionCipher
plain = record {
  encrypt = λ key xs. xs;
  decrypt = λ key xs. xs;
  take-decrypt-encrypt = λ key xs hk hx. take-length xs;
  length-decrypt-encrypt = λ key xs hk hx. omega arith;
}

-- A host by its address, with its key.
abbrev host : ℕ → Environment
host address = record {
  cipher = plain;
  read_key = λ xs. some xs;
  empty_key = [];
  host_key = address ∷ address ∷ [];
  sha1 = λ xs. xs ++ replicate 18 address;
  random = λ i. i + 5;
  session_key = session_key_of;
  memory = zeroes;
  transport_port = 1801;
  begins_receiving = true;
}

abbrev fresh : World
fresh = record {
  heap = λ r. none;
  next_ref = 1;
  router = record { self = none; nodes = [] };
  link = record (link_layer join_version_request [] []) { joined = false; cookies = [] };
  random_calls = 0;
  events = [];
}

-- The datagrams of one host arrive at the other, in their order.
abbrev arrive : Environment → HostAddress → List Event → M (Unit {0})
arrive env from [] = skip
arrive env from (datagram xs to port ∷ es) =
    let rest = arrive env from es in handle_packet env xs from 1801 >> rest
arrive env from (e ∷ es) = arrive env from es

abbrev ended : {A : Type 0} → Run A → World
ended (done a w) = w
ended _ = fresh

-- Both hosts; in a round the first answers what the second has sent, and the second the first's answer.
abbrev rounds : ℕ → World × World → World × World
rounds zero (a, b) = (a, b)
rounds (suc n) (a, b) =
    let a' = ended (arrive (host 1) (ipv4 2) b.events (record a { events = [] })) in
    let b' = ended (arrive (host 2) (ipv4 1) a'.events (record b { events = [] })) in
    rounds n (a', b')

start : World × World
start = (
  ended (Life.create_network (host 1) (ipv4 1) 10 fresh),
  ended (Life.join_network (host 2) (ipv4 1) 1801 false fresh),
)

after : ℕ → Bool × (ℕ × ℕ)
after n =
    let (a, b) = rounds n start in (b.link.joined, (length a.router.nodes, length b.router.nodes))

-- Six rounds are enough: version, both keys, the choice of a master, pings, registration. Each host then
-- knows both.
joins : after 6 ≡ (true, (2, 2))
unfolding plain start after Node.set_sparkle_mac Node.set_behind_nat Node.set_real_ip
    Node.set_real_port Node.set_his_session_key Node.set_master Node.push_queue Node.pop_queue
    Node.negotiation_start Node.negotiation_finished Node.store_auth_key Node.new_node
    Node.set_auth_key Node.configure Router.set_self_node Router.count Router.notify_node_updated
    Router.select Wire.frame World.for_each Dispatch.packet_handlers Dispatch.find_entry
    Dispatch.is_well_formed Dispatch.trim Dispatch.handler Dispatch.dispatch Dispatch.handle_inner
    Dispatch.handle_encrypted Dispatch.handle_packet Join.expecting Join.repeat
    Join.send_protocol_version_request Join.handle_protocol_version_request
    Join.send_master_node_request Join.handle_protocol_version_reply Join.send_master_node_reply
    Join.handle_master_node_request Join.send_ping_request Join.send_register_request
    Join.handle_master_node_reply Join.send_ping Join.do_ping Join.handle_ping_request
    Join.join_got_pinged Join.accept_ping Join.handle_ping Join.send_register_reply
    Join.adopt_endpoint Join.handle_register_reply Keys.has_size Keys.exceeds Keys.answered
    Keys.handle_public_key_exchange Keys.flush Keys.handle_session_key_exchange Life.join_network
    Life.create_network Routes.queued Routes.find_obsolete Routes.send_route Routes.choose_role
    Routes.handle_register_request Routes.release_queue Routes.open_tunnel Routes.route_target
    Routes.handle_route Send.insert_cookie Send.lookup_cookie Send.stands_for Send.spool_find
    Send.wants_tunnel Send.finish_shutdown Send.wrap_node Send.send_packet Send.encrypt_and_send
    Send.send_public_key_exchange Send.send_session_key_exchange Send.exchange_keys Send.negotiate
    Send.send_encrypted_fuel Send.send_encrypted_packet Send.send_encrypted
joins = refl
