-- ===== src/Link/Join/Pings.antt =====
-- LinkLayer.cpp: doPing, and the answer to a request for pings.
use mathlib.Core.List.{append-nil, append_assoc}
use sparkle.Prelude.{
  ℕ, zero, suc, ◌≡◌, refl, false, [], ◌∷◌, ◌++◌, some, replicate, ltb, if◌then◌else◌, Bool-cases,
  inl, inr,
}
use sparkle.Wire.{ping, frame, endpoint_t}
use sparkle.World.{Ref, SparkleNode, World, Environment, Event, datagram, done}
use sparkle.Router.{is_self}
use sparkle.Node.{phantom_ip, phantom_port}
use sparkle.Link.Send.{send_packet}
use sparkle.Link.Join.{repeat, send_ping, do_ping, endpoint_of}

-- One ping, which tells a node the endpoint under which it is known.
abbrev pub ping_event : Environment → SparkleNode → Event
ping_event env n =
    datagram (frame ping (endpoint_t env.memory (endpoint_of n))) (phantom_ip n) (phantom_port n)

module _ (env : Environment) (r : Ref) (n : SparkleNode) where
  repeat-pings :
      (k : ℕ) (w : World)
      → w.heap r ≡ some n
      → is_self w.router.self r ≡ false
      → repeat k (send_ping env r) w
        ≡ done tt (record w { events = w.events ++ replicate k (ping_event env n) })
  unfolding repeat send_ping send_packet
  repeat-pings zero w e s = rw (append-nil w.events) refl
  repeat-pings (suc k) w e s =
      rw (e, s, e, ← append_assoc w.events (ping_event env n ∷ []) (replicate k (ping_event env n)))
        (repeat-pings k (record w { events = w.events ++ ping_event env n ∷ [] }) e s)

  -- A node is pinged exactly as often as was asked, up to sixteen times, and not at all for more. Nothing
  -- else changes.
  pub do_ping-pings :
      (count : ℕ) (w : World)
      → w.heap r ≡ some n
      → is_self w.router.self r ≡ false
      → do_ping env r count w
        ≡ done tt (record w {
          events = w.events ++ (if ltb 16 count then [] else replicate count (ping_event env n));
        })
  unfolding do_ping
  do_ping-pings count w e s = elim (Bool-cases (ltb 16 count)) [
    | inl many ↦ rw (many, e, append-nil w.events) refl
    | inr few ↦ rw few (repeat-pings count w e s)
  ]
