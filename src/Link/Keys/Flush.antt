-- ===== src/Link/Keys/Flush.antt =====
-- LinkLayer.cpp: what waited for the keys of a node leaves when its session key arrives.
use mathlib.Core.List.{append-nil, append_assoc}
use sparkle.Prelude.{
  ◌<◌, ◌≡◌, refl, sym, ap, ◌∙◌, Bool, true, false, List, [], ◌∷◌, ◌++◌, map, some, arith, length,
  drop, ◌==◌, ltb-true, if◌then◌else◌, inl, inr, ==_refl, Bool-cases,
}
use sparkle.Prelude.Bytes.{Bytes, of_bool}
use sparkle.Wire.{frame, encrypted_packet, session_key_exchange, read_key_exchange}
use sparkle.World
use sparkle.World.{
  ◌>>=◌, ◌>>◌, Ref, HostAddress, Router, SparkleNode, LinkLayer, World, Environment, Run, M,
  and_then, fault, fatal, out_of_fuel, Event, datagram, node_updated, write, deref, at_node,
  contains, remove_one, done, for_each,
}
use sparkle.World.Refs.{Returns, bind, weaken}
use sparkle.Router.{is_self, notify_node_updated}
use sparkle.Node
use sparkle.Node.{phantom_ip, phantom_port, set_his_session_key}
use sparkle.Link.Send.{send_packet, encrypt_and_send, send_session_key_exchange, finish_shutdown}
use sparkle.Link.Keys.{forget_negotiation, flush, exceeds, handle_session_key_exchange}

-- The datagrams of packets that wait at a node.
abbrev pub sealed : Environment → SparkleNode → List Bytes → List Event
sealed env n = map (λ x.
    datagram (frame encrypted_packet (env.cipher.encrypt n.my_session_key x)) (phantom_ip n)
      (phantom_port n))

-- What the run has sent, and the node as it is then.
pub record Sent (w : World) (r : Ref) (n : SparkleNode) (es : List Event) (v : World) : Type 0 where
  pub node : v.heap r ≡ some n
  pub events : v.events ≡ w.events ++ es
  pub link : v.link ≡ w.link
  pub router : v.router ≡ w.router

flush-sealed :
    (env : Environment) (r : Ref) (n : SparkleNode) (q : List Bytes) (w : World)
    → w.heap r ≡ some (record n { queue = q })
    → is_self w.router.self r ≡ false
    → Returns
        (λ _ v. Sent w r (record n { queue = [] }) (sealed env n q) v)
        (flush env (length q) r w)
unfolding flush Node.pop_queue encrypt_and_send send_packet phantom_ip phantom_port
flush-sealed env r n [] w e s =
    rw e (record { node = e; events = sym (append-nil w.events); link = refl; router = refl })
flush-sealed env r n (x ∷ xs) w e s =
    let first =
      datagram (frame encrypted_packet (env.cipher.encrypt n.my_session_key x)) (phantom_ip n)
        (phantom_port n) in
    let u = record w {
      heap = write w.heap r (some (record n { queue = xs }));
      events = w.events ++ first ∷ [];
    } in
    rw (e, e, ==_refl r, s, ==_refl r)
      (weaken _ _ (flush env (length xs) r u) (flush-sealed env r n xs u (rw (==_refl r) refl) s)
        (λ _ v t. record {
          node = t.node;
          events = t.events ∙ append_assoc w.events (first ∷ []) (sealed env n xs);
          link = t.link;
          router = t.router;
        }))

-- What the router signals of a change at a node.
abbrev pub notices : List Ref → Ref → List Event
notices [] r = []
notices (q ∷ qs) r = if q == r then node_updated r ∷ notices qs r else notices qs r

pub for_each-notices :
    (qs : List Ref) (r : Ref) (w : World)
    → for_each qs (λ q. World.when (q == r) (World.emit (node_updated r))) w
      ≡ done tt (record w { events = w.events ++ notices qs r })
unfolding for_each
for_each-notices [] r w = rw (append-nil w.events)
for_each-notices (q ∷ qs) r w = elim (Bool-cases (q == r)) [
  | inl same ↦
      rw (same, ← append_assoc w.events (node_updated r ∷ []) (notices qs r))
        (for_each-notices qs r (record w { events = w.events ++ node_updated r ∷ [] }))
  | inr other ↦ rw other (for_each-notices qs r w)
]

set_his_session_key-done :
    (w : World) (r : Ref) (n : SparkleNode) (key : Bytes)
    → w.heap r ≡ some n
    → set_his_session_key r key w
      ≡ done tt (record w {
        heap = write w.heap r (some (record n { his_session_key = key; keys_negotiated = true }));
        events = w.events ++ notices w.router.nodes r;
      })
unfolding set_his_session_key notify_node_updated
set_his_session_key-done w r n key e = rw e (for_each-notices w.router.nodes r _)

-- The answer with this node's session key, if the peer asks for it.
abbrev pub own_key : Environment → Bool → SparkleNode → List Event
own_key env false n = []
own_key env true n =
    datagram
      (frame session_key_exchange (
        of_bool false
        ∷ env.memory 1
        ∷ env.memory 2
        ∷ env.memory 3
        ∷ env.memory 4
        ∷ env.memory 5
        ∷ env.memory 6
        ∷ env.memory 7
        ∷ n.my_session_key))
      (phantom_ip n) (phantom_port n)
    ∷ []

-- What the handler leaves of the world.
pub record Settled (w : World) (r : Ref) (n : SparkleNode) (es : List Event) (v : World)
    : Type 0 where
  node : v.heap r ≡ some (record n { queue = []; negotiation_timer = false })
  events : v.events ≡ w.events ++ es
  link : v.link ≡ record w.link { awaiting_negotiation = remove_one w.link.awaiting_negotiation r }
  router : v.router ≡ w.router

pub no_shutdown :
    (w : World) → w.link.preparing_for_shutdown ≡ false → finish_shutdown w ≡ done tt w
unfolding finish_shutdown
no_shutdown w p = ground (arith, p)

module _ (env : Environment) (r : Ref) (n : SparkleNode) where
  answer-done :
      (w : World) (need : Bool)
      → w.heap r ≡ some n
      → is_self w.router.self r ≡ false
      → World.when need (send_session_key_exchange env r false) w
        ≡ done tt (record w { events = w.events ++ own_key env need n })
  unfolding send_session_key_exchange send_packet
  answer-done w false e s = rw (append-nil w.events)
  answer-done w true e s = rw (e, s, e)

  settle :
      (w : World)
      → w.heap r ≡ some n
      → is_self w.router.self r ≡ false
      → w.link.preparing_for_shutdown ≡ false
      → Returns
          (λ _ v. Settled w r n (sealed env n n.queue) v)
          ((do
            Node.negotiation_finished r
            forget_negotiation r
            m ← deref r
            flush env (length m.queue) r
            finish_shutdown)
            w)
  unfolding Node.negotiation_finished phantom_ip phantom_port
  settle w e s p =
      let idle = record n { negotiation_timer = false } in
      let u = record w {
        heap = write w.heap r (some idle);
        link = record w.link { awaiting_negotiation = remove_one w.link.awaiting_negotiation r };
      } in
      rw (e, ==_refl r)
        (bind (λ _ v. Sent u r (record idle { queue = [] }) (sealed env idle n.queue) v)
          (λ _ v. Settled w r n (sealed env n n.queue) v) (flush env (length n.queue) r u)
          (λ _. finish_shutdown) (flush-sealed env r idle n.queue u (rw (==_refl r) refl) s)
          (λ _ v t.
            rw (no_shutdown v (ap (λ (l : LinkLayer). l.preparing_for_shutdown) t.link ∙ p))
              (record { node = t.node; events = t.events; link = t.link; router = t.router })))

module _ (env : Environment) (r : Ref) (n : SparkleNode) where
  -- A session key that arrives is stored, and answered with this node's own if the peer asks for it. What
  -- waited for it then leaves in its order, each packet encrypted, and the negotiation is over.
  pub handle_session_key_exchange-Settled :
      (payload : Bytes) (w : World)
      → let key = record n { his_session_key = drop 8 payload; keys_negotiated = true } in
        8 < length payload
        → w.heap r ≡ some n
        → is_self w.router.self r ≡ false
        → w.link.preparing_for_shutdown ≡ false
        → Returns
            (λ _ v.
              Settled w r key
                (notices w.router.nodes r
                  ++ (own_key env (read_key_exchange payload).need_others_key key
                      ++ sealed env key n.queue))
                v)
            (handle_session_key_exchange env payload r w)
  unfolding handle_session_key_exchange exceeds
  handle_session_key_exchange-Settled payload w h e s p =
      let key = record n { his_session_key = drop 8 payload; keys_negotiated = true } in
      let need = (read_key_exchange payload).need_others_key in
      let told = notices w.router.nodes r in
      let u = record w { heap = write w.heap r (some key); events = w.events ++ told } in
      let v = record u { events = u.events ++ own_key env need key } in
      rw
        (
          ltb-true 8 (length payload) h,
          set_his_session_key-done w r n (drop 8 payload) e,
          answer-done env r key u need (rw (==_refl r) refl) s,
        )
        (weaken (λ _ v'. Settled v r key (sealed env key n.queue) v') _ _
          (settle env r key v (rw (==_refl r) refl) s p)
          (λ _ v' t. record {
            node = t.node;
            events =
                t.events
                ∙ append_assoc u.events (own_key env need key) (sealed env key n.queue)
                ∙ append_assoc w.events told (own_key env need key ++ sealed env key n.queue);
            link = t.link;
            router = t.router;
          }))
