-- ===== src/Link/Send/Steps.antt =====
-- LinkLayer.cpp: sendEncryptedPacket comes to an end, and sends nothing in the clear but what begins a
-- negotiation.
use sparkle.Prelude.{
  ℕ, suc, ◌≡◌, refl, Bool, true, false, not, ◌&&◌, [], ◌∷◌, ◌++◌, some, arith, if◌then◌else◌, inl,
  inr, ==_refl, Bool-cases, ◌⊎◌,
}
use sparkle.Prelude.Bytes.{Bytes}
use sparkle.Wire.{
  PacketType, frame, public_key_exchange, keepalive_packet, encrypted_packet, backlink_redirect,
}
use sparkle.World.{
  HostAddress, datagram, Ref, null_host, SparkleNode, World, Environment, Run, M, and_then, fault,
  fatal, out_of_fuel, contains, done,
}
use sparkle.World.Refs.{Returns, bind}
use sparkle.Router
use sparkle.Router.{masters, is_self, excluded}
use sparkle.Router.Selection.{select-mem}
use sparkle.Node
use sparkle.Node.{phantom_ip, phantom_port}
use sparkle.Link.Send.{
  send_packet, encrypt_and_send, send_plain_keepalive, send_public_key_exchange, redirect_via,
  send_encrypted_fuel, exchange_keys, negotiate, send_encrypted_packet, wants_tunnel, insert_cookie,
}
use sparkle.Link.Send.Quiet.{
  IsQuiet, key_request, empty_keepalive, encrypted, IsSound, Same, Step, Step-refl, Step-trans,
  Step-link, Step-send, Step-random, Step-node, IsSound-Step,
}

-- The run ends, and all it did is quiet.
abbrev pub Goes : {A : Type 0} → Environment → World → Run A → Type 0
Goes env w m = Returns (λ _ v. Step env w v) m

onward :
    {A : Type 0} {env : Environment} {u v : World} (m : Run A)
    → Step env u v
    → Goes env v m
    → Goes env u m
onward (done a w) s t = Step-trans s t
onward fault s t = absurd t
onward fatal s t = absurd t
onward out_of_fuel s t = absurd t

either :
    (env : Environment) (b : Bool) (w : World) (m m' : M (Unit {0}))
    → Goes env w (m w)
    → Goes env w (m' w)
    → Goes env w ((if b then m else m') w)
either env true w m m' a b = a
either env false w m m' a b = b

-- One run after another.
next :
    {A B : Type 0} (env : Environment) (w : World) (m : Run A) (k : A → M B)
    → Goes env w m
    → ((a : A) (v : World) → Step env w v → Goes env v (k a v))
    → Goes env w (and_then m k)
next env w m k g h =
    bind (λ _ v. Step env w v) (λ _ v. Step env w v) m k g (λ a v s. onward (k a v) s (h a v s))

module _ (env : Environment) (w : World) (r : Ref) (n : SparkleNode) (e : w.heap r ≡ some n) where
  send_packet-Goes :
      (t : PacketType) (xs : Bytes)
      → ((host : HostAddress) (port : ℕ) → IsQuiet env (datagram (frame t xs) host port))
      → Goes env w (send_packet env t xs r w)
  unfolding send_packet
  send_packet-Goes t xs q = elim (Bool-cases (is_self w.router.self r)) [
    | inl own ↦ rw own (Step-refl w)
    | inr other ↦
        rw (other, e)
          (Step-send w (datagram (frame t xs) (phantom_ip n) (phantom_port n))
            (q (phantom_ip n) (phantom_port n)))
  ]

  encrypt_and_send-Goes : (xs : Bytes) → Goes env w (encrypt_and_send env xs r w)
  unfolding encrypt_and_send
  encrypt_and_send-Goes xs =
      rw e
        (send_packet-Goes encrypted_packet _ (λ host port. encrypted n.my_session_key xs host port))

module _ (env : Environment) (w : World) (r : Ref) (n : SparkleNode) (e : w.heap r ≡ some n) where
  -- A cookie is drawn and entered before the packet leaves.
  send_public_key_exchange-Goes : Goes env w (send_public_key_exchange env r true 0 w)
  unfolding send_public_key_exchange Router.random
  send_public_key_exchange-Goes =
      onward _
        (Step-trans (Step-random w (suc w.random_calls)) (
          Step-link _
            (record w.link { cookies = insert_cookie (env.random w.random_calls) r w.link.cookies })
            refl refl))
        (send_packet-Goes env _ r n e public_key_exchange _
          (λ host port. key_request (env.random w.random_calls) host port))

-- What remains to be known of the calls at one fuel: they go well on a master.
GoesOnMasters : Environment → ℕ → Type 0
GoesOnMasters env fuel =
    (w : World) (t : PacketType) (xs : Bytes) (r : Ref) (skip : Bool) (n : SparkleNode)
    → IsSound w
    → w.heap r ≡ some n
    → n.master ≡ true
    → Goes env w (send_encrypted_fuel env fuel t xs r skip w)

module _ (env : Environment) (w : World) (i : IsSound w) (r : Ref) (n : SparkleNode)
    (e : w.heap r ≡ some n) where
  wants_tunnel-done :
      (m : SparkleNode) (skip : Bool)
      → (b : Bool) × (wants_tunnel m skip w ≡ done b w) × (m.master ≡ true → b ≡ false)
  unfolding wants_tunnel
  wants_tunnel-done m skip = elim (Bool-cases w.link.joined) [
    | inl j ↦
        let (s, es, (m', h)) = i.self j in
        (not m'.master && (not m.master && not skip), rw (j, es, h) refl, λ q. ground arith)
    | inr j ↦ (false, rw j refl, λ _. refl)
  ]

  redirect_via-Goes :
      (fuel : ℕ)
      → GoesOnMasters env fuel
      → Goes env w (redirect_via env (send_encrypted_fuel env fuel) r w)
  unfolding redirect_via GoesOnMasters excluded
  redirect_via-Goes fuel g = elim (select-mem env masters null_host w i.live i.distinct) [
    | inl (_, s) ↦ rw (e, s) (Step-refl w)
    | inr (m, (_, (n', h, out)), s) ↦
        rw (e, s)
          (let random = Step-random w (suc w.random_calls) in
            onward _ random
              (g _ backlink_redirect _ m false n' (IsSound-Step random i) h (ground arith)))
  ]

exchange_keys-Goes :
    (env : Environment) (w : World) (r : Ref) (n m : SparkleNode) (fuel : ℕ) (skip : Bool)
    → IsSound w
    → w.heap r ≡ some m
    → (n.master ≡ true) ⊎ GoesOnMasters env fuel
    → Goes env w (exchange_keys env (send_encrypted_fuel env fuel) n r skip w)
unfolding exchange_keys send_plain_keepalive
exchange_keys-Goes env w r n m fuel skip i e g =
    let (b, d, q) = wants_tunnel-done env w i r m e n skip in
    elim (Bool-cases b) [
      | inl tunnel ↦ elim g [
        | inl master ↦ ground (arith, q master)
        | inr ok ↦
            rw (d, tunnel)
              (next env w (send_packet env keepalive_packet [] r w) _
                (send_packet-Goes env w r m e keepalive_packet []
                  (λ host port. empty_keepalive host port))
                (λ _ v s.
                  let (m', e', _) = s.nodes r m e in
                  redirect_via-Goes env v (IsSound-Step s i) r m' e' fuel ok))
      ]
      | inr direct ↦ rw (d, direct) (send_public_key_exchange-Goes env w r m e)
    ]

abbrev same :
    (n : SparkleNode)
    → (n' : SparkleNode) → n'.master ≡ n.master
    → n'.keys_negotiated ≡ n.keys_negotiated
    → Same n n'
same n n' a b = record { master = a; keys_negotiated = b }

negotiate-Goes :
    (env : Environment) (w : World) (r : Ref) (n m : SparkleNode) (fuel : ℕ) (skip : Bool)
    → IsSound w
    → w.heap r ≡ some m
    → (n.master ≡ true) ⊎ GoesOnMasters env fuel
    → Goes env w (negotiate env (send_encrypted_fuel env fuel) n r skip w)
unfolding negotiate Node.negotiation_start
negotiate-Goes env w r n m fuel skip i e g =
    elim (Bool-cases (contains w.link.awaiting_negotiation r)) [
      | inl waits ↦ rw waits (Step-refl w)
      | inr new ↦
          rw (new, e)
            (let started = record m { negotiation_timer = true } in
              let step = Step-trans (Step-node w r m started e (same m started refl refl)) (
                Step-link _
                  (record w.link { awaiting_negotiation = w.link.awaiting_negotiation ++ r ∷ [] })
                  refl refl) in
              onward _ step (
                exchange_keys-Goes env _ r n started fuel skip (IsSound-Step step i)
                  (rw (==_refl r) refl) g))
    ]

send_encrypted_fuel-Goes :
    (env : Environment) (fuel : ℕ) (w : World) (t : PacketType) (xs : Bytes) (r : Ref) (skip : Bool)
    (n : SparkleNode)
    → IsSound w
    → w.heap r ≡ some n
    → (n.master ≡ true) ⊎ GoesOnMasters env fuel
    → Goes env w (send_encrypted_fuel env (suc fuel) t xs r skip w)
unfolding send_encrypted_fuel Node.push_queue
send_encrypted_fuel-Goes env fuel w t xs r skip n i e g =
    let queued = record n { queue = n.queue ++ frame t xs ∷ [] } in
    let step = Step-node w r n queued e (same n queued refl refl) in
    rw e (
      either env n.keys_negotiated w (encrypt_and_send env (frame t xs) r) _
        (encrypt_and_send-Goes env w r n e (frame t xs))
        (rw e (
          onward _ step (
            negotiate-Goes env _ r n queued fuel skip (IsSound-Step step i) (rw (==_refl r) refl)
              g))))

module _ (env : Environment) (w : World) (i : IsSound w) (r : Ref) (n : SparkleNode)
    (live : w.heap r ≡ some n) where
  -- Sending to a node that exists comes to an end, without a fault and within the call depth of 2, where
  -- the router's nodes and this node itself exist: every datagram that it sends is a request for a key, a keepalive without contents,
  -- or what the session cipher has encrypted. No node is lost, no node's role or state of its keys
  -- changes, and what waits for routes waits on.
  pub send_encrypted_packet-Step :
      (t : PacketType) (xs : Bytes) (skip : Bool)
      → Returns (λ _ v. Step env w v) (send_encrypted_packet env t xs r skip w)
  unfolding send_encrypted_packet GoesOnMasters
  send_encrypted_packet-Step t xs skip = send_encrypted_fuel-Goes env 1 w t xs r skip n i live (
      inr (λ v t ys q s m j e master. send_encrypted_fuel-Goes env 0 v t ys q s m j e (inl master)))
