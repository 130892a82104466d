-- ===== src/Link/Keys.antt =====
-- LinkLayer.cpp: the packets of the key negotiation, and LocalRewrite.
pub mod Exposure
pub mod Flush
pub mod Replies
pub mod Timeout
use sparkle.Prelude.{
  ℕ, zero, suc, ◌+◌, Bool, true, false, not, ◌&&◌, ◌||◌, List, [], ◌∷◌, ◌++◌, Option, none, some,
  length, drop, ◌==◌, if◌then◌else◌, ltb,
}
use sparkle.Prelude.Bytes.{Bytes}
use sparkle.Address.{address_eq}
use sparkle.Wire.{read_key_exchange}
use sparkle.World.{
  Ref, null_host, host_eq, SparkleNode, World, Environment, M, done, out_of_fuel, pure, ◌>>=◌, ◌>>◌,
  skip, get, modify_link, when, deref, not_null, delete, contains, remove_one,
}
use sparkle.Router
use sparkle.Router.{Query, no_query, is_some}
use sparkle.Node
use sparkle.Node.{phantom_ip, phantom_port}
use sparkle.Link.Send

-- checkPacketSize(payload, n, …, PacketSizeEqual) and (…, PacketSizeGreater)
unfoldable pub has_size : Bytes → ℕ → Bool
has_size payload n = length payload == n

unfoldable pub exceeds : Bytes → ℕ → Bool
exceeds payload n = ltb n (length payload)

abbrev pub forget_negotiation : Ref → M (Unit {0})
forget_negotiation r =
    modify_link (λ l. record l { awaiting_negotiation = remove_one l.awaiting_negotiation r })

abbrev pub slaves : Query
slaves = record no_query { slave = true }

-- The node whose real endpoint is the phantom endpoint `(ip, port)` of `target`, if that is another.
unfoldable pub find_orphan : Ref → SparkleNode → List Ref → M (Option Ref)
find_orphan target t [] = pure none
find_orphan target t (i ∷ is) =
    let rest = find_orphan target t is in
    do
      n ← deref i
      if host_eq n.real_ip (phantom_ip t) && ((n.real_port == phantom_port t) && not (i == target))
          then pure (some i)
          else rest

-- nodeSpool.removeOne(r); delete r
unfoldable pub remove_from_spool : Ref → M (Unit {0})
remove_from_spool r = do
  modify_link (λ l. record l { node_spool = remove_one l.node_spool r })
  delete r

abbrev same : Option Ref → Ref → Bool
same none r = false
same (some q) r = q == r

module _ (env : Environment) where
  -- origNode takes over the endpoint and the key under which `r` has answered.
  unfoldable pub rewrite_node : Ref → Ref → M (Unit {0})
  rewrite_node orig r = do
    n ← deref r
    Node.set_phantom_ip orig (phantom_ip n)
    Node.set_phantom_port orig (phantom_port n)
    _ ← Node.set_auth_key env orig n.auth_key
    remove_from_spool r
    Send.send_local_rewrite_packet env orig

  -- The branch of handlePublicKeyExchange for a reply. The port of `origNode` is compared with
  -- itself, so the endpoints differ if the addresses do.
  unfoldable pub answered : Ref → Ref → M (Unit {0})
  answered orig r = do
    o ← deref orig
    n ← deref r
    if host_eq (phantom_ip o) (phantom_ip n) && (phantom_port o == phantom_port o)
        then Send.send_session_key_exchange env r true
        else (do rewrite_node orig r; Send.send_session_key_exchange env orig true)

  unfoldable pub handle_public_key_exchange : Bytes → Ref → M (Unit {0})
  handle_public_key_exchange payload r =
      if not (exceeds payload 8)
      then skip
      else (let ke = read_key_exchange payload in
          do
            w ← get
            let known = Send.lookup_cookie ke.cookie w.link.cookies
            if not ke.need_others_key && not (is_some known)
                then modify_link
                    (λ l. record l { cookies = Send.remove_cookie ke.cookie l.cookies })
                else (do
                  accepted ← Node.set_auth_key env r (drop 8 payload)
                  if not accepted
                      then forget_negotiation r
                      else if ke.need_others_key
                      then Send.send_public_key_exchange env r false ke.cookie
                      else (do
                        orig ← not_null known
                        modify_link
                            (λ l. record l { cookies = Send.remove_cookie ke.cookie l.cookies })
                        answered orig r)))

  -- while(!node->isQueueEmpty()) encryptAndSend(node->popQueue(), node), with fuel.
  unfoldable pub flush : ℕ → Ref → M (Unit {0})
  flush zero r = do n ← deref r; elim n.queue [ [] ↦ skip | _ ∷ _ ↦ λ _. out_of_fuel ]
  flush (suc fuel) r =
      let again = flush fuel r in
      do
        n ← deref r
        elim n.queue [
          | [] ↦ skip
          | x ∷ rest ↦ do Node.pop_queue r; Send.encrypt_and_send env x r; again
        ]

  unfoldable pub handle_session_key_exchange : Bytes → Ref → M (Unit {0})
  handle_session_key_exchange payload r = if not (exceeds payload 8) then skip else (do
    Node.set_his_session_key r (drop 8 payload)
    when (read_key_exchange payload).need_others_key (Send.send_session_key_exchange env r false)
    Node.negotiation_finished r
    forget_negotiation r
    n ← deref r
    flush (length n.queue) r
    Send.finish_shutdown)

  -- The slave whose address is that of the sender's key; the last one, if there are several.
  unfoldable pub find_associate : List Ref → Ref → Option Ref → M (Option Ref)
  find_associate [] r target = pure target
  find_associate (s ∷ ss) r target = do
    n ← deref r
    m ← deref s
    find_associate ss r
        (if address_eq (Node.address_from_key env n.auth_key) m.sparkle_mac then some s else target)

  -- The node `orphan`, then the sender, leave the spool unless the router knows them.
  unfoldable pub drop_orphans : Option Ref → Ref → M (Unit {0})
  drop_orphans orphan r = do
    w ← get
    elim orphan [
      | none ↦ skip
      | some o ↦ when (not (contains w.router.nodes o)) (remove_from_spool o)
    ]
    when (not (same orphan r) && not (contains w.router.nodes r)) (remove_from_spool r)

  unfoldable pub handle_local_rewrite_packet : Bytes → Ref → M (Unit {0})
  handle_local_rewrite_packet payload r = if not (has_size payload 0) then skip else (do
    list ← Router.find slaves null_host
    found ← find_associate list r none
    elim found [
      | none ↦ skip
      | some target ↦ do
        n ← deref r
        Node.set_phantom_ip target (phantom_ip n)
        Node.set_phantom_port target (phantom_port n)
        Node.clone_keys env target r
        t ← deref target
        w ← get
        orphan ← find_orphan target t w.link.node_spool
        drop_orphans orphan r
    ])

  -- The single-shot timer of a node, which stops when it fires.
  unfoldable pub negotiation_timeout : Ref → M (Unit {0})
  negotiation_timeout r = do
    Node.negotiation_finished r
    Node.flush_queue r
    forget_negotiation r
    Send.finish_shutdown
