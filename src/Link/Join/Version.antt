-- ===== src/Link/Join/Version.antt =====
-- LinkLayer.cpp: handleProtocolVersionReply, when the versions differ.
use sparkle.Prelude.{◌≡◌, refl, true, false, [], none, length, ◌==◌}
use sparkle.Prelude.Bytes.{Bytes, word32_at}
use sparkle.World
use sparkle.World.{
  Ref, World, Environment, Run, M, fault, join_version_request, contains, ◌>>=◌, ◌>>◌, and_then,
}
use sparkle.World.Refs.{Live, Distinct, Returns, bind}
use sparkle.Link.Send.{send_encrypted, send_encrypted_packet, send_encrypted_fuel, cleanup}
use sparkle.Link.Send.Cleanup.{Cleaned, cleanup-Cleaned, then_fault}
use sparkle.Link.Keys.{has_size}
use sparkle.Link.Join.{
  protocol_version, step_eq, expecting, fail_join, handle_protocol_version_reply,
  send_master_node_request,
}

sent_to_nobody :
    (env : Environment) (r : Ref) (w : World)
    → w.heap r ≡ none
    → send_master_node_request env r w ≡ fault
unfolding send_master_node_request send_encrypted send_encrypted_packet send_encrypted_fuel
sent_to_nobody env r w h = rw h refl

fail_join-freed :
    (w : World) (r : Ref)
    → Live w w.link.node_spool
    → Distinct w.link.node_spool
    → w.router.nodes ≡ []
    → contains w.link.node_spool r ≡ true
    → Returns (λ _ v. v.heap r ≡ none) (fail_join w)
unfolding fail_join
fail_join-freed w r l d e c =
    bind (λ _ v. Cleaned w v) (λ _ v. v.heap r ≡ none) (cleanup w) _ (cleanup-Cleaned w l d e)
      (λ _ v t. t.freed r c)

module _ (env : Environment) (payload : Bytes) (r : Ref) (w : World) where
  -- A node that is joining and gets a reply with another version frees the spool, with the sender in it,
  -- and then writes to the sender.
  pub handle_protocol_version_reply_mismatch :
      length payload ≡ 4
      → step_eq w.link.join_step join_version_request ≡ true
      → (word32_at payload 0 == protocol_version) ≡ false
      → w.router.nodes ≡ []
      → Live w w.link.node_spool
      → Distinct w.link.node_spool
      → contains w.link.node_spool r ≡ true
      → handle_protocol_version_reply env payload r w ≡ fault
  unfolding handle_protocol_version_reply has_size expecting
  handle_protocol_version_reply_mismatch size step other known l d c =
      rw (size, step, other)
        (then_fault (λ v. v.heap r ≡ none) (fail_join w) _ (fail_join-freed w r l d known c)
          (λ v h _.
            rw
              (sent_to_nobody env r
                (record v { link = record v.link { join_step = World.join_master_node_request } })
                h)
              refl))
