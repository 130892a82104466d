-- ===== src/Link/Keys/Replies.antt =====
-- LinkLayer.cpp: handlePublicKeyExchange, and the cookies of the requests that it answers.
use sparkle.Prelude.{
  ℕ, ◌<◌, ◌≡◌, refl, true, false, ◌&&◌, List, [], ◌∷◌, ◌++◌, none, some, arith, length, drop, ◌==◌,
  ltb-true, ltb, if◌then◌else◌, ==_refl, Bool-cases, inl, inr,
}
use mathlib.Core.List.{append_assoc}
use sparkle.Prelude.Bytes.{Bytes, bytes_eq, of_bool}
use sparkle.Wire.{frame, session_key_exchange, read_key_exchange}
use sparkle.World.{Ref, host_eq, SparkleNode, World, Environment, datagram, write, done}
use sparkle.World.Refs.{host_eq_refl, Returns}
use sparkle.Router.{is_self, notify_node_updated}
use sparkle.Node
use sparkle.Node.{phantom_ip, phantom_port, store_auth_key}
use sparkle.Link.Send.{
  lookup_cookie, remove_cookie, insert_cookie, send_session_key_exchange, send_packet,
}
use sparkle.Link.Keys.{exceeds, handle_public_key_exchange, answered}
use sparkle.Link.Keys.Flush.{notices, for_each-notices}

remove_cookie-absent :
    (k : ℕ) (cs : List (ℕ × Ref)) → lookup_cookie k cs ≡ none → remove_cookie k cs ≡ cs
unfolding lookup_cookie remove_cookie
remove_cookie-absent k [] h = refl
remove_cookie-absent k ((j, q) ∷ cs) h = ground (arith, remove_cookie-absent k cs)

lookup_cookie-remove_cookie :
    (k : ℕ) (cs : List (ℕ × Ref)) → lookup_cookie k (remove_cookie k cs) ≡ none
unfolding lookup_cookie remove_cookie
lookup_cookie-remove_cookie k [] = refl
lookup_cookie-remove_cookie k ((j, q) ∷ cs) = ground (arith, lookup_cookie-remove_cookie k cs)

-- A cookie that was just entered is found, and the other cookies are as they were.
pub lookup_cookie-insert_cookie :
    (k j : ℕ) (r : Ref) (cs : List (ℕ × Ref))
    → lookup_cookie j (insert_cookie k r cs) ≡ (if j == k then some r else lookup_cookie j cs)
unfolding lookup_cookie insert_cookie
lookup_cookie-insert_cookie k j r [] = ground arith
lookup_cookie-insert_cookie k j r ((i, q) ∷ cs) =
    ground (arith, lookup_cookie-insert_cookie k j r cs)

no_key :
    (n : SparkleNode) (xs : Bytes)
    → n.auth_key_present ≡ false
    → (n.auth_key_present && bytes_eq n.auth_key xs) ≡ false
no_key n xs p = rw p refl

same_endpoint :
    (n : SparkleNode)
    → (host_eq (phantom_ip n) (phantom_ip n) && (phantom_port n == phantom_port n)) ≡ true
same_endpoint n = rw (host_eq_refl (phantom_ip n), ==_refl (phantom_port n)) refl

module _ (env : Environment) (r : Ref) (payload : Bytes) (w : World) where
  -- An answer that this node has not asked for, or whose cookie is spent, changes nothing.
  pub handle_public_key_exchange-unsolicited :
      (read_key_exchange payload).need_others_key ≡ false
      → lookup_cookie (read_key_exchange payload).cookie w.link.cookies ≡ none
      → handle_public_key_exchange env payload r w ≡ done tt w
  unfolding handle_public_key_exchange exceeds
  handle_public_key_exchange-unsolicited a c = elim (Bool-cases (ltb 8 (length payload))) [
    | inl long ↦ rw (long, a, c, remove_cookie-absent _ w.link.cookies c) refl
    | inr short ↦ rw short refl
  ]

-- The world after an answer, from the node that was asked.
pub record Answered (env : Environment) (w : World) (r : Ref) (n : SparkleNode) (cookie : ℕ)
    (v : World) : Type 0 where
  node : v.heap r ≡ some n
  spent : lookup_cookie cookie v.link.cookies ≡ none
  events :
      v.events
      ≡ w.events
        ++ (notices w.router.nodes r
            ++ datagram
                (frame session_key_exchange (
                  of_bool true
                  ∷ env.memory 1
                  ∷ env.memory 2
                  ∷ env.memory 3
                  ∷ env.memory 4
                  ∷ env.memory 5
                  ∷ env.memory 6
                  ∷ env.memory 7
                  ∷ n.my_session_key))
                (phantom_ip n)
                (phantom_port n)
              ∷ [])

set_auth_key-done :
    (env : Environment) (r : Ref) (n : SparkleNode) (xs key : Bytes) (w : World)
    → w.heap r ≡ some n
    → n.auth_key_present ≡ false
    → env.read_key xs ≡ some key
    → Node.set_auth_key env r xs w
      ≡ done true (record w {
        heap = write w.heap r (some (record n { auth_key = key; auth_key_present = true }));
        events = w.events ++ notices w.router.nodes r;
      })
unfolding Node.set_auth_key store_auth_key notify_node_updated
set_auth_key-done env r n xs key w e p k =
    let u = record w {
      heap = write w.heap r (some (record n { auth_key = key; auth_key_present = true }));
    } in
    let told = for_each-notices w.router.nodes r u in rw (e, no_key n xs p, k, e, told) refl

module _ (env : Environment) (r : Ref) (n : SparkleNode) (payload : Bytes) (w : World)
    (key : Bytes) where
  -- The answer of the node that was asked, with a key that is accepted: the key is stored, the cookie
  -- is spent, and the one packet that leaves asks the node for its session key.
  pub handle_public_key_exchange-Answered :
      8 < length payload
      → (read_key_exchange payload).need_others_key ≡ false
      → lookup_cookie (read_key_exchange payload).cookie w.link.cookies ≡ some r
      → w.heap r ≡ some n
      → n.auth_key_present ≡ false
      → env.read_key (drop 8 payload) ≡ some key
      → is_self w.router.self r ≡ false
      → Returns
          (λ _ v.
            Answered env w r
              (record n { auth_key = key; auth_key_present = true })
              (read_key_exchange payload).cookie
              v)
          (handle_public_key_exchange env payload r w)
  unfolding handle_public_key_exchange exceeds answered send_session_key_exchange send_packet
  handle_public_key_exchange-Answered h a c e p k s =
      let n' = record n { auth_key = key; auth_key_present = true } in
      let u = record w {
        heap = write w.heap r (some n');
        events = w.events ++ notices w.router.nodes r;
      } in
      let cookie = (read_key_exchange payload).cookie in
      rw
        (
          ltb-true 8 (length payload) h,
          a,
          c,
          set_auth_key-done env r n (drop 8 payload) key w e p k,
          ==_refl r,
          ==_refl r,
          same_endpoint n',
          ==_refl r,
          s,
          ==_refl r,
        )
        (record {
          node = rw (==_refl r) refl;
          spent = lookup_cookie-remove_cookie cookie w.link.cookies;
          events = append_assoc w.events (notices w.router.nodes r) _;
        })
