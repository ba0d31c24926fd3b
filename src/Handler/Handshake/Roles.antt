-- ===== src/Handler/Handshake/Roles.antt =====
-- What the two sides decide (src/veltix/handler/handshake_handler.py).
use veltix.Exceptions.{Exn}
use veltix.Prelude.{
  ℕ, ◌≡◌, refl, ap, ◌∙◌, Bool, true, false, ◌&&◌, Option, none, some, ◌∷◌, if◌then◌else◌, Result,
  ok, eq_nat, eq_string, eq_list,
}
use veltix.Prelude.Dict.{contains}
use veltix.Prelude.Text.{Text, codes}
use veltix.Internal.Events.{ProtocolEvent, protocol_event, Trace}
use veltix.Internal.Version.{
  Version, same_version, to_str, compatibility, bool_of, check_read, check_version, eq_version,
}
use veltix.Internal.Version.RoundTrip.{from_str-to_str}
use veltix.Internal.Version.Strict.{is_compatible-strict}
use veltix.Handler.Handshake.{
  Json, string, Peer, find_field, get_field, truthy, server_hello, client_hello, ack, check_peer,
  send_handshake, recv_handshake, server_checked, server_received, server_sent, handshake_events,
  with_events, do_server_handshake,
}
use veltix.Handler.Handshake.Client.{
  meta_or_empty, is_ok_result, client_done, client_acked, client_sent, client_checked,
  client_received, succeeded, do_client_handshake,
}
use veltix.Handler.Handshake.Reception.{Arrives, recv_handshake-Arrives}

-- Whether a side of version `own` accepts a peer of version `v`
abbrev pub accepted : Version → Version → Bool
accepted own v = contains own compatibility && same_version own v

bool_of-accepted :
    (known same : Bool) → bool_of (if known then some same else none) ≡ (known && same)
unfolding bool_of
bool_of-accepted true same = refl
bool_of-accepted false same = refl

check_version-to_str : (own v : Version) → check_version own (to_str v) ≡ accepted own v
unfolding check_version check_read
check_version-to_str own v =
    ap (check_read own) (from_str-to_str v)
    ∙ ap bool_of (is_compatible-strict own v)
    ∙ bool_of-accepted (contains own compatibility) (same_version own v)

module _ (peer : Peer) where
  open peer use {World}

  -- A payload of a peer of version `v`
  pub record Announces (v : Version) (j : Json) : Type 0 where
    pub is_truthy : truthy j ≡ true
    pub announced : get_field (codes "v") j ≡ ok (some (string (to_str v)))

  server_received-Announces :
      (own v : Version) (j : Json) (w : World)
      → Announces v j
      → server_received peer own (some j, w) ≡ server_checked peer (accepted own v) w
  unfolding server_received check_peer
  server_received-Announces own v j w a =
      rw (a.is_truthy, a.announced) (ap (λ b. server_checked peer b w) (check_version-to_str own v))

  server_checked-events :
      (b : Bool) (w : World) (t : Trace)
      → with_events peer t (server_checked peer b w) ≡ (
          if b
          then (
            ok (send_handshake peer ack w).0,
            (send_handshake peer ack w).1,
            handshake_events peer (ok (send_handshake peer ack w).0) t,
          )
          else (ok false, w, handshake_events peer (ok false) t))
  unfolding server_checked with_events
  server_checked-events true w t = refl
  server_checked-events false w t = refl

  -- Where the server's payload is sent and the answer of a client of version `v` arrives, in
  -- whatever chunks, the server refuses it, sends nothing more and answers False unless the
  -- versions are equal and in the table; it sends the acknowledgment otherwise, and answers
  -- whether that was sent.
  pub do_server_handshake-decides :
      (own v : Version) (version : Text) (id_window : ℕ) (w w' w'' : World) (j : Json) (t : Trace)
      → send_handshake peer (server_hello version id_window) w ≡ (true, w')
      → Arrives peer w' j w''
      → Announces v j
      → do_server_handshake peer own version id_window w t ≡ (
          if accepted own v
          then (
            ok (send_handshake peer ack w'').0,
            (send_handshake peer ack w'').1,
            handshake_events peer (ok (send_handshake peer ack w'').0) t,
          )
          else (ok false, w'', handshake_events peer (ok false) t))
  unfolding do_server_handshake server_sent
  do_server_handshake-decides own v version id_window w w' w'' j t sent came a =
      let out : server_sent peer own (send_handshake peer (server_hello version id_window) w)
          ≡ server_checked peer (accepted own v) w'' =
        ap (server_sent peer own) sent
        ∙ ap (server_received peer own) (recv_handshake-Arrives peer w' j w'' came)
        ∙ server_received-Announces own v j w'' a in
      ap (with_events peer t) out ∙ server_checked-events (accepted own v) w'' t

  client_received-Announces :
      (own v : Version) (version : Text) (j : Json) (w : World)
      → Announces v j
      → client_received peer own version (some j, w)
        ≡ client_checked peer version j (accepted own v) w
  unfolding client_received check_peer
  client_received-Announces own v version j w a =
      rw (a.is_truthy, a.announced)
        (ap (λ b. client_checked peer version j b w) (check_version-to_str own v))

  client_done-meta :
      (j : Json) (w : World) (meta : Option Json)
      → get_field (codes "meta") j ≡ ok meta
      → client_done peer j true w ≡ (ok (some (meta_or_empty meta)), w)
  unfolding client_done
  client_done-meta j w meta has_meta = rw (has_meta, client_done) refl

  client_acked-ack :
      (j : Json) (w : World) (meta : Option Json)
      → get_field (codes "meta") j ≡ ok meta
      → client_acked peer j (some ack, w) ≡ (ok (some (meta_or_empty meta)), w)
  unfolding client_acked ack truthy get_field find_field is_ok_result
  client_acked-ack j w meta has_meta = client_done-meta j w meta has_meta

  -- Where the payload of a server of version `v` arrives, the versions are equal and in the table,
  -- the client's payload is sent and the acknowledgment arrives, in whatever chunks, the client
  -- succeeds with the server's metadata.
  pub do_client_handshake-completes :
      (own v : Version) (version : Text) (w w1 w2 w3 : World) (j : Json) (meta : Option Json)
      (t : Trace)
      → Arrives peer w j w1
      → Announces v j
      → accepted own v ≡ true
      → get_field (codes "meta") j ≡ ok meta
      → send_handshake peer (client_hello version) w1 ≡ (true, w2)
      → Arrives peer w2 ack w3
      → do_client_handshake peer own version w t ≡ (
        ok (some (meta_or_empty meta)),
        w3,
        protocol_event ProtocolEvent.handshake_done
            ∷ protocol_event ProtocolEvent.handshake_start
            ∷ t,
      )
  unfolding do_client_handshake client_checked client_sent handshake_events succeeded
  do_client_handshake-completes own v version w w1 w2 w3 j meta t came a fits has_meta sent acked =
      let out : client_received peer own version (recv_handshake peer w)
          ≡ (ok (some (meta_or_empty meta)), w3) =
        ap (client_received peer own version) (recv_handshake-Arrives peer w j w1 came)
        ∙ client_received-Announces own v version j w1 a
        ∙ ap (λ b. client_checked peer version j b w1) fits
        ∙ ap (client_sent peer j) sent
        ∙ ap (client_acked peer j) (recv_handshake-Arrives peer w2 ack w3 acked)
        ∙ client_acked-ack j w3 meta has_meta in
      ap
        (λ (r : Result Exn (Option Json) × World).
          (r.0, r.1, handshake_events peer (succeeded peer r.0) t))
        out
