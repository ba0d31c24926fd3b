-- ===== src/Handler/Handshake/Client.antt =====
-- The client's side of the handshake (src/veltix/handler/handshake_handler.py).
use veltix.Exceptions.{Exn}
use veltix.Prelude.{
  Bool, true, false, Option, none, some, if◌then◌else◌, ◌==◌, is_some, Result, ok, err, eq_nat,
  eq_string, eq_list,
}
use veltix.Prelude.Text.{Text, codes}
use veltix.Internal.Events.{Trace}
use veltix.Internal.Version.{Version, eq_version}
use veltix.Handler.Handshake.{
  Json, string, object, no_fields, Peer, get_field, truthy, client_hello, check_peer,
  send_handshake, recv_handshake, handshake_events,
}

-- `payload.get("meta", {})`
unfoldable pub meta_or_empty : Option Json → Json
meta_or_empty none = object no_fields
meta_or_empty (some meta) = meta

-- `ack.get("result") != "ok"`, negated
unfoldable pub is_ok_result : Option Json → Bool
is_ok_result (some (string s)) = s == codes "ok"
is_ok_result _ = false

module _ (peer : Peer) where
  open peer use {World}

  -- The end, once the acknowledgment is accepted: the metadata of the server
  unfoldable pub client_done : Json → Bool → World → Result Exn (Option Json) × World
  client_done j false w = (ok none, w)
  client_done j true w = elim (get_field (codes "meta") j) [
    | err e ↦ (err e, w)
    | ok meta ↦ (ok (some (meta_or_empty meta)), w)
  ]

  -- The acknowledgment
  unfoldable pub client_acked : Json → Option Json × World → Result Exn (Option Json) × World
  client_acked j (none, w) = (ok none, w)
  client_acked j (some a, w) =
      if truthy a
      then elim (get_field (codes "result") a) [
        | err e ↦ (err e, w)
        | ok r ↦ client_done j (is_ok_result r) w
      ]
      else (ok none, w)

  unfoldable pub client_sent : Json → Bool × World → Result Exn (Option Json) × World
  client_sent j (false, w) = (ok none, w)
  client_sent j (true, w) = client_acked j (recv_handshake peer w)

  -- Once the server's version is known: the client's own payload
  unfoldable pub client_checked : Text → Json → Bool → World → Result Exn (Option Json) × World
  client_checked version j false w = (ok none, w)
  client_checked version j true w = client_sent j (send_handshake peer (client_hello version) w)

  -- From the server's payload on
  unfoldable pub client_received :
      Version → Text → Option Json × World → Result Exn (Option Json) × World
  client_received own version (none, w) = (ok none, w)
  client_received own version (some j, w) =
      if truthy j
      then elim (get_field (codes "v") j) [
        | err e ↦ (err e, w)
        | ok v ↦ client_checked version j (check_peer own v) w
      ]
      else (ok none, w)

  unfoldable pub succeeded : Result Exn (Option Json) → Result Exn Bool
  succeeded (ok o) = ok (is_some o)
  succeeded (err e) = err e

  -- HandshakeHandler.do_client_handshake: the metadata, if it succeeds
  unfoldable pub do_client_handshake :
      Version → Text → World → Trace → Result Exn (Option Json) × World × Trace
  do_client_handshake own version w t =
      let (out, w') = client_received own version (recv_handshake peer w) in
      (out, w', handshake_events peer (succeeded out) t)
