-- ===== src/SocketCore/AsyncSocket/Failures.antt =====
-- What a client can do to the selector's thread (src/veltix/socket_core/async_socket.py,
-- src/veltix/handler/handshake_handler.py).
use veltix.Prelude.{
  ℕ, ◌+◌, ◌≡◌, refl, ap, ◌∙◌, Bool, true, false, not, some, List, ◌∷◌, if◌then◌else◌, is_some, ok,
  err, eq_nat, eq_string, eq_list,
}
use veltix.Prelude.Dict.{lookup-insert_self}
use veltix.Prelude.Text.{Text, codes}
use veltix.Exceptions.{attribute_error}
use veltix.Internal.Events.{Trace}
use veltix.Internal.Version.{Version, eq_version}
use veltix.Network.Types.{Registry}
use veltix.Network.Request.{Codec}
use veltix.Network.Sender.{SocketId, Transport}
use veltix.Handler.Handshake.{
  Json, Peer, get_field, truthy, server_hello, send_handshake, server_received, server_sent,
  handshake_events, with_events, do_server_handshake,
}
use veltix.Handler.Handshake.Reception.{Arrives, recv_handshake-Arrives}
use veltix.SocketCore.ClientsManager.{add_client, has_client_id, count}
use veltix.SocketCore.ThreadingSocket.{MaxClient}
use veltix.SocketCore.AsyncSocket.{refuses_more, AsyncSocket}
use veltix.SocketCore.AsyncSocket.Accepting.{
  takes, admit, after_handshake, reject, accepted, accept_client,
}
use veltix.SocketCore.AsyncSocket.Events.{
  Ready, listens, Round, selected, turned, then_goes, handle_events, while_running, selector_loop,
}

module _ (peer : Peer) where
  open peer use {World}

  -- A payload that is true but no object ends the handshake by an exception.
  pub do_server_handshake-no_object :
      (own : Version) (version : Text) (w w' w'' : World) (j : Json) (t : Trace)
      → send_handshake peer (server_hello version 30000) w ≡ (true, w')
      → Arrives peer w' j w''
      → truthy j ≡ true
      → get_field (codes "v") j ≡ err attribute_error
      → do_server_handshake peer own version 30000 w t
        ≡ (err attribute_error, w'', handshake_events peer (err attribute_error) t)
  unfolding do_server_handshake server_sent server_received with_events
  do_server_handshake-no_object own version w w' w'' j t sent came true_ no_get =
      let received : server_received peer own (some j, w'') ≡ (err attribute_error, w'') =
        rw (true_, no_get) refl in
      ap (with_events peer t) (
        ap (server_sent peer own) sent
        ∙ ap (server_received peer own) (recv_handshake-Arrives peer w' j w'' came)
        ∙ received)

module _ (codec : Codec) (net : Transport) (Value : Type 0) (reg : Registry) (peer : Peer)
    (own : Version) (version : Text) (max_client : MaxClient) where
  open peer use {World}

  abbrev Socket : Type 0
  Socket = AsyncSocket codec net Value

  -- The socket that an exception of the handshake leaves
  abbrev left_by : SocketId → Text × ℕ → Socket → Socket
  left_by conn addr s =
      let (id, client, s') = admit codec net Value conn addr s in
      record s' {
        request_handler = record s'.request_handler {
          trace = handshake_events peer (err attribute_error) s'.request_handler.trace;
        };
      }

  accept_client-raises :
      (conn : SocketId) (addr : Text × ℕ) (w w' w'' : World) (j : Json) (s : Socket)
      → s.running ≡ true
      → refuses_more max_client (count s.client_manager) ≡ false
      → send_handshake peer (server_hello version 30000) w ≡ (true, w')
      → Arrives peer w' j w''
      → truthy j ≡ true
      → get_field (codes "v") j ≡ err attribute_error
      → accept_client codec net Value peer own version max_client w (takes conn addr) s
        ≡ (err attribute_error, left_by conn addr s)
  unfolding accept_client accepted after_handshake
  accept_client-raises conn addr w w' w'' j s on free sent came true_ no_get =
      let (id, client, s') = admit codec net Value conn addr s in
      let hs =
        do_server_handshake-no_object peer own version w w' w'' j s'.request_handler.trace sent came
          true_ no_get in
      let taken = accepted codec net Value peer own version w (takes conn addr) s in
      ap
        (λ (b : Bool).
          if b
          then (ok tt, reject codec net Value s)
          else if not s.running
          then (ok tt, s)
          else taken)
        free
      ∙ ap (λ (b : Bool). if not b then (ok tt, s) else taken) on
      ∙ ap
          (λ p.
            after_handshake codec net Value p.0 id client
              (record s' { request_handler = record s'.request_handler { trace = p.2 } }))
          hs

  -- One client is enough to end the selector's thread for all: when it is taken, with the limit
  -- not reached, the server's payload is sent, and its answer is a JSON value that is true but no
  -- object, the loop ends by AttributeError, whatever keys and rounds come behind it. The server
  -- goes on saying that it runs; the client stays registered, its socket open and not watched.
  pub selector_loop-attribute_error :
      (conn : SocketId) (addr : Text × ℕ) (w w' w'' : World) (j : Json) (s : Socket)
      (rs : List (Ready codec net Value reg peer own version max_client))
      (rounds : List (Round codec net Value reg peer own version max_client))
      → s.running ≡ true
      → refuses_more max_client (count s.client_manager) ≡ false
      → send_handshake peer (server_hello version 30000) w ≡ (true, w')
      → Arrives peer w' j w''
      → truthy j ≡ true
      → get_field (codes "v") j ≡ err attribute_error
      → (s' : Socket) × (selector_loop codec net Value reg peer own version max_client
            (selected (listens (takes conn addr) w ∷ rs) ∷ rounds)
            s
          ≡ (err attribute_error, s'))
        × (s'.running ≡ true)
        × (has_client_id (s.client_manager.id_count + 1) s'.client_manager ≡ true)
        × (s'.closed ≡ s.closed)
        × (s'.watched ≡ s.watched)
  unfolding selector_loop handle_events then_goes turned while_running admit add_client
      has_client_id
  selector_loop-attribute_error conn addr w w' w'' j s rs rounds on free sent came true_ no_get =
      let raised = accept_client-raises conn addr w w' w'' j s on free sent came true_ no_get in
      let go = selector_loop codec net Value reg peer own version max_client in
      let batch = handle_events codec net Value reg peer own version max_client in
      (
        left_by conn addr s,
        ap
              (λ b. while_running codec net Value reg peer own version max_client b s (
                then_goes codec net Value reg peer own version max_client
                  (batch (listens (takes conn addr) w ∷ rs) s) (go rounds)))
              on
            ∙ ap
                (λ p.
                  then_goes codec net Value reg peer own version max_client
                    (then_goes codec net Value reg peer own version max_client
                      (turned codec net Value reg peer own version max_client p) (batch rs))
                    (go rounds))
                raised,
        on,
        ap is_some (lookup-insert_self (s.client_manager.id_count + 1) _ s.client_manager.clients),
        refl,
        refl,
      )
