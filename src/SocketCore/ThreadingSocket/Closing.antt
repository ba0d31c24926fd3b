-- ===== src/SocketCore/ThreadingSocket/Closing.antt =====
-- A client that another thread closes (src/veltix/socket_core/threading_socket.py).
use veltix.Prelude.{
  ℕ, suc, ◌+◌, ◌≡◌, refl, sym, ap, ◌∙◌, subst, Bool, true, false, some, [], ◌∷◌, arith,
  if◌then◌else◌, is_some, if_intro, eq_nat, eq_string, eq_list,
}
use veltix.Prelude.Dict.{lookup-erase_self}
use veltix.Internal.Events.{ServerEvent, Event, server_event, Trace}
use veltix.Internal.Recv.{RecvStatus, RecvResult, timed_out_status, disconnected}
use veltix.Network.Types.{Registry}
use veltix.Network.Request.{Codec}
use veltix.Network.Sender.{Transport}
use veltix.Network.MessageBuffer.{MessageBuffer}
use veltix.SocketCore.ClientsManager.{
  ClientEntry, ClientsManager, remove_client, get_client, has_client_id,
}
use veltix.SocketCore.ThreadingSocket.{
  ThreadingSocket, close_server_client, close_entry, close_found, close_client,
}
use veltix.SocketCore.ThreadingSocket.Serving.{returns, process_server_message}

unfoldable pub is_disconnect : Event → Bool
is_disconnect (server_event ServerEvent.on_disconnect) = true
is_disconnect _ = false

-- How often a trace reports the disconnection of a client
unfoldable pub disconnects : Trace → ℕ
disconnects [] = 0
disconnects (e ∷ t) = if is_disconnect e then suc (disconnects t) else disconnects t

module _ (codec : Codec) (net : Transport) (Value : Type 0) (reg : Registry) where
  abbrev Socket : Type 0
  Socket = ThreadingSocket codec net Value

  abbrev pub disconnects_of : Socket → ℕ
  disconnects_of s = disconnects s.request_handler.trace

  close_client-found :
      (id : ℕ) (entry : ClientEntry) (s : Socket)
      → get_client id s.client_manager ≡ some entry
      → close_client codec net Value id s ≡ (true, close_server_client codec net Value entry s)
  unfolding close_client close_found close_entry
  close_client-found id entry s found = ap (λ o. close_found codec net Value o s) found

  close_server_client-disconnects :
      (entry : ClientEntry) (s : Socket)
      → disconnects_of (close_server_client codec net Value entry s) ≡ disconnects_of s + 1
  unfolding close_server_client disconnects is_disconnect
  close_server_client-disconnects entry s = omega arith

  not_contained : (id : ℕ) (m : ClientsManager) → has_client_id id (remove_client id m).1 ≡ false
  unfolding remove_client has_client_id
  not_contained id m = ap is_some (lookup-erase_self id m.clients)

  -- What close_client changes: a client that is registered under its own identifier is not
  -- registered any more, its socket is closed, and the disconnection is reported once.
  pub close_client-closes :
      (id : ℕ) (entry : ClientEntry) (s : Socket)
      → get_client id s.client_manager ≡ some entry
      → entry.id ≡ id
      → let (answer, s') = close_client codec net Value id s in
        (answer ≡ true)
        × (has_client_id id s'.client_manager ≡ false)
        × (s'.closed ≡ (s.infos entry.info).conn ∷ s.closed)
        × (disconnects_of s' ≡ disconnects_of s + 1)
  unfolding close_server_client
  close_client-closes id entry s found own =
      let out = sym (close_client-found id entry s found) in
      (
        ap (λ p. p.0) (sym out),
        subst (λ p. has_client_id id p.1.client_manager ≡ false) out
            (subst (λ k. has_client_id id (remove_client k s.client_manager).1 ≡ false) (sym own)
              (not_contained id s.client_manager)),
        ap (λ p. p.1.closed) (sym out),
        ap (λ p. disconnects_of p.1) (sym out) ∙ close_server_client-disconnects entry s,
      )

  gone_not_timed_out : (r : RecvStatus) → disconnected r ≡ true → timed_out_status r ≡ false
  unfolding disconnected timed_out_status
  gone_not_timed_out RecvStatus.ok h = refl
  gone_not_timed_out RecvStatus.timeout h = cc
  gone_not_timed_out RecvStatus.closed h = refl
  gone_not_timed_out RecvStatus.error h = refl

  process_server_message-gone :
      (entry : ClientEntry) (r : RecvResult) (s : Socket)
      → disconnected r.status ≡ true
      → process_server_message codec net Value reg r entry s
        ≡ (returns, entry, close_server_client codec net Value entry s)
  unfolding process_server_message
  process_server_message-gone entry r s gone =
      if_intro (λ out. out ≡ (returns, entry, close_server_client codec net Value entry s))
        (timed_out_status r.status) _ _
        (λ late. absurd (cc (late, gone_not_timed_out r.status gone)))
        (λ _.
          if_intro (λ out. out ≡ (returns, entry, close_server_client codec net Value entry s))
            (disconnected r.status) _ _ (λ _. refl) (λ here. absurd (cc (here, gone))))

  -- close_client closes the client's socket, so that `recv` in the client's thread, which holds the
  -- entry with a buffer of its own, comes to CLOSED or ERROR, and the thread closes the client
  -- again: the disconnection is reported twice, and the thread returns.
  pub close_client-twice :
      (id : ℕ) (entry : ClientEntry) (buffer : MessageBuffer) (r : RecvResult) (s : Socket)
      → get_client id s.client_manager ≡ some entry
      → disconnected r.status ≡ true
      → let (answer, s') = close_client codec net Value id s in
        let (t, e, s'') =
          process_server_message codec net Value reg r (record entry { buffer = buffer }) s' in
        (t ≡ returns) × (disconnects_of s'' ≡ disconnects_of s + 2)
  close_client-twice id entry buffer r s found gone =
      let held : ClientEntry = record entry { buffer = buffer } in
      let once = close_server_client codec net Value entry s in
      let e =
        ap (λ p. process_server_message codec net Value reg r held p.1)
          (close_client-found id entry s found)
        ∙ process_server_message-gone held r once gone in
      let two = close_server_client-disconnects held once in
      let one = close_server_client-disconnects entry s in
      (ap (λ p. p.0) e, ap (λ p. disconnects_of p.2) e ∙ (omega (arith, one, two)))
