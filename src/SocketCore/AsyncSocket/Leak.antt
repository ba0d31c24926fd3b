-- ===== src/SocketCore/AsyncSocket/Leak.antt =====
-- Closing a socket that did not connect (src/veltix/socket_core/async_socket.py).
use veltix.Prelude.{
  ℕ, ◌≡◌, refl, sym, ap, subst, Bool, true, false, none, err, eq_nat, eq_string, eq_list,
}
use veltix.Prelude.Text.{Text}
use veltix.Exceptions.{Exn}
use veltix.Internal.Version.{Version, eq_version}
use veltix.Network.Request.{Codec}
use veltix.Network.Sender.{Transport}
use veltix.Handler.Handshake.{Peer}
use veltix.Handler.RequestHandler.{RequestHandler}
use veltix.SocketCore.ClientsManager.{InfoRef}
use veltix.SocketCore.AsyncSocket.{
  AsyncSocket, async_socket, unregister_watched, unregister_self, close_unwatched, close,
  disconnect_unwatched, disconnect,
}
use veltix.Server.ClientInfo.{ClientInfo}
use veltix.SocketCore.AsyncSocket.Connecting.{connect_failed, connect}

module _ (codec : Codec) (net : Transport) (Value : Type 0) where
  abbrev Socket : Type 0
  Socket = AsyncSocket codec net Value

  -- Whether a call answered False, on a socket that is still open and that nothing watches
  abbrev pub Leaks : Bool × Socket → Type 0
  Leaks (answer, s) =
      (answer ≡ false) × (s.sock_open ≡ true) × (s.watched_self ≡ none) × (s.running ≡ false)

  close-Leaks :
      (s : Socket) → s.watched_self ≡ none → s.sock_open ≡ true → Leaks (close codec net Value s)
  unfolding close unregister_self unregister_watched close_unwatched
  close-Leaks s unwatched open_ =
      subst Leaks
        (ap
          (λ o.
            close_unwatched codec net Value
              (unregister_watched codec net Value o (record s { running = false })))
          (sym unwatched))
        (refl, open_, unwatched, refl)

  disconnect-Leaks :
      (s : Socket)
      → s.watched_self ≡ none
      → s.sock_open ≡ true
      → Leaks (disconnect codec net Value s)
  unfolding disconnect unregister_self unregister_watched disconnect_unwatched
  disconnect-Leaks s unwatched open_ =
      subst Leaks
        (ap
          (λ o.
            disconnect_unwatched codec net Value
              (unregister_watched codec net Value o (record s { running = false })))
          (sym unwatched))
        (refl, open_, unwatched, refl)

  -- A new socket whose `connect` fails by an exception of the TCP connection answers False, and
  -- neither `close` nor `disconnect` closes it afterwards: both answer False, since the selector
  -- does not watch it, and the socket stays open.
  pub connect-Leaks :
      (peer : Peer) (e : Exn) (own : Version) (version : Text) (w : peer.World)
      (h : RequestHandler codec net) (size : ℕ) (infos : InfoRef → ClientInfo Value) (next : ℕ)
      → let (answer, s) =
          connect codec net Value peer
            (err e)
            own
            version
            w
            (async_socket codec net Value h size infos next) in
        (answer ≡ false) × Leaks (close codec net Value s) × Leaks (disconnect codec net Value s)
  unfolding connect connect_failed async_socket
  connect-Leaks peer e own version w h size infos next =
      (refl, close-Leaks _ refl refl, disconnect-Leaks _ refl refl)
