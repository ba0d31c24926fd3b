-- ===== src/SocketCore/AsyncSocket/Closing.antt =====
-- What closing clients leaves alone (src/veltix/socket_core/async_socket.py).
use veltix.Prelude.{
  ◌≡◌, refl, ◌∙◌, false, Option, none, some, List, [], ◌∷◌, ◌==◌, if_intro, any, Result, ok, err,
  eq_nat, eq_string, eq_list,
}
use veltix.Prelude.Dict.{contains, values}
use veltix.Exceptions.{Exn}
use veltix.Network.Request.{Codec}
use veltix.Network.Sender.{SocketId, Transport}
use veltix.SocketCore.ClientsManager.{ClientEntry}
use veltix.SocketCore.BaseSocket.{SameSetup}
use veltix.SocketCore.AsyncSocket.{
  Role, is_key_error, AsyncSocket, unregister_watched, unregister_self, unregister_client,
  forgotten, close_unregistered, close_server_client, if_closed, close_each, closed_selector,
  close_unwatched, close,
}

module _ (codec : Codec) (net : Transport) (Value : Type 0) where
  abbrev Socket : Type 0
  Socket = AsyncSocket codec net Value

  -- What closing clients leaves alone
  pub record Kept (t s : Socket) : Type 0 where
    pub setup : SameSetup codec net t.request_handler s.request_handler
    pub runs : t.running ≡ s.running

  Kept-refl : (s : Socket) → Kept s s
  Kept-refl s = record {
    setup = record {
      same_routes = refl;
      same_on_recv = refl;
      same_sender = refl;
      same_executor = refl;
    };
    runs = refl;
  }

  Kept-trans : (u t s : Socket) → Kept u t → Kept t s → Kept u s
  Kept-trans u t s k l = record {
    setup = record {
      same_routes = k.setup.same_routes ∙ l.setup.same_routes;
      same_on_recv = k.setup.same_on_recv ∙ l.setup.same_on_recv;
      same_sender = k.setup.same_sender ∙ l.setup.same_sender;
      same_executor = k.setup.same_executor ∙ l.setup.same_executor;
    };
    runs = k.runs ∙ l.runs;
  }

  forgotten-Kept : (entry : ClientEntry) (s : Socket) → Kept (forgotten codec net Value entry s) s
  unfolding forgotten
  forgotten-Kept entry s = record {
    setup = record {
      same_routes = refl;
      same_on_recv = refl;
      same_sender = refl;
      same_executor = refl;
    };
    runs = refl;
  }

  unregister_client-Kept :
      (conn : SocketId) (s : Socket) → Kept (unregister_client codec net Value conn s).1 s
  unfolding unregister_client
  unregister_client-Kept conn s =
      let same = Kept-refl s in
      if_intro (λ (out : Result Exn (Unit {0}) × Socket). Kept out.1 s) (contains conn s.watched) _
        _ (λ _. record { setup = same.setup; runs = refl })
        (λ _.
          if_intro (λ (out : Result Exn (Unit {0}) × Socket). Kept out.1 s)
            (any (λ c. c == conn) s.closed) _ _ (λ _. same) (λ _. same))

  close_unregistered-Kept :
      (entry : ClientEntry) (out : Result Exn (Unit {0}) × Socket) (s : Socket)
      → Kept out.1 s
      → Kept (close_unregistered codec net Value entry out).1 s
  unfolding close_unregistered
  close_unregistered-Kept entry (ok u, t) s k = Kept-trans _ t s (forgotten-Kept entry t) k
  close_unregistered-Kept entry (err e, t) s k =
      if_intro (λ (out : Result Exn (Unit {0}) × Socket). Kept out.1 s) (is_key_error e) _ _
        (λ _. Kept-trans _ t s (forgotten-Kept entry t) k) (λ _. k)

  if_closed-Kept :
      (out : Result Exn (Unit {0}) × Socket) (next : Socket → Result Exn (Unit {0}) × Socket)
      (s : Socket)
      → Kept out.1 s
      → ((t : Socket) → Kept (next t).1 t)
      → Kept (if_closed codec net Value out next).1 s
  unfolding if_closed
  if_closed-Kept (ok u, t) next s k more = Kept-trans _ t s (more t) k
  if_closed-Kept (err e, t) next s k more = k

  close_each-Kept :
      (es : List ClientEntry) (s : Socket) → Kept (close_each codec net Value es s).1 s
  unfolding close_each close_server_client
  close_each-Kept [] s = Kept-refl s
  close_each-Kept (e ∷ es) s =
      if_closed-Kept _ (close_each codec net Value es) s
        (close_unregistered-Kept e _ s (unregister_client-Kept (s.infos e.info).conn s))
        (close_each-Kept es)

  closed_selector-Kept :
      (out : Result Exn (Unit {0}) × Socket) (s : Socket)
      → Kept out.1 s
      → Kept (closed_selector codec net Value out).1 s
  unfolding closed_selector
  closed_selector-Kept (ok u, t) s k = record { setup = k.setup; runs = k.runs }
  closed_selector-Kept (err e, t) s k = k

  close_unwatched-Kept :
      (role : Option Role) (s : Socket)
      → Kept (close_unwatched codec net Value (unregister_watched codec net Value role s)).1 s
  unfolding close_unwatched unregister_watched
  close_unwatched-Kept none s = Kept-refl s
  close_unwatched-Kept (some role) s =
      let k =
        close_each-Kept (values s.client_manager.clients)
          (record s { watched_self = none; sock_open = false }) in
      closed_selector-Kept _ s (record { setup = k.setup; runs = k.runs })

  pub close-Kept : (s : Socket) → Kept (close codec net Value s).1 (record s { running = false })
  unfolding close unregister_self
  close-Kept s = close_unwatched-Kept s.watched_self (record s { running = false })
