-- ===== src/SocketCore/ThreadingSocket/Core.antt =====
-- The threading core behind the interface of the server
-- (src/veltix/socket_core/threading_socket.py).
use veltix.Prelude.{
  ℕ, ◌≡◌, refl, ap, ◌∙◌, Bool, true, false, not, some, List, [], ◌∷◌, arith, if◌then◌else◌,
  if_intro, Result, ok, err, eq_nat, eq_string, eq_list,
}
use veltix.Exceptions.{Exn}
use veltix.Network.Request.{Codec}
use veltix.Network.Sender.{Transport}
use veltix.Server.ClientInfo.{ClientInfo}
use veltix.Handler.RequestHandler.{RequestHandler}
use veltix.SocketCore.ClientsManager.{InfoRef, ClientEntry, visit, iter_on_clients}
use veltix.SocketCore.BaseSocket.{SameSetup, BaseSocket}
use veltix.SocketCore.ThreadingSocket.{
  ThreadingSocket, threading_socket, bind, close_server_client, close_entry, close_client,
  close_all,
}
use veltix.Prelude.Dict.{values}

module _ (codec : Codec) (net : Transport) (Value : Type 0) where
  abbrev Socket : Type 0
  Socket = ThreadingSocket codec net Value

  visit-SameSetup :
      (es : List ClientEntry) (s : Socket)
      → SameSetup codec net
          (visit (close_server_client codec net Value) es s).request_handler
          s.request_handler
  unfolding visit close_server_client
  visit-SameSetup [] s = record {
    same_routes = refl;
    same_on_recv = refl;
    same_sender = refl;
    same_executor = refl;
  }
  visit-SameSetup (e ∷ es) s =
      let ih = visit-SameSetup es (close_server_client codec net Value e s) in
      record {
        same_routes = ih.same_routes;
        same_on_recv = ih.same_on_recv;
        same_sender = ih.same_sender;
        same_executor = ih.same_executor;
      }

  visit-running :
      (es : List ClientEntry) (s : Socket)
      → (visit (close_server_client codec net Value) es s).running ≡ s.running
  unfolding visit close_server_client
  visit-running [] s = refl
  visit-running (e ∷ es) s = visit-running es (close_server_client codec net Value e s)

  pub close_all-SameSetup :
      (s : Socket)
      → SameSetup codec net (close_all codec net Value s).1.request_handler s.request_handler
  unfolding close_all iter_on_clients
  close_all-SameSetup s =
      let ih =
        visit-SameSetup (values s.client_manager.clients)
          (record s { running = false; sock_open = false }) in
      record {
        same_routes = ih.same_routes;
        same_on_recv = ih.same_on_recv;
        same_sender = ih.same_sender;
        same_executor = ih.same_executor;
      }

  pub close_all-running : (s : Socket) → (close_all codec net Value s).1.running ≡ false
  unfolding close_all iter_on_clients
  close_all-running s = visit-running (values s.client_manager.clients) _

  pub bind-ok :
      (s : Socket)
      → s.running ≡ false
      → bind codec net Value (ok tt) s ≡ (ok true, record s { running = true })
  unfolding bind
  bind-ok s idle =
      ap (λ (b : Bool). if b then (ok false, s) else (ok true, record s { running = true })) idle

  pub bind-err :
      (e : Exn) (s : Socket) → s.running ≡ false → bind codec net Value (err e) s ≡ (err e, s)
  unfolding bind
  bind-err e s idle = ap (λ (b : Bool). if b then (ok false, s) else (err e, s)) idle

  pub bind-handler :
      (r : Result Exn (Unit {0})) (s : Socket)
      → (bind codec net Value r s).1.request_handler ≡ s.request_handler
  unfolding bind
  bind-handler (ok u) s =
      if_intro (λ (p : Result Exn Bool × Socket). p.1.request_handler ≡ s.request_handler) s.running
        _ _ (λ _. refl) (λ _. refl)
  bind-handler (err e) s =
      if_intro (λ (p : Result Exn Bool × Socket). p.1.request_handler ≡ s.request_handler) s.running
        _ _ (λ _. refl) (λ _. refl)

  pub make-request_handler :
      (h : RequestHandler codec net) (size : ℕ) (infos : InfoRef → ClientInfo Value) (next : ℕ)
      → (threading_socket codec net Value h size infos next).request_handler ≡ h
  unfolding threading_socket
  make-request_handler h size infos next = refl

  pub make-running :
      (h : RequestHandler codec net) (size : ℕ) (infos : InfoRef → ClientInfo Value) (next : ℕ)
      → (threading_socket codec net Value h size infos next).running ≡ false
  unfolding threading_socket
  make-running h size infos next = refl

  pub not_running : (s : Socket) → not s.running ≡ true → s.running ≡ false
  not_running s fresh = ground arith

  -- No exception
  abbrev answered : Bool × Socket → Result Exn Bool × Socket
  answered (b, s) = (ok b, s)

  unfoldable pub threading_core : BaseSocket codec net Value
  threading_core = record {
    State = Socket;
    make = threading_socket codec net Value;
    handler_of = λ s. s.request_handler;
    with_handler_of = λ h s. record s { request_handler = h };
    set_client_allocator = λ a s. record s { client_allocator = some a };
    manager_of = λ s. s.client_manager;
    infos_of = λ s. s.infos;
    next_info_of = λ s. s.next_info;
    is_running = λ s. s.running;
    is_fresh = λ s. not s.running;
    bind_core = bind codec net Value;
    close_core = close_all codec net Value;
    close_client_core = λ id s. answered (close_client codec net Value id s);
    close_entry_core = λ entry s. answered (close_entry codec net Value entry s);
    handler-make = make-request_handler;
    idle_make = make-running;
    fresh_make = λ h size infos next. ap not (make-running h size infos next);
    fresh-with = λ h s. refl;
    fresh-set = λ a s. refl;
    handler-with = λ h s. refl;
    running-with = λ h s. refl;
    handler-set = λ a s. refl;
    running-set = λ a s. refl;
    handler-bind = bind-handler;
    bound = λ s fresh.
        let idle = not_running s fresh in
        (ap (λ p. p.0) (bind-ok s idle), ap (λ p. p.1.running) (bind-ok s idle));
    not_bound = λ e s fresh.
        let idle = not_running s fresh in
        (ap (λ p. p.0) (bind-err e s idle), ap (λ p. p.1.running) (bind-err e s idle) ∙ idle);
    handler-close = close_all-SameSetup;
    idle_close = close_all-running;
  }
