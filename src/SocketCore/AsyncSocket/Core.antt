-- ===== src/SocketCore/AsyncSocket/Core.antt =====
-- The core on a selector behind the interface of the server
-- (src/veltix/socket_core/async_socket.py).
use veltix.Prelude.{
  ℕ, ◌≡◌, refl, ap, ◌∙◌, Bool, true, false, not, ◌&&◌, some, arith, if◌then◌else◌, is_some,
  if_intro, Result, ok, err, eq_nat, eq_string, eq_list,
}
use veltix.Exceptions.{Exn, key_error, value_error}
use veltix.Network.Request.{Codec}
use veltix.Network.Sender.{Transport}
use veltix.Server.ClientInfo.{ClientInfo}
use veltix.Handler.RequestHandler.{RequestHandler}
use veltix.SocketCore.ClientsManager.{InfoRef}
use veltix.SocketCore.BaseSocket.{BaseSocket}
use veltix.SocketCore.AsyncSocket.{
  Role, listen, AsyncSocket, async_socket, register_self, bound_as, bind, close_entry, close_client,
  close,
}
use veltix.SocketCore.AsyncSocket.Closing.{close-Kept}

module _ (codec : Codec) (net : Transport) (Value : Type 0) where
  abbrev Socket : Type 0
  Socket = AsyncSocket codec net Value

  -- A socket that is as `__init__` made it
  abbrev pub fresh_socket : Socket → Bool
  fresh_socket s = not s.running && (s.sock_open && s.selector_open) && not (is_some s.watched_self)

  pub bind-fresh :
      (s : Socket)
      → fresh_socket s ≡ true
      → bind codec net Value (ok tt) s
        ≡ (ok true, record s { watched_self = some listen; running = true })
  unfolding bind bound_as register_self
  bind-fresh s fresh =
      let open_ : not (s.sock_open && s.selector_open) ≡ false = ground arith in
      let unwatched : is_some s.watched_self ≡ false = ground arith in
      let watching : Result Exn (Unit {0}) × Socket =
        (ok tt, record s { watched_self = some listen }) in
      ap
        (λ (b : Bool). bound_as codec net Value (
          if b
          then (err value_error, s)
          else if is_some s.watched_self
          then (err key_error, s)
          else watching))
        open_
      ∙ ap (λ (b : Bool). bound_as codec net Value (if b then (err key_error, s) else watching))
          unwatched

  bound_as-request_handler :
      (out : Result Exn (Unit {0}) × Socket)
      → (bound_as codec net Value out).1.request_handler ≡ out.1.request_handler
  unfolding bound_as
  bound_as-request_handler (ok u, s) = refl
  bound_as-request_handler (err e, s) = refl

  register_self-request_handler :
      (role : Role) (s : Socket)
      → (register_self codec net Value role s).1.request_handler ≡ s.request_handler
  unfolding register_self
  register_self-request_handler role s =
      if_intro (λ (out : Result Exn (Unit {0}) × Socket). out.1.request_handler ≡ s.request_handler)
        (not (s.sock_open && s.selector_open)) _ _ (λ _. refl)
        (λ _.
          if_intro
            (λ (out : Result Exn (Unit {0}) × Socket). out.1.request_handler ≡ s.request_handler)
            (is_some s.watched_self) _ _ (λ _. refl) (λ _. refl))

  pub bind-request_handler :
      (r : Result Exn (Unit {0})) (s : Socket)
      → (bind codec net Value r s).1.request_handler ≡ s.request_handler
  unfolding bind
  bind-request_handler (err e) s = refl
  bind-request_handler (ok u) s =
      bound_as-request_handler (register_self codec net Value listen s)
      ∙ register_self-request_handler listen s

  pub bind-err : (e : Exn) (s : Socket) → bind codec net Value (err e) s ≡ (err e, s)
  unfolding bind
  bind-err e s = refl

  pub make-request_handler :
      (h : RequestHandler codec net) (size : ℕ) (infos : InfoRef → ClientInfo Value) (next : ℕ)
      → (async_socket codec net Value h size infos next).request_handler ≡ h
  unfolding async_socket
  make-request_handler h size infos next = refl

  pub make-fresh :
      (h : RequestHandler codec net) (size : ℕ) (infos : InfoRef → ClientInfo Value) (next : ℕ)
      → let s = async_socket codec net Value h size infos next in
        (s.running ≡ false) × (fresh_socket s ≡ true)
  unfolding async_socket
  make-fresh h size infos next = (refl, refl)

  pub fresh-running : (s : Socket) → fresh_socket s ≡ true → s.running ≡ false
  fresh-running s fresh = ground arith

  unfoldable pub async_core : BaseSocket codec net Value
  async_core = record {
    State = Socket;
    make = async_socket codec net Value;
    handler_of = λ s. s.request_handler;
    with_handler_of = λ h s. record s { request_handler = h };
    set_client_allocator = λ a s. record s { client_allocator = some a };
    manager_of = λ s. s.client_manager;
    infos_of = λ s. s.infos;
    next_info_of = λ s. s.next_info;
    is_running = λ s. s.running;
    is_fresh = fresh_socket;
    bind_core = bind codec net Value;
    close_core = close codec net Value;
    close_client_core = close_client codec net Value;
    close_entry_core = close_entry codec net Value;
    handler-make = make-request_handler;
    idle_make = λ h size infos next. (make-fresh h size infos next).0;
    fresh_make = λ h size infos next. (make-fresh h size infos next).1;
    fresh-with = λ h s. refl;
    fresh-set = λ a s. refl;
    handler-with = λ h s. refl;
    running-with = λ h s. refl;
    handler-set = λ a s. refl;
    running-set = λ a s. refl;
    handler-bind = bind-request_handler;
    bound =
        λ s fresh. (ap (λ p. p.0) (bind-fresh s fresh), ap (λ p. p.1.running) (bind-fresh s fresh));
    not_bound = λ e s fresh. (
      ap (λ p. p.0) (bind-err e s),
      ap (λ p. p.1.running) (bind-err e s) ∙ fresh-running s fresh,
    );
    handler-close = λ s. (close-Kept codec net Value s).setup;
    idle_close = λ s. (close-Kept codec net Value s).runs;
  }
