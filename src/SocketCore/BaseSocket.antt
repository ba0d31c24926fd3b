-- ===== src/SocketCore/BaseSocket.antt =====
-- The interface of the socket cores (src/veltix/socket_core/base_socket.py), by which the server
-- uses either of them. A core's laws are what the server relies on.
use veltix.Prelude.{ℕ, ◌≡◌, Bool, true, false, Result, ok, err, eq_nat, eq_string, eq_list}
use veltix.Exceptions.{Exn}
use veltix.Network.Request.{Codec}
use veltix.Network.Sender.{Transport}
use veltix.Network.IdAllocator.{ClientAllocator}
use veltix.Server.ClientInfo.{ClientInfo}
use veltix.Handler.RequestHandler.{RequestHandler}
use veltix.SocketCore.ClientsManager.{InfoRef, ClientEntry, ClientsManager}

-- Two states of a request handler with the same user's callbacks, sender and pool
pub record SameSetup (codec : Codec) (net : Transport) (h k : RequestHandler codec net)
    : Type 0 where
  pub same_routes : h.routes ≡ k.routes
  pub same_on_recv : h.on_recv ≡ k.on_recv
  pub same_sender : h.sender ≡ k.sender
  pub same_executor : h.executor ≡ k.executor

-- `make` is the constructor, and a socket is fresh until it is bound or connected; the request handler is the one that the server has, too.
pub record BaseSocket (codec : Codec) (net : Transport) (Value : Type 0) : Type 1 where
  pub State : Type 0
  pub make : RequestHandler codec net → ℕ → (InfoRef → ClientInfo Value) → ℕ → State
  pub handler_of : State → RequestHandler codec net
  pub with_handler_of : RequestHandler codec net → State → State
  pub set_client_allocator : ClientAllocator → State → State
  pub manager_of : State → ClientsManager
  pub infos_of : State → InfoRef → ClientInfo Value
  pub next_info_of : State → ℕ
  pub is_running : State → Bool
  pub is_fresh : State → Bool
  pub bind_core : Result Exn (Unit {0}) → State → Result Exn Bool × State
  pub close_core : State → Bool × State
  pub close_client_core : ℕ → State → Result Exn Bool × State
  pub close_entry_core : ClientEntry → State → Result Exn Bool × State
  pub handler-make :
      (h : RequestHandler codec net) (size : ℕ) (infos : InfoRef → ClientInfo Value) (next : ℕ)
      → handler_of (make h size infos next) ≡ h
  pub idle_make :
      (h : RequestHandler codec net) (size : ℕ) (infos : InfoRef → ClientInfo Value) (next : ℕ)
      → is_running (make h size infos next) ≡ false
  pub fresh_make :
      (h : RequestHandler codec net) (size : ℕ) (infos : InfoRef → ClientInfo Value) (next : ℕ)
      → is_fresh (make h size infos next) ≡ true
  pub handler-with :
      (h : RequestHandler codec net) (s : State) → handler_of (with_handler_of h s) ≡ h
  pub running-with :
      (h : RequestHandler codec net) (s : State) → is_running (with_handler_of h s) ≡ is_running s
  pub fresh-with :
      (h : RequestHandler codec net) (s : State) → is_fresh (with_handler_of h s) ≡ is_fresh s
  pub fresh-set :
      (a : ClientAllocator) (s : State) → is_fresh (set_client_allocator a s) ≡ is_fresh s
  pub handler-set :
      (a : ClientAllocator) (s : State) → handler_of (set_client_allocator a s) ≡ handler_of s
  pub running-set :
      (a : ClientAllocator) (s : State) → is_running (set_client_allocator a s) ≡ is_running s
  pub handler-bind :
      (r : Result Exn (Unit {0})) (s : State) → handler_of (bind_core r s).1 ≡ handler_of s
  pub bound :
      (s : State)
      → is_fresh s ≡ true
      → ((bind_core (ok tt) s).0 ≡ ok true) × (is_running (bind_core (ok tt) s).1 ≡ true)
  pub not_bound :
      (e : Exn) (s : State)
      → is_fresh s ≡ true
      → ((bind_core (err e) s).0 ≡ err e) × (is_running (bind_core (err e) s).1 ≡ false)
  pub handler-close : (s : State) → SameSetup codec net (handler_of (close_core s).1) (handler_of s)
  pub idle_close : (s : State) → is_running (close_core s).1 ≡ false
