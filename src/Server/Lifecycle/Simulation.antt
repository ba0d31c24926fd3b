-- ===== src/Server/Lifecycle/Simulation.antt =====
-- A server and the abstract machine that it simulates (src/veltix/server/server.py).
use veltix.Prelude.{
  ◌≡◌, sym, ap, ◌∙◌, subst, Bool, true, not, none, [], Result, eq_nat, eq_string, eq_list,
}
use veltix.Prelude.Dict.{lookup}
use veltix.Exceptions.{Exn}
use veltix.Internal.Events.{Event}
use veltix.Network.Types.{MessageType}
use veltix.Network.Request.{Codec}
use veltix.Network.Sender.{Transport}
use veltix.Handler.RequestHandler.{RequestHandler, get_route, copy_routes}
use veltix.Handler.Routes.{
  register_routes, set_if_given, or_else, lookup-register_routes, register_routes-on_recv,
  register_routes-executor, set_if_given-on_recv, set_if_given-routes, set_if_given-executor,
}
use veltix.SocketCore.BaseSocket.{SameSetup, BaseSocket}
use veltix.Server.Lifecycle.{Server, handler, with_handler, emits_event}
use veltix.Server.Lifecycle.Service.{Status, created, Service, is_started, is_stopped, is_serving}

module _ {codec : Codec} {net : Transport} {Value : Type 0}
    (core : BaseSocket codec net Value) where
  open core use {is_running, handler-with, is_fresh, fresh-with, running-with}

  -- A request handler that has a service's callbacks, with a pool that takes work, or does not
  pub record Offers (h : RequestHandler codec net) (v : Service) (works : Bool) : Type 0 where
    pub same_routes : (t : MessageType) → get_route codec net t h ≡ v.routes t.code
    pub same_on_recv : h.on_recv ≡ v.on_recv
    pub pool : h.executor.running ≡ works

  -- The flags, and whether the socket runs, in a status
  pub record Flags (st : Status) (s : Server core) : Type 0 where
    pub flag_started : s.started ≡ is_started st
    pub flag_closed : s.closed ≡ is_stopped st
    pub flag_shutdown : s.shutdown_event ≡ is_stopped st
    pub socket_runs : is_running s.socket ≡ is_serving st
    pub socket_fresh : st ≡ created → is_fresh s.socket ≡ true

  pub record Implements (v : Service) (s : Server core) : Type 0 where
    pub flags : Flags v.status s
    pub offers : Offers (handler core s) v (not (is_stopped v.status))

  -- The same answer, and states that go together
  abbrev pub Agree : Result Exn (Unit {0}) × Service → Result Exn (Unit {0}) × Server core → Type 0
  Agree (a, v) (b, s) = (a ≡ b) × Implements v s

  pub with_handler-Implements :
      (v : Service) (h : RequestHandler codec net) (s : Server core)
      → Flags v.status s
      → Offers h v (not (is_stopped v.status))
      → Implements v (with_handler core h s)
  with_handler-Implements v h s f o = record {
    flags = record {
      flag_started = f.flag_started;
      flag_closed = f.flag_closed;
      flag_shutdown = f.flag_shutdown;
      socket_runs = running-with h s.socket ∙ f.socket_runs;
      socket_fresh = λ new. fresh-with h s.socket ∙ f.socket_fresh new;
    };
    offers = subst (λ k. Offers k v (not (is_stopped v.status))) (sym (handler-with h s.socket)) o;
  }

  pub emits_event-Implements :
      (v : Service) (e : Event) (s : Server core)
      → Implements v s
      → Implements v (emits_event core e s)
  unfolding get_route
  emits_event-Implements v e s i = with_handler-Implements v _ s i.flags (record {
    same_routes = i.offers.same_routes;
    same_on_recv = i.offers.same_on_recv;
    pool = i.offers.pool;
  })

  pub SameSetup-Offers :
      (h k : RequestHandler codec net) (v : Service) (works : Bool)
      → SameSetup codec net h k
      → Offers k v works
      → Offers h v works
  unfolding get_route
  SameSetup-Offers h k v works same o = record {
    same_routes = λ t. ap (lookup t.code) same.same_routes ∙ o.same_routes t;
    same_on_recv = same.same_on_recv ∙ o.same_on_recv;
    pool = ap (λ x. x.running) same.same_executor ∙ o.pool;
  }

  -- A new request handler that takes the callbacks of an old one over
  pub takeover-Offers :
      (old new : RequestHandler codec net) (v : Service) (works : Bool)
      → new.routes ≡ []
      → new.on_recv ≡ none
      → new.executor.running ≡ true
      → Offers old v works
      → Offers
          (set_if_given codec net old.on_recv
            (register_routes codec net (copy_routes codec net old) new))
          v
          true
  unfolding get_route copy_routes lookup
  takeover-Offers old new v works no_routes nothing on o =
      let routed = register_routes codec net old.routes new in
      record {
        same_routes = λ t.
            ap (lookup t.code) (set_if_given-routes codec net old.on_recv routed)
            ∙ lookup-register_routes codec net t.code old.routes new
            ∙ ap (λ r. or_else (lookup t.code r) (lookup t.code old.routes)) no_routes
            ∙ o.same_routes t;
        same_on_recv =
            set_if_given-on_recv codec net old.on_recv routed
              (register_routes-on_recv codec net old.routes new ∙ nothing)
            ∙ o.same_on_recv;
        pool =
            ap (λ x. x.running)
              (set_if_given-executor codec net old.on_recv routed
                ∙ register_routes-executor codec net old.routes new)
            ∙ on;
      }
