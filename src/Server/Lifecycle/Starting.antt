-- ===== src/Server/Lifecycle/Starting.antt =====
-- Starting the server (src/veltix/server/server.py).
use veltix.Prelude.{
  ◌≡◌, refl, sym, ap, ◌∙◌, subst, Bool, true, if_intro, Result, ok, err, eq_nat, eq_string, eq_list,
}
use veltix.Exceptions.{Exn}
use veltix.Network.Request.{Codec}
use veltix.Network.Sender.{Transport}
use veltix.Handler.RequestHandler.{get_route}
use veltix.SocketCore.BaseSocket.{BaseSocket}
use veltix.Server.Lifecycle.{Server, handler, announced, opened, start}
use veltix.Server.Lifecycle.Service.{
  serving, unbound, Service, is_started, is_stopped, is_serving, starts, after_start,
}
use veltix.Server.Lifecycle.Simulation.{Offers, Implements, Agree, emits_event-Implements}
use veltix.Server.Lifecycle.Opening.{Ready, opened-Ready}

module _ {codec : Codec} {net : Transport} {Value : Type 0}
    (core : BaseSocket codec net Value) where
  open net use {World}
  open core use {State, handler_of, bind_core, handler-bind, bound, not_bound}

  announced-eq :
      (out : Result Exn Bool × State) (r : Result Exn Bool) (s : Server core)
      → out.0 ≡ r
      → announced core out s ≡ announced core (r, out.1) s
  announced-eq out r s e = ap (λ x. announced core (x, out.1) s) e

  bind_core-Offers :
      (r : Result Exn (Unit {0})) (v : Service) (s : Server core)
      → Offers core (handler core s) v true
      → Offers core (handler_of (bind_core r s.socket).1) v true
  bind_core-Offers r v s o = subst (λ k. Offers core k v true) (sym (handler-bind r s.socket)) o

  announced-Agree :
      (r : Result Exn (Unit {0})) (v : Service) (s : Server core)
      → Ready core v s
      → Agree core (r, record v { status = starts r }) (announced core (bind_core r s.socket) s)
  unfolding announced starts is_started is_stopped is_serving get_route
  announced-Agree (ok u) v s ready =
      let (answer, runs) = bound s.socket ready.fresh in
      let o = bind_core-Offers (ok tt) v s ready.offers in
      subst (Agree core (ok tt, record v { status = serving })) (sym (announced-eq _ _ s answer)) (
        refl,
        emits_event-Implements core (record v { status = serving }) _ _
            (record {
              flags = record {
                flag_started = ready.flag_started;
                flag_closed = ready.flag_closed;
                flag_shutdown = ready.flag_shutdown;
                socket_runs = runs;
                socket_fresh = λ new. absurd (cc new);
              };
              offers = record {
                same_routes = o.same_routes;
                same_on_recv = o.same_on_recv;
                pool = o.pool;
              };
            }),
      )
  announced-Agree (err e) v s ready =
      let (answer, idle) = not_bound e s.socket ready.fresh in
      let o = bind_core-Offers (err e) v s ready.offers in
      subst (Agree core (err e, record v { status = unbound })) (sym (announced-eq _ _ s answer)) (
        refl,
        record {
          flags = record {
            flag_started = ready.flag_started;
            flag_closed = ready.flag_closed;
            flag_shutdown = ready.flag_shutdown;
            socket_runs = idle;
            socket_fresh = λ new. absurd (cc new);
          };
          offers = record {
            same_routes = o.same_routes;
            same_on_recv = o.same_on_recv;
            pool = o.pool;
          };
        },
      )

  pub start-Agree :
      (world : World) (binding : Result Exn (Unit {0})) (v : Service) (s : Server core)
      → Implements core v s
      → Agree core (after_start binding v) (start core world binding s)
  unfolding start after_start
  start-Agree world binding v s i =
      if_intro (λ out. Agree core (after_start binding v) out) s.started _ _
        (λ on.
          if_intro (λ x. Agree core x (ok tt, s)) (is_started v.status) _ _ (λ _. (refl, i))
            (λ off. absurd (cc (on, off, i.flags.flag_started))))
        (λ off.
          let spec_off = sym i.flags.flag_started ∙ off in
          if_intro
            (λ x. Agree core x (
              announced core (bind_core binding (opened core world s).socket)
                (opened core world s)))
            (is_started v.status) _ _ (λ on. absurd (cc (on, spec_off)))
            (λ _.
              announced-Agree binding v (opened core world s)
                (opened-Ready core world v s i spec_off)))
