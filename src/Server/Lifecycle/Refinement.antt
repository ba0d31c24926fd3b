-- ===== src/Server/Lifecycle/Refinement.antt =====
-- The server refines the abstract machine (src/veltix/server/server.py).
use veltix.Prelude.{
  ℕ, ◌≡◌, refl, sym, ap, ◌∙◌, subst, true, false, none, some, List, [], ◌∷◌, if◌then◌else◌, ◌==◌,
  if_intro, Result, ok, eq_nat, eq_string, eq_list,
}
use veltix.Prelude.Dict.{lookup}
use veltix.Exceptions.{Exn}
use veltix.Network.Request.{Codec}
use veltix.Network.Sender.{Transport}
use veltix.Server.ClientInfo.{ClientInfo}
use veltix.Handler.RequestHandler.{
  shutdown_executor, request_handler, set_on_recv, get_route, shutdown,
}
use veltix.Handler.Routes.{
  register_routes, or_else, lookup-register_route, register_routes-on_recv,
  register_routes-executor,
}
use veltix.SocketCore.ClientsManager.{InfoRef}
use veltix.SocketCore.BaseSocket.{BaseSocket}
use veltix.Server.Lifecycle.{
  ServerConfig, Server, handler, with_handler, server, on_recv, route, start, close_all, restart,
}
use veltix.Server.Lifecycle.Service.{
  Status, created, serving, unbound, stopped, Service, is_started, is_stopped, is_serving, Call,
  starting, restarting, closing, receiving, routing, serve_call, serve_calls, new_service,
}
use veltix.Server.Lifecycle.Simulation.{
  Offers, Implements, Agree, with_handler-Implements, emits_event-Implements, SameSetup-Offers,
}
use veltix.Server.Lifecycle.Opening.{new_handler, new_idle, new_fresh}
use veltix.Server.Lifecycle.Starting.{start-Agree}

module _ {codec : Codec} {net : Transport} {Value : Type 0}
    (core : BaseSocket codec net Value) where
  open net use {World}
  open core use {handler-with, handler-close, idle_close}

  -- A call, on the server
  unfoldable pub call : World → Call → Server core → Result Exn (Unit {0}) × Server core
  call world (starting binding) s = start core world binding s
  call world (restarting binding) s = restart core world binding s
  call world closing s = (ok tt, close_all core s)
  call world (receiving f) s = (ok tt, on_recv core f s)
  call world (routing t f) s = (ok tt, route core t f s)

  -- A sequence of calls, each in its own world of the network, and their answers
  unfoldable pub calls :
      List (World × Call) → Server core → List (Result Exn (Unit {0})) × Server core
  calls [] s = ([], s)
  calls ((world, c) ∷ cs) s =
      let (answer, s') = call world c s in
      let (answers, s'') = calls cs s' in (answer ∷ answers, s'')

  only_stopped : (st : Status) → is_stopped st ≡ true → st ≡ stopped
  unfolding is_stopped
  only_stopped created h = absurd (cc h)
  only_stopped serving h = absurd (cc h)
  only_stopped unbound h = absurd (cc h)
  only_stopped stopped h = refl

  close_all-Implements :
      (v : Service) (s : Server core)
      → Implements core v s
      → Implements core (record v { status = stopped }) (close_all core s)
  unfolding close_all is_started is_stopped is_serving get_route shutdown shutdown_executor
  close_all-Implements v s i =
      let v' : Service = record v { status = stopped } in
      let h = shutdown codec net (handler core s) in
      let shut = with_handler core h s in
      if_intro (Implements core v') s.closed _ _
        (λ closed.
          subst (λ st. Implements core (record v { status = st }) s)
            (only_stopped v.status (sym i.flags.flag_closed ∙ closed)) i)
        (λ _. emits_event-Implements core v' _ _ (record {
          flags = record {
            flag_started = refl;
            flag_closed = refl;
            flag_shutdown = refl;
            socket_runs = idle_close shut.socket;
            socket_fresh = λ new. absurd (cc new);
          };
          offers = SameSetup-Offers core _ _ v' false (handler-close shut.socket) (
              subst (λ k. Offers core k v' false) (sym (handler-with h s.socket))
                (record {
                  same_routes = i.offers.same_routes;
                  same_on_recv = i.offers.same_on_recv;
                  pool = refl;
                }));
        }))

  pub call-Agree :
      (world : World) (c : Call) (v : Service) (s : Server core)
      → Implements core v s
      → Agree core (serve_call c v) (call world c s)
  unfolding serve_call call restart on_recv set_on_recv route get_route register_routes
  call-Agree world (starting binding) v s i = start-Agree core world binding v s i
  call-Agree world (restarting binding) v s i =
      start-Agree core world binding _ _ (close_all-Implements v s i)
  call-Agree world closing v s i = (refl, close_all-Implements v s i)
  call-Agree world (receiving f) v s i = (
    refl,
    with_handler-Implements core (record v { on_recv = some f }) _ s i.flags
        (record { same_routes = i.offers.same_routes; same_on_recv = refl; pool = i.offers.pool }),
  )
  call-Agree world (routing t f) v s i =
      let one = (t.code, f) ∷ [] in
      (
        refl,
        with_handler-Implements core
            (record v { routes = λ k. or_else (v.routes k) (if t.code == k then some f else none) })
            _ s i.flags
            (record {
              same_routes = λ u.
                  lookup-register_route codec net u.code t.code f (handler core s)
                  ∙ ap (λ o. or_else o (if t.code == u.code then some f else none))
                      (i.offers.same_routes u);
              same_on_recv =
                  register_routes-on_recv codec net one (handler core s) ∙ i.offers.same_on_recv;
              pool =
                  ap (λ x. x.running) (register_routes-executor codec net one (handler core s))
                  ∙ i.offers.pool;
            }),
      )

  calls-Implements :
      (cs : List (World × Call)) (v : Service) (s : Server core)
      → Implements core v s
      → ((serve_calls cs v).0 ≡ (calls cs s).0)
        × Implements core (serve_calls cs v).1 (calls cs s).1
  unfolding serve_calls calls
  calls-Implements [] v s i = (refl, i)
  calls-Implements ((world, c) ∷ cs) v s i =
      let (same, j) = call-Agree world c v s i in
      let (rest, k) = calls-Implements cs _ _ j in (cc (same, rest), k)

  server-Implements :
      (config : ServerConfig) (world : World) (infos : InfoRef → ClientInfo Value) (n : ℕ)
      → Implements core new_service (server core config world infos n)
  unfolding server is_started is_stopped is_serving get_route request_handler lookup
  server-Implements config world infos n =
      let new = new_handler core config world [] infos n in
      record {
        flags = record {
          flag_started = refl;
          flag_closed = refl;
          flag_shutdown = refl;
          socket_runs = new_idle core config world [] infos n;
          socket_fresh = λ new. new_fresh core config world [] infos n;
        };
        offers = record {
          same_routes = λ t. ap (λ h. lookup t.code h.routes) new;
          same_on_recv = ap (λ h. h.on_recv) new;
          pool = ap (λ h. h.executor.running) new;
        };
      }

  -- Over every socket core that obeys the laws of BaseSocket, a new server refines the abstract
  -- machine: to any sequence of start, close_all, restart, on_recv and route, whatever the binding
  -- of its sockets comes to, it gives the answers of the machine, and afterwards its flags and its
  -- socket are those of the machine's status, every message type has the machine's route, the
  -- callback is the machine's, and the pool takes work unless the server is closed.
  pub server-refines :
      (config : ServerConfig) (world : World) (infos : InfoRef → ClientInfo Value) (n : ℕ)
      (cs : List (World × Call))
      → ((serve_calls cs new_service).0 ≡ (calls cs (server core config world infos n)).0)
        × Implements core
            (serve_calls cs new_service).1
            (calls cs (server core config world infos n)).1
  server-refines config world infos n cs =
      calls-Implements cs new_service _ (server-Implements config world infos n)
