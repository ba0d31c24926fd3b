-- ===== src/Server/Lifecycle/Opening.antt =====
-- A server before it binds its socket (src/veltix/server/server.py).
use veltix.Prelude.{
  ℕ, ◌≡◌, refl, sym, ap, ◌∙◌, subst, Bool, true, false, not, some, if_intro, eq_nat, eq_string,
  eq_list,
}
use veltix.Internal.Events.{Trace}
use veltix.Network.Request.{Codec}
use veltix.Network.Sender.{Transport}
use veltix.Server.ClientInfo.{ClientInfo}
use veltix.Handler.RequestHandler.{request_handler}
use veltix.SocketCore.ClientsManager.{InfoRef}
use veltix.SocketCore.BaseSocket.{BaseSocket}
use veltix.Server.Lifecycle.{
  ServerConfig, Server, handler, server_sender, init_components, reinit, opened,
}
use veltix.Server.Lifecycle.Service.{
  Status, created, serving, unbound, stopped, Service, is_started, is_stopped,
}
use veltix.Server.Lifecycle.Simulation.{Offers, Implements, takeover-Offers}

module _ {codec : Codec} {net : Transport} {Value : Type 0}
    (core : BaseSocket codec net Value) where
  open net use {World}
  open core use {
    handler_of, is_running, handler-make, idle_make, handler-with, running-with, handler-set,
    running-set, is_fresh, fresh-with, fresh_make, fresh-set,
  }

  -- A server that is about to bind its socket
  pub record Ready (v : Service) (s : Server core) : Type 0 where
    pub flag_started : s.started ≡ true
    pub flag_closed : s.closed ≡ false
    pub flag_shutdown : s.shutdown_event ≡ false
    pub fresh : is_fresh s.socket ≡ true
    pub offers : Offers core (handler core s) v true

  pub new_handler :
      (config : ServerConfig) (world : World) (trace : Trace) (infos : InfoRef → ClientInfo Value)
      (n : ℕ)
      → handler_of (init_components core config world trace infos n)
        ≡ request_handler codec net true (some (server_sender core config.id_window world)) trace
  unfolding init_components
  new_handler config world trace infos n = handler-set _ _ ∙ handler-make _ _ infos n

  pub new_idle :
      (config : ServerConfig) (world : World) (trace : Trace) (infos : InfoRef → ClientInfo Value)
      (n : ℕ)
      → is_running (init_components core config world trace infos n) ≡ false
  unfolding init_components
  new_idle config world trace infos n = running-set _ _ ∙ idle_make _ _ infos n

  pub new_fresh :
      (config : ServerConfig) (world : World) (trace : Trace) (infos : InfoRef → ClientInfo Value)
      (n : ℕ)
      → is_fresh (init_components core config world trace infos n) ≡ true
  unfolding init_components
  new_fresh config world trace infos n = fresh-set _ _ ∙ fresh_make _ _ infos n

  reinit-Ready :
      (world : World) (v : Service) (works : Bool) (s : Server core)
      → s.started ≡ true
      → s.closed ≡ false
      → s.shutdown_event ≡ false
      → Offers core (handler core s) v works
      → Ready v (reinit core world s)
  unfolding reinit request_handler
  reinit-Ready world v works s on open_ unset o =
      let new =
        new_handler s.config world (handler core s).trace (core.infos_of s.socket)
          (core.next_info_of s.socket) in
      record {
        flag_started = on;
        flag_closed = open_;
        flag_shutdown = unset;
        fresh = fresh-with _ _ ∙ new_fresh s.config world (handler core s).trace _ _;
        offers =
            subst (λ k. Offers core k v true) (sym (handler-with _ _))
              (takeover-Offers core (handler core s) _ v works (ap (λ h. h.routes) new)
                (ap (λ h. h.on_recv) new) (ap (λ h. h.executor.running) new) o);
      }

  only_created : (st : Status) → is_started st ≡ false → is_stopped st ≡ false → st ≡ created
  unfolding is_started is_stopped
  only_created created h k = refl
  only_created serving h k = absurd (cc h)
  only_created unbound h k = absurd (cc h)
  only_created stopped h k = absurd (cc k)

  pub opened-Ready :
      (world : World) (v : Service) (s : Server core)
      → Implements core v s
      → is_started v.status ≡ false
      → Ready v (opened core world s)
  unfolding opened
  opened-Ready world v s i idle =
      let s' : Server core = record s { started = true; closed = false; shutdown_event = false } in
      if_intro (Ready v) s.closed _ _
        (λ was_closed. reinit-Ready world v _ s' refl refl refl i.offers)
        (λ was_open. record {
          flag_started = refl;
          flag_closed = refl;
          flag_shutdown = refl;
          fresh =
              i.flags.socket_fresh
                (only_created v.status idle (sym i.flags.flag_closed ∙ was_open));
          offers =
              subst (λ b. Offers core (handler core s) v (not b))
                (sym i.flags.flag_closed ∙ was_open) i.offers;
        })
