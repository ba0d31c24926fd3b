-- ===== src/Handler/Routes.antt =====
-- The user's callbacks that a new request handler takes over from an old one
-- (src/veltix/client/reconnect_handler.py and src/veltix/server/server.py).
use veltix.Prelude.{
  ℕ, ◌≡◌, refl, sym, Bool, false, Option, none, some, [], ◌∷◌, arith, if◌then◌else◌, nat_eq_iff,
  ◌==◌, if_intro, eq_nat, eq_string, eq_list,
}
use veltix.Prelude.Dict.{Dict, lookup, contains, lookup-insert}
use veltix.Network.Request.{Codec}
use veltix.Network.Sender.{Transport}
use veltix.Handler.RequestHandler.{Callback, RequestHandler, set_on_recv, register_route}

-- `for type_, func in old_routes.items(): request_handler.register_route(type_, func)`
unfoldable pub register_routes :
    (codec : Codec) (net : Transport)
    → Dict ℕ Callback
    → RequestHandler codec net
    → RequestHandler codec net
register_routes codec net [] h = h
register_routes codec net ((code, f) ∷ routes) h =
    register_routes codec net routes (register_route codec net code f h).1

-- `if on_recv: request_handler.set_on_recv(on_recv)`
unfoldable pub set_if_given :
    (codec : Codec) (net : Transport)
    → Option Callback
    → RequestHandler codec net
    → RequestHandler codec net
set_if_given codec net none h = h
set_if_given codec net (some f) h = set_on_recv codec net f h

-- Of two dictionaries, the first that has the key
abbrev pub or_else : Option Callback → Option Callback → Option Callback
or_else none q = q
or_else (some f) q = some f

module _ (codec : Codec) (net : Transport) where
  or_else-none : (o : Option Callback) → or_else o none ≡ o
  or_else-none none = refl
  or_else-none (some f) = refl

  pub lookup-register_route :
      (k code : ℕ) (f : Callback) (h : RequestHandler codec net)
      → lookup k (register_route codec net code f h).1.routes
        ≡ or_else (lookup k h.routes) (if code == k then some f else none)
  unfolding register_route
  lookup-register_route k code f h =
      if_intro
        (λ (out : Bool × RequestHandler codec net).
          lookup k out.1.routes ≡ or_else (lookup k h.routes) (if code == k then some f else none))
        (contains code h.routes) (false, h) _ (λ known. ground (arith, nat_eq_iff code k))
        (λ new. ground (arith, nat_eq_iff code k, lookup-insert code k f h.routes))

  pub lookup-register_routes :
      (k : ℕ) (routes : Dict ℕ Callback) (h : RequestHandler codec net)
      → lookup k (register_routes codec net routes h).routes
        ≡ or_else (lookup k h.routes) (lookup k routes)
  unfolding register_routes lookup
  lookup-register_routes k [] h = sym (or_else-none (lookup k h.routes))
  lookup-register_routes k ((code, f) ∷ routes) h =
      let step = lookup-register_route k code f h in
      let rest = lookup-register_routes k routes (register_route codec net code f h).1 in
      ground (arith, step, rest)

  pub register_routes-on_recv :
      (routes : Dict ℕ Callback) (h : RequestHandler codec net)
      → (register_routes codec net routes h).on_recv ≡ h.on_recv
  unfolding register_routes register_route
  register_routes-on_recv [] h = refl
  register_routes-on_recv ((code, f) ∷ routes) h =
      ground (arith, register_routes-on_recv routes (register_route codec net code f h).1)

  pub register_routes-executor :
      (routes : Dict ℕ Callback) (h : RequestHandler codec net)
      → (register_routes codec net routes h).executor ≡ h.executor
  unfolding register_routes register_route
  register_routes-executor [] h = refl
  register_routes-executor ((code, f) ∷ routes) h =
      ground (arith, register_routes-executor routes (register_route codec net code f h).1)

  pub set_if_given-on_recv :
      (f : Option Callback) (h : RequestHandler codec net)
      → h.on_recv ≡ none
      → (set_if_given codec net f h).on_recv ≡ f
  unfolding set_if_given set_on_recv
  set_if_given-on_recv none h nothing = nothing
  set_if_given-on_recv (some f) h nothing = refl

  pub set_if_given-routes :
      (f : Option Callback) (h : RequestHandler codec net)
      → (set_if_given codec net f h).routes ≡ h.routes
  unfolding set_if_given set_on_recv
  set_if_given-routes none h = refl
  set_if_given-routes (some f) h = refl

  pub set_if_given-executor :
      (f : Option Callback) (h : RequestHandler codec net)
      → (set_if_given codec net f h).executor ≡ h.executor
  unfolding set_if_given set_on_recv
  set_if_given-executor none h = refl
  set_if_given-executor (some f) h = refl
