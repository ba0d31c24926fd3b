-- ===== src/Server/Lifecycle/Service.antt =====
-- The life cycle of the server as an abstract machine (src/veltix/server/server.py).
use veltix.Prelude.{
  ℕ, Bool, true, false, Option, none, some, List, [], ◌∷◌, if◌then◌else◌, ◌==◌, Result, ok, err,
  eq_nat, eq_string, eq_list,
}
use veltix.Exceptions.{Exn}
use veltix.Network.Types.{MessageType}
use veltix.Handler.RequestHandler.{Callback}
use veltix.Handler.Routes.{or_else}

-- What a server is: new, serving, started on a socket that could not be bound, or closed
pub data Status : Type 0 where
  created serving unbound stopped : Status

-- What a user knows of it
pub record Service : Type 0 where
  pub status : Status
  pub routes : ℕ → Option Callback
  pub on_recv : Option Callback

unfoldable pub is_started : Status → Bool
is_started serving = true
is_started unbound = true
is_started _ = false

unfoldable pub is_stopped : Status → Bool
is_stopped stopped = true
is_stopped _ = false

unfoldable pub is_serving : Status → Bool
is_serving serving = true
is_serving _ = false

unfoldable pub starts : Result Exn (Unit {0}) → Status
starts (ok _) = serving
starts (err e) = unbound

unfoldable pub after_start : Result Exn (Unit {0}) → Service → Result Exn (Unit {0}) × Service
after_start binding v =
    if is_started v.status then (ok tt, v) else (binding, record v { status = starts binding })

pub data Call : Type 0 where
  starting restarting : Result Exn (Unit {0}) → Call
  closing : Call
  receiving : Callback → Call
  routing : MessageType → Callback → Call

-- A call, on the abstract machine
unfoldable pub serve_call : Call → Service → Result Exn (Unit {0}) × Service
serve_call (starting binding) v = after_start binding v
serve_call (restarting binding) v = after_start binding (record v { status = stopped })
serve_call closing v = (ok tt, record v { status = stopped })
serve_call (receiving f) v = (ok tt, record v { on_recv = some f })
serve_call (routing t f) v =
    (ok tt, record v { routes = λ k. or_else (v.routes k) (if t.code == k then some f else none) })

unfoldable pub serve_calls :
    {World : Type 0} → List (World × Call) → Service → List (Result Exn (Unit {0})) × Service
serve_calls [] v = ([], v)
serve_calls ((world, c) ∷ cs) v =
    let (answer, v') = serve_call c v in
    let (answers, v'') = serve_calls cs v' in (answer ∷ answers, v'')

-- What a new server offers
abbrev pub new_service : Service
new_service = record { status = created; routes = λ k. none; on_recv = none }
