-- ===== src/Tests/Servers.antt =====
-- The server at concrete inputs, over both socket cores.
use veltix.Prelude.{ℕ, ◌≡◌, refl, some, List, [], ◌∷◌, ok, err, eq_nat, eq_string, eq_list}
use veltix.Exceptions.{os_error}
use veltix.SocketCore.ThreadingSocket.Core.{threading_core}
use veltix.SocketCore.AsyncSocket.Core.{async_core}
use veltix.Server.Lifecycle.{ServerConfig, server}
use veltix.Server.Lifecycle.Service.{
  serving, is_started, starts, after_start, Call, starting, restarting, receiving, routing,
  serve_call, serve_calls, new_service,
}
use veltix.Server.Lifecycle.Simulation.{Implements}
use veltix.Server.Lifecycle.Refinement.{calls, server-refines}
use veltix.Tests.Samples.{plain_codec, loopback, chat_type}
use veltix.Tests.Registry.{infos}

abbrev config : ServerConfig
config = record { max_message_size = 1024; id_window = 500 }

-- A route and a callback, a start whose port is taken, one more that does nothing, a restart, and
-- a route for the same type, which comes too late
abbrev some_calls : List (List (ℕ × List ℕ) × Call)
some_calls =
    ([], routing chat_type 40)
    ∷ ([], receiving 5)
    ∷ ([], starting (err os_error))
    ∷ ([], starting (ok tt))
    ∷ ([], restarting (ok tt))
    ∷ ([], routing chat_type 41)
    ∷ []

answers_of_some_calls :
    (serve_calls some_calls new_service).0
    ≡ ok tt ∷ ok tt ∷ err os_error ∷ ok tt ∷ ok tt ∷ ok tt ∷ []
unfolding serve_calls serve_call after_start is_started starts
answers_of_some_calls = refl

served_by_some_calls :
    let v = (serve_calls some_calls new_service).1 in
    (v.status ≡ serving) × (v.routes 200 ≡ some 40) × (v.on_recv ≡ some 5)
unfolding serve_calls serve_call after_start is_started starts
served_by_some_calls = (refl, refl, refl)

server-refines_example :
    let core = threading_core plain_codec loopback ℕ in
    ((serve_calls some_calls new_service).0
      ≡ (calls core some_calls (server core config [] infos 5)).0)
    × Implements core
        (serve_calls some_calls new_service).1
        (calls core some_calls (server core config [] infos 5)).1
server-refines_example =
    server-refines (threading_core plain_codec loopback ℕ) config [] infos 5 some_calls

-- The same over the selector
over_selector :
    let core = async_core plain_codec loopback ℕ in
    ((serve_calls some_calls new_service).0
      ≡ (calls core some_calls (server core config [] infos 5)).0)
    × Implements core
        (serve_calls some_calls new_service).1
        (calls core some_calls (server core config [] infos 5)).1
over_selector = server-refines (async_core plain_codec loopback ℕ) config [] infos 5 some_calls
