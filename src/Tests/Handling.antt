-- ===== src/Tests/Handling.antt =====
-- Message handling at concrete inputs.
use veltix.Prelude.{◌≡◌, refl, true, none, some, [], ◌∷◌, arith, eq_nat, eq_string, eq_list}
use veltix.Prelude.Dict.{lookup}
use veltix.Network.SystemTypes.{ping_type, same_type}
use veltix.Network.Request.{Request}
use veltix.Network.Response.{response}
use veltix.Network.Wire.{frame, received}
use veltix.Network.Sender.{Sender}
use veltix.Handler.RequestHandler.{register, wait}
use veltix.Handler.Rules.{pong, answers, handle}
use veltix.Handler.Rules.Dispatch.{Handler, Context, handle-ping}
use veltix.Handler.Rules.Pending.{handle_all, first_answer}
use veltix.Handler.Rules.Correlation.{wait-first_answer}
use veltix.Tests.Samples.{plain_codec, loopback, hello, note}
use veltix.Tests.Sending.{server_sender, seven-NeverRaises}

abbrev pub handler : Handler plain_codec loopback
handler = record {
  is_server = true;
  sender = some server_sender;
  on_recv = none;
  pending_requests = [];
  routes = (200, 40) ∷ [];
  executor = record { running = true; submitted = [] };
  trace = [];
}

abbrev from_client : Request → Context plain_codec loopback
from_client r = record { response = received plain_codec r; client = some 7 }

abbrev ping : Request
ping =
    unfold ping_type in record { type = ping_type; content = []; request_id = some 12; flags = 0 }

handle-ping_example :
    let (r, h') = handle plain_codec loopback (from_client ping) handler in
    (r ≡ answers true)
    × (h'.pending_requests ≡ [])
    × (h'.executor ≡ handler.executor)
    × ((s' : Sender plain_codec loopback) × (h'.sender ≡ some s')
        × (s'.world ≡ (7, frame plain_codec (pong plain_codec loopback 12)) ∷ []))
unfolding same_type ping_type response
handle-ping_example =
    handle-ping plain_codec loopback (from_client ping) handler server_sender 7 refl refl refl refl
      refl (omega arith) seven-NeverRaises

-- `hello` carries the identifier 258, `note` another.
wait-first_answer_example :
    let (r, h') = wait plain_codec loopback 258 (
      handle_all plain_codec loopback
        (from_client note ∷ from_client hello ∷ [])
        (register plain_codec loopback 258 handler)) in
    (r ≡ first_answer plain_codec loopback 258 (from_client note ∷ from_client hello ∷ []))
    × (lookup 258 h'.pending_requests ≡ none)
wait-first_answer_example =
    wait-first_answer plain_codec loopback 258 (from_client note ∷ from_client hello ∷ []) handler
      refl
