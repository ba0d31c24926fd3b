-- ===== src/Tests/Recovery.antt =====
-- Reconnection that succeeds, at a concrete client.
use veltix.Prelude.{
  ℕ, zero, suc, ◌+◌, ◌≡◌, refl, true, false, some, arith, eq_nat, eq_string, eq_list,
}
use veltix.Handler.Handshake.{number, find_field, get_field, truthy}
use veltix.Client.Connection.{established, unreachable, meta_or_dict, id_window}
use veltix.Client.State.{server_closed, Client}
use veltix.Client.Reconnect.{Round, try_reconnect}
use veltix.Client.Reconnect.Rounds.{attempts}
use veltix.Client.Reconnect.Calm.{calm, is_failure, at_once, behind}
use veltix.Client.Reconnect.Liveness.{try_reconnect-succeeds}
use veltix.Tests.Samples.{plain_codec, loopback}
use veltix.Tests.Clients.{lost, window_meta}

-- The network is out for one attempt, then a peer sends metadata that is no dict, and the next
-- connection stands.
abbrev out_twice : ℕ → Round
out_twice n = calm false true (elim n [
  | zero ↦ unreachable
  | suc m ↦ elim m [
    | zero ↦ established (some (number 3))
    | suc k ↦ established (some (window_meta 500))
  ]
])

unreachable_fails : is_failure unreachable ≡ true
unfolding is_failure
unreachable_fails = refl

malformed_fails : is_failure (established (some (number 3))) ≡ true
unfolding is_failure id_window meta_or_dict truthy get_field
malformed_fails = refl

dict_connects : is_failure (established (some (window_meta 500))) ≡ false
unfolding is_failure id_window meta_or_dict truthy get_field find_field
dict_connects = refl

abbrev patient : Client plain_codec loopback
patient = record lost { retry = 3 }

try_reconnect-succeeds_example :
    (k : Client plain_codec loopback) × (try_reconnect plain_codec loopback 3 out_twice
        server_closed patient
      ≡ some (true, k))
    × (k.is_connected ≡ true)
    × (k.reconnect.fail_count ≡ 0)
    × (k.reconnect.locked ≡ false)
    × (attempts k.trace ≡ 0 + 2 + 1)
unfolding attempts
try_reconnect-succeeds_example =
    try_reconnect-succeeds plain_codec loopback 2 3 out_twice (some (window_meta 500)) server_closed
      patient (omega arith)
      (behind false true unreachable unreachable_fails refl (
        behind false true (established (some (number 3))) malformed_fails refl
          (at_once false true dict_connects refl)))
      (omega arith) (refl, refl) refl
