-- ===== src/Client/Reconnect/Loop.antt =====
-- How the retry loop ends (src/veltix/client/reconnect_handler.py).
use veltix.Prelude.{ℕ, ◌<◌, ◌≡◌, Bool, true, eq_nat, eq_string, eq_list}
use veltix.Network.Request.{Codec}
use veltix.Network.Sender.{Transport}
use veltix.Client.Connection.{is_malformed}
use veltix.Client.State.{DisconnectReason, DisconnectState, Client}
use veltix.Client.Reconnect.{Round}

module _ (codec : Codec) (net : Transport) where
  -- One of the first `left` rounds connects, but reading its metadata raises.
  abbrev pub Broken : ℕ → (ℕ → Round) → Type 0
  Broken left rounds = (k : ℕ) × (k < left) × (is_malformed (rounds k).connection ≡ true)

  -- What on_disconnect hears of client `c`
  abbrev pub notice : Bool → DisconnectReason → Client codec net → DisconnectState
  notice permanent reason c = record {
    permanent = permanent;
    attempt = c.reconnect.fail_count;
    retry_max = c.retry;
    reason = reason;
  }
