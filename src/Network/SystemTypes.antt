-- ===== src/Network/SystemTypes.antt =====
-- System message types (src/veltix/network/system_types.py).
use veltix.Prelude.{Bool, some, ◌==◌, eq_nat, eq_string, eq_list}
use veltix.Prelude.Text.{codes}
use veltix.Network.Types.{MessageType}

-- PING
unfoldable pub ping_type : MessageType
ping_type = record {
  code = 0;
  name = codes "ping";
  description = some (codes "Request latency measurement");
}

-- PONG
unfoldable pub pong_type : MessageType
pong_type = record {
  code = 1;
  name = codes "pong";
  description = some (codes "Response to PING request");
}

-- MessageType.__eq__
unfoldable pub same_type : MessageType → MessageType → Bool
same_type t u = t.code == u.code
