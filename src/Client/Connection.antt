-- ===== src/Client/Connection.antt =====
-- How a connection of the client goes, and the metadata that it brings
-- (src/veltix/client/client.py).
use veltix.Prelude.{
  ℕ, Bool, true, false, not, Option, none, some, if◌then◌else◌, Result, ok, ◌>>=◌, is_ok, eq_nat,
  eq_string, eq_list,
}
use veltix.Exceptions.{Exn}
use veltix.Prelude.Text.{codes}
use veltix.Handler.Handshake.{Json, boolean, number, object, no_fields, get_field, truthy}

-- How a call of `socket.connect` goes: True, with the `_handshake_meta` that the socket then has (any
-- JSON value of the peer, if the attribute is there and not None), or False, or raising a timeout or
-- ConnectionRefusedError, or anything else.
pub data Connection : Type 0 where
  established : Option Json → Connection
  not_established unreachable crashed : Connection

-- `getattr(self.socket, "_handshake_meta", None) or {}`
unfoldable pub meta_or_dict : Option Json → Json
meta_or_dict none = object no_fields
meta_or_dict (some meta) = if truthy meta then meta else object no_fields

-- `.get("id_window", 30000)` as a number. Python stores any other value as it is; it stands here as
-- 0, since `allocate` raises with it just as it does with 0.
unfoldable pub window_of : Option Json → ℕ
window_of none = 30000
window_of (some (number n)) = n
window_of (some (boolean true)) = 1
window_of (some _) = 0

-- The id_window of the handshake's metadata: a value that is not empty and no dict has no `get`.
unfoldable pub id_window : Option Json → Result Exn ℕ
id_window meta = do
  window ← get_field (codes "id_window") (meta_or_dict meta)
  ok (window_of window)

-- The connection stands, but reading its metadata raises.
unfoldable pub is_malformed : Connection → Bool
is_malformed (established meta) = not (is_ok (id_window meta))
is_malformed _ = false
