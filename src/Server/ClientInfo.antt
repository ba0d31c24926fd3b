-- ===== src/Server/ClientInfo.antt =====
-- A connected client as the server sees it (src/veltix/server/client_info.py). The lock makes
-- each method one step. A tag's value is None or of a type that the user gives.
pub mod Tags
use veltix.Prelude.{
  ℕ, ◌+◌, String, Bool, true, false, not, Option, none, some, List, [], ◌∷◌, nat_eq, if◌then◌else◌,
  any, all, eq_nat, eq_string, eq_list,
}
use veltix.Prelude.Dict.{Dict, lookup, contains, insert, erase}
use veltix.Prelude.Text.{Text}
use veltix.Internal.Events.{ClientEvent, client_event, Trace}
use veltix.Network.Sender.{SocketId}

-- _generate_id, on the value of `_next_id`
unfoldable pub generate_id : ℕ → ℕ × ℕ
generate_id next_id = (next_id + 1, next_id + 1)

module _ (Value : Type 0) where
  pub record ClientInfo : Type 0 where
    pub id : ℕ
    pub conn : SocketId
    pub addr : Text × ℕ
    pub thread_id : ℕ
    pub handshake_done : Bool
    pub id_offset : ℕ
    pub tags : Dict String (Option Value)
    pub has_bus : Bool
    pub trace : Trace

  -- ClientInfo.__init__, with the next value of `_next_id`
  unfoldable pub client_info : SocketId → Text × ℕ → ℕ → Bool → Bool → ℕ → ℕ → ClientInfo × ℕ
  client_info conn addr thread_id handshake_done has_bus id_offset next_id =
      let (id, next) = generate_id next_id in
      (
        record {
          id = id;
          conn = conn;
          addr = addr;
          thread_id = thread_id;
          handshake_done = handshake_done;
          id_offset = id_offset;
          tags = [];
          has_bus = has_bus;
          trace = [];
        },
        next,
      )

  -- ClientInfo.__eq__ of another ClientInfo
  unfoldable pub same_client : ClientInfo → ClientInfo → Bool
  same_client c d = nat_eq c.id d.id

  -- ClientInfo.ip, ClientInfo.port
  unfoldable pub ip : ClientInfo → Text
  ip c = c.addr.0

  unfoldable pub port : ClientInfo → ℕ
  port c = c.addr.1

  -- `if self._bus: self._bus.emit(...)`
  abbrev pub emits : ClientEvent → ClientInfo → ClientInfo
  emits e c = if c.has_bus then record c { trace = client_event e ∷ c.trace } else c

  -- ClientInfo.add_tag
  unfoldable pub add_tag : String → Option Value → ClientInfo → Bool × ClientInfo
  add_tag name value c =
      if contains name c.tags
      then (false, c)
      else (true, emits ClientEvent.tag_added (record c { tags = insert name value c.tags }))

  -- ClientInfo.has_tag, has_all_tags, has_any_tags
  unfoldable pub has_tag : String → ClientInfo → Bool
  has_tag name c = contains name c.tags

  unfoldable pub has_all_tags : List String → ClientInfo → Bool
  has_all_tags names c = all (λ name. contains name c.tags) names

  unfoldable pub has_any_tags : List String → ClientInfo → Bool
  has_any_tags names c = any (λ name. contains name c.tags) names

  -- dict.get: None for a missing key
  unfoldable pub or_none : Option (Option Value) → Option Value
  or_none none = none
  or_none (some value) = value

  -- ClientInfo.get_tag: a missing tag and one whose value is None answer None.
  unfoldable pub get_tag : String → ClientInfo → Option Value
  get_tag name c = or_none (lookup name c.tags)

  -- ClientInfo.remove_tag
  unfoldable pub remove_tag : String → ClientInfo → Bool × ClientInfo
  remove_tag name c =
      if not (contains name c.tags)
      then (false, c)
      else (true, emits ClientEvent.tag_removed (record c { tags = erase name c.tags }))

  -- ClientInfo.clear_tags
  unfoldable pub clear_tags : ClientInfo → ClientInfo
  clear_tags c = emits ClientEvent.tag_cleared (record c { tags = [] })
