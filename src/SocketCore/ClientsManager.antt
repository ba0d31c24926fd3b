-- ===== src/SocketCore/ClientsManager.antt =====
-- The registry of connected clients (src/veltix/socket_core/managers/clients_manager.py). The
-- lock makes each method one step. A ClientInfo is shared and changes while it is registered, so
-- that an entry refers to it by its own identifier, and `infos` is what the identifiers stand for.
pub mod Registered
pub mod ByTag
use veltix.Prelude.{
  ℕ, ◌+◌, ◌*◌, String, Bool, false, Option, none, some, List, [], ◌∷◌, map, nat_eq, if◌then◌else◌,
  Key, ◌==◌, length, any, eq_nat, eq_string, eq_list,
}
use veltix.Prelude.Dict.{Dict, lookup, contains, insert, erase, values}
use veltix.Network.Sender.{SocketId}
use veltix.Network.MessageBuffer.{default_max_buffer_size, MessageBuffer, message_buffer}
use veltix.Server.ClientInfo.{ClientInfo, same_client, has_tag, get_tag}

-- A reference to a ClientInfo
abbrev pub InfoRef : Type 0
InfoRef = ℕ

pub record ClientEntry : Type 0 where
  pub id : ℕ
  pub info : InfoRef
  pub buffer : MessageBuffer

pub record ClientsManager : Type 0 where
  pub max_message_size : ℕ
  pub clients : Dict ℕ ClientEntry
  pub id_count : ℕ

-- `max_message_size or (10 * 1024 * 1024)`
unfoldable pub size_or_default : Option ℕ → ℕ
size_or_default none = 10 * 1024 * 1024
size_or_default (some n) = if nat_eq n 0 then 10 * 1024 * 1024 else n

-- ClientsManager.__init__
unfoldable pub clients_manager : Option ℕ → ClientsManager
clients_manager max_message_size = record {
  max_message_size = size_or_default max_message_size;
  clients = [];
  id_count = 0;
}

-- ClientsManager.add_client
unfoldable pub add_client : InfoRef → ClientsManager → ℕ × ClientsManager
add_client info m =
    let id = m.id_count + 1 in
    let entry : ClientEntry = record {
      id = id;
      info = info;
      buffer = message_buffer m.max_message_size default_max_buffer_size;
    } in
    (id, record m { id_count = id; clients = insert id entry m.clients })

-- ClientsManager.remove_client
unfoldable pub remove_client : ℕ → ClientsManager → Bool × ClientsManager
remove_client id m = (contains id m.clients, record m { clients = erase id m.clients })

-- ClientsManager.get_client
unfoldable pub get_client : ℕ → ClientsManager → Option ClientEntry
get_client id m = lookup id m.clients

-- ClientsManager.has_client_id
unfoldable pub has_client_id : ℕ → ClientsManager → Bool
has_client_id id m = contains id m.clients

-- ClientsManager.get_all_clients
unfoldable pub get_all_clients : ClientsManager → List ClientEntry
get_all_clients m = values m.clients

-- ClientsManager.count
unfoldable pub count : ClientsManager → ℕ
count m = length m.clients

-- [e for e in entries if p(e)]
unfoldable pub select : (ClientEntry → Bool) → List ClientEntry → List ClientEntry
select p [] = []
select p (e ∷ es) = let rest = select p es in if p e then e ∷ rest else rest

-- ClientsManager.iter_on_clients: a function that changes a state is applied to a snapshot.
unfoldable pub visit : {S : Type 0} → (ClientEntry → S → S) → List ClientEntry → S → S
visit f [] s = s
visit f (e ∷ es) s = visit f es (f e s)

unfoldable pub iter_on_clients : {S : Type 0} → (ClientEntry → S → S) → ClientsManager → S → S
iter_on_clients f m s = visit f (values m.clients) s

-- A tag's value compared with a value that is not None
unfoldable pub equals : (Value : Type 0) ⦃q : Key Value⦄ → Value → Option Value → Bool
equals Value value none = false
equals Value value (some v) = v == value

module _ (Value : Type 0) ⦃q : Key Value⦄ (infos : InfoRef → ClientInfo Value) where
  -- ClientsManager.has_client_info
  unfoldable pub has_client_info : ClientInfo Value → ClientsManager → Bool
  has_client_info c m = any (λ e. same_client Value (infos e.info) c) (values m.clients)

  -- `e.info.get_tag(tag) == value`
  unfoldable pub has_value : String → Value → ClientEntry → Bool
  has_value tag value e = equals Value value (get_tag Value tag (infos e.info))

  -- ClientsManager.get_clients_by_tag
  unfoldable pub get_clients_by_tag : String → Option Value → ClientsManager → List ClientEntry
  get_clients_by_tag tag none m = select (λ e. has_tag Value tag (infos e.info)) (values m.clients)
  get_clients_by_tag tag (some value) m = select (has_value tag value) (values m.clients)

  -- ClientsManager.to_sockets
  unfoldable pub to_sockets : List ClientEntry → List SocketId
  to_sockets entries = map (λ e. (infos e.info).conn) entries
