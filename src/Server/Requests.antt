-- ===== src/Server/Requests.antt =====
-- Sending and the clients of the server (src/veltix/server/server.py). While send_and_wait waits,
-- the clients' threads handle the messages that come, a list of steps.
use veltix.Prelude.{
  ℕ, String, Bool, true, false, Option, none, some, List, [], ◌∷◌, map, if◌then◌else◌, Key, Result,
  ok, err, ◌>>=◌, eq_nat, eq_string, eq_list,
}
use veltix.Exceptions.{Exn, attribute_error}
use veltix.Network.SystemTypes.{ping_type}
use veltix.Network.Request.{Codec, no_flags, Request}
use veltix.Network.Response.{Response}
use veltix.Network.IdAllocator.{allocate}
use veltix.Network.Sender.{SocketId, Transport, ClientLike, Sender, send, broadcast}
use veltix.Server.ClientInfo.{ClientInfo, same_client}
use veltix.Handler.RequestHandler.{register, unregister, wait}
use veltix.Handler.Rules.Pending.{handle_all}
use veltix.Handler.Rules.Dispatch.{Context}
use veltix.SocketCore.ClientsManager.{InfoRef, ClientEntry, get_all_clients, get_clients_by_tag}
use veltix.SocketCore.BaseSocket.{BaseSocket}
use veltix.Server.Lifecycle.{Server, handler, with_handler}

module _ {codec : Codec} {net : Transport} {Value : Type 0}
    (core : BaseSocket codec net Value) where
  open core use {manager_of, infos_of, close_client_core, close_entry_core}

  -- Server.clients
  unfoldable pub clients : Server core → List (ClientInfo Value)
  clients s = map (λ e. infos_of s.socket e.info) (get_all_clients (manager_of s.socket))

  -- The sender that has sent; its request handler's is the same.
  abbrev pub with_sender : Sender codec net → Server core → Server core
  with_sender x s = with_handler core (record (handler core s) { sender = some x }) s

  -- The property `sender`; __init__ gives the server one.
  unfoldable pub sender_of : Server core → Result Exn (Sender codec net)
  sender_of s = elim (handler core s).sender [ some x ↦ ok x | none ↦ err attribute_error ]

  -- Server.send, to a client's socket
  unfoldable pub send_to :
      Request → SocketId → Server core → Result Exn (Bool × Request × Server core)
  send_to r conn s = do
    x ← sender_of s
    (sent, r', x') ← send codec net r (some conn) x
    ok (sent, r', with_sender x' s)

  abbrev pub like_client : ClientInfo Value → ClientLike
  like_client c = ClientLike.client_info c.id c.conn

  -- Server.broadcast; get_all_clients is `lambda: self.clients`.
  unfoldable pub broadcast_all :
      Request → Option (List ClientLike) → Server core → Result Exn (Bool × Server core)
  broadcast_all r except_clients s = do
    x ← sender_of s
    (all_ok, x') ← broadcast codec net r (some (map like_client (clients s))) none except_clients x
    ok (all_ok, with_sender x' s)

  -- `if request.request_id is None`: the server's allocator is the sender's.
  unfoldable pub identified_as :
      Option ℕ → Request → Server core → Result Exn (ℕ × Request × Server core)
  identified_as (some id) r s = ok (id, r, s)
  identified_as none r s = do
    x ← sender_of s
    elim x.id_allocator [
      | none ↦ err attribute_error
      | some a ↦ do
        (id, a') ← allocate a
        ok (
          id,
          record r { request_id = some id },
          with_sender (record x { id_allocator = some a' }) s,
        )
    ]

  -- From the answer of `send` on
  unfoldable pub awaited :
      ℕ
      → List (Context codec net)
      → Result Exn (Bool × Request × Server core)
      → Server core
      → Result Exn (Option (Response codec)) × Server core
  awaited id cs (err e) s = (err e, s)
  awaited id cs (ok (false, r, s')) s =
      (ok none, with_handler core (unregister codec net id (handler core s')) s')
  awaited id cs (ok (true, r, s')) s =
      let (x, h) = wait codec net id (handle_all codec net cs (handler core s')) in
      (ok x, with_handler core h s')

  unfoldable pub registered_and_sent :
      SocketId
      → List (Context codec net)
      → Result Exn (ℕ × Request × Server core)
      → Server core
      → Result Exn (Option (Response codec)) × Server core
  registered_and_sent conn cs (err e) s = (err e, s)
  registered_and_sent conn cs (ok (id, r, s')) s =
      let registered = with_handler core (register codec net id (handler core s')) s' in
      awaited id cs (send_to r conn registered) registered

  -- Server.send_and_wait
  unfoldable pub send_and_wait :
      Request
      → ClientInfo Value
      → List (Context codec net)
      → Server core
      → Result Exn (Option (Response codec)) × Server core
  send_and_wait r client cs s =
      registered_and_sent client.conn cs (identified_as r.request_id r s) s

  -- Server.ping_client: the latency is the difference of two readings of the clock.
  unfoldable pub ping_client :
      ClientInfo Value
      → List (Context codec net)
      → Server core
      → Result Exn (Option (Response codec)) × Server core
  ping_client client cs s =
      send_and_wait (record { type = ping_type; content = []; request_id = none; flags = no_flags })
        client cs s

  -- next((e for e in entries if e.info == client), None)
  unfoldable pub entry_of :
      ClientInfo Value → (InfoRef → ClientInfo Value) → List ClientEntry → Option ClientEntry
  entry_of c infos [] = none
  entry_of c infos (e ∷ es) =
      let rest = entry_of c infos es in if same_client Value (infos e.info) c then some e else rest

  -- Server.close_client of an entry, if one was found
  unfoldable pub close_if_found : Option ClientEntry → Server core → Result Exn Bool × Server core
  close_if_found none s = (ok false, s)
  close_if_found (some e) s =
      let (closed, k) = close_entry_core e s.socket in (closed, record s { socket = k })

  -- Server.close_client, with an identifier or without
  unfoldable pub close_client :
      Option (ClientInfo Value) → Option ℕ → Server core → Result Exn Bool × Server core
  close_client client (some id) s =
      let (closed, k) = close_client_core id s.socket in (closed, record s { socket = k })
  close_client none none s = (ok false, s)
  close_client (some c) none s =
      close_if_found (entry_of c (infos_of s.socket) (get_all_clients (manager_of s.socket))) s

  -- Server.get_clients_by_tag
  unfoldable pub clients_by_tag :
      ⦃q : Key Value⦄ → String → Option Value → Server core → List (ClientInfo Value)
  clients_by_tag tag wanted s =
      map (λ e. infos_of s.socket e.info)
        (get_clients_by_tag Value (infos_of s.socket) tag wanted (manager_of s.socket))
