-- ===== src/Network/Sender.antt =====
-- Sending (src/veltix/network/sender.py). The sockets are behind an interface: a send on one
-- returns a Boolean or raises, and changes a world that the model does not look into.
pub mod Delivery
pub mod Broadcast
use veltix.Exceptions.{Exn, no_connection, connection_reset, broken_pipe}
use veltix.Prelude.{
  ℕ, Bool, true, false, not, ◌&&◌, Option, none, some, List, [], ◌∷◌, map, if◌then◌else◌, ◌==◌,
  is_some, any, Result, ok, err, ◌>>=◌, eq_nat, eq_string, eq_list,
}
use veltix.Prelude.Bytes.{Bytes}
use veltix.Internal.Events.{MessageEvent, ErrorEvent, Event, message_event, error_event, Trace}
use veltix.Network.IdAllocator.{IdAllocator, id_allocator, allocate}
use veltix.Network.Request.{Codec, Request, compile}

abbrev pub SocketId : Type 0
SocketId = ℕ

-- BaseSocket.send of the sockets
pub record Transport : Type 1 where
  pub World : Type 0
  pub send_bytes : SocketId → Bytes → World → Result Exn Bool × World

-- A target: a socket, or a ClientInfo with its socket.
pub data ClientLike : Type 0 where
  base_socket : SocketId → ClientLike
  client_info : ℕ → SocketId → ClientLike

-- Sender._resolve_socket
unfoldable pub resolve_socket : ClientLike → SocketId
resolve_socket (base_socket s) = s
resolve_socket (client_info id s) = s

-- except (ConnectionResetError, BrokenPipeError)
unfoldable pub is_connection_error : Exn → Bool
is_connection_error connection_reset = true
is_connection_error broken_pipe = true
is_connection_error _ = false

module _ (codec : Codec) (net : Transport) where
  open net use {World, send_bytes}

  -- The sender's fields, the allocator that it shares, what it has emitted, and the world.
  pub record Sender : Type 0 where
    pub is_client : Bool
    pub conn : Option SocketId
    pub id_allocator : Option IdAllocator
    pub trace : Trace
    pub world : World

  -- Sender.__init__
  unfoldable pub sender :
      Bool → Option SocketId → Option IdAllocator → Trace → World → Result Exn Sender
  sender is_client conn id_allocator trace world =
      if is_client && not (is_some conn)
      then err no_connection
      else ok (record {
        is_client = is_client;
        conn = conn;
        id_allocator = id_allocator;
        trace = trace;
        world = world;
      })

  abbrev pub emit : Event → Sender → Sender
  emit e s = record s { trace = e ∷ s.trace }

  -- Sender._resolve_target
  unfoldable pub resolve_target : Sender → Option SocketId → Option SocketId
  resolve_target s client = if s.is_client then s.conn else client

  -- `if data.request_id is None and self._id_allocator is not None`
  unfoldable pub assign_id : Request → Sender → Result Exn (Request × Sender)
  assign_id r s = elim r.request_id [
    | some id ↦ ok (r, s)
    | none ↦ elim s.id_allocator [
      | none ↦ ok (r, s)
      | some a ↦ do
        (id, a') ← allocate a
        ok (record r { request_id = some id }, record s { id_allocator = some a' })
    ]
  ]

  -- The `except` clauses of `send`.
  unfoldable pub send_failed : Exn → Sender → Sender
  send_failed e s =
      if is_connection_error e
      then (let s' = emit (error_event ErrorEvent.send) s in
          if s.is_client then record s' { conn = none } else s')
      else s

  -- The `try` block of `send`: whatever the socket returned, it answers True.
  unfoldable pub try_send : Request → SocketId → Sender → Bool × Sender
  try_send r target s = elim (compile codec r) [
    | err e ↦ (false, send_failed e s)
    | ok bytes ↦
        let (outcome, world') = send_bytes target bytes s.world in
        let s' = record s { world = world' } in
        elim outcome [
          | ok _ ↦ (true, emit (message_event MessageEvent.sent) s')
          | err e ↦ (false, send_failed e s')
        ]
  ]

  -- Sender.send. It writes the identifier into the request, which comes back.
  unfoldable pub send : Request → Option SocketId → Sender → Result Exn (Bool × Request × Sender)
  send r client s = elim (resolve_target s client) [
    | none ↦ ok (false, r, s)
    | some target ↦ do
      (r', s') ← assign_id r s
      ok ((try_send r' target s').0, r', (try_send r' target s').1)
  ]

  -- Sender._build_exclude_set
  unfoldable pub build_exclude_set : Option (List ClientLike) → List SocketId
  build_exclude_set none = []
  build_exclude_set (some cs) = map resolve_socket cs

  -- The `try` statement in the loop of `broadcast`, for a socket that is not excluded.
  unfoldable pub broadcast_send : Bytes → SocketId → Bool × Sender → Bool × Sender
  broadcast_send frame socket (all_ok, s) =
      let (outcome, world') = send_bytes socket frame s.world in
      let s' = record s { world = world' } in
      elim outcome [
        | ok _ ↦ (all_ok, emit (message_event MessageEvent.sent) s')
        | err e ↦
            (false, if is_connection_error e then emit (error_event ErrorEvent.send) s' else s')
      ]

  -- The loop of `broadcast` over the targets.
  unfoldable pub broadcast_loop :
      Bytes → List SocketId → List ClientLike → Bool × Sender → Bool × Sender
  broadcast_loop frame exclude [] acc = acc
  broadcast_loop frame exclude (c ∷ cs) acc = broadcast_loop frame exclude cs (
      if any (λ x. x == resolve_socket c) exclude
      then acc
      else broadcast_send frame (resolve_socket c) acc)

  -- list_of_client, or the callback's answer
  unfoldable pub targets :
      Option (List ClientLike) → Option (List ClientLike) → Option (List ClientLike)
  targets (some cs) get_all_clients = some cs
  targets none get_all_clients = get_all_clients

  -- Sender.broadcast. `get_all_clients` is the callback's answer, if there is a callback.
  unfoldable pub broadcast :
      Request
      → Option (List ClientLike)
      → Option (List ClientLike)
      → Option (List ClientLike)
      → Sender
      → Result Exn (Bool × Sender)
  broadcast r get_all_clients list_of_client except_clients s =
      if s.is_client then ok (false, s) else elim (targets list_of_client get_all_clients) [
        | none ↦ ok (false, s)
        | some [] ↦ ok (true, s)
        | some (c ∷ cs) ↦ do
          frame ← compile codec r
          ok (broadcast_loop frame (build_exclude_set except_clients) (c ∷ cs) (true, s))
      ]
