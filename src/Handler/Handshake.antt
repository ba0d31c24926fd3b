-- ===== src/Handler/Handshake.antt =====
-- The handshake (src/veltix/handler/handshake_handler.py) over a raw socket, an interface whose
-- timeout is left out.
pub mod Client
pub mod Reception
pub mod Roles
use veltix.Exceptions.{Exn, struct_error, attribute_error}
use veltix.Prelude.{
  ℕ, zero, suc, ◌-◌, Bool, true, false, not, Option, none, some, [], ◌∷◌, ◌++◌, ltb, nat_eq,
  if◌then◌else◌, ◌==◌, length, take, Result, ok, err, ◌>>=◌, eq_nat, eq_string, eq_list,
}
use veltix.Prelude.Bytes.{Bytes, be16, from_be, slice}
use veltix.Prelude.Text.{Text, codes}
use veltix.Internal.Events.{ProtocolEvent, protocol_event, Trace}
use veltix.Internal.Version.{Version, check_version, eq_version}

-- What json.loads gives. Numbers are those of the protocol's own payloads.
mutual
  pub data Json : Type 0 where
    null : Json
    boolean : Bool → Json
    number : ℕ → Json
    string : Text → Json
    array : JsonList → Json
    object : JsonFields → Json

  pub data JsonList : Type 0 where
    no_items : JsonList
    item : Json → JsonList → JsonList

  pub data JsonFields : Type 0 where
    no_fields : JsonFields
    field : Text → Json → JsonFields → JsonFields

-- The raw socket, and the json module with UTF-8
pub record Peer : Type 1 where
  pub World : Type 0
  pub sendall : Bytes → World → Result Exn (Unit {0}) × World
  pub recv : ℕ → World → Result Exn Bytes × World
  pub dumps : Json → Result Exn Bytes
  pub loads : Bytes → Result Exn Json

-- `payload.get(key)` on a dict; any other value has no `get`.
unfoldable pub find_field : Text → JsonFields → Option Json
find_field key no_fields = none
find_field key (field k v rest) = if k == key then some v else find_field key rest

unfoldable pub get_field : Text → Json → Result Exn (Option Json)
get_field key (object fields) = ok (find_field key fields)
get_field key _ = err attribute_error

-- `bool(payload)`
unfoldable pub truthy : Json → Bool
truthy null = false
truthy (boolean b) = b
truthy (number n) = not (nat_eq n 0)
truthy (string s) = not (s == [])
truthy (array no_items) = false
truthy (array (item _ _)) = true
truthy (object no_fields) = false
truthy (object (field _ _ _)) = true

-- The payloads {"v": ..., "meta": {"id_window": ...}}, {"v": ..., "meta": {}} and {"result": "ok"}
unfoldable pub server_hello : Text → ℕ → Json
server_hello version id_window = object (
    field (codes "v") (string version) (
      field (codes "meta") (object (field (codes "id_window") (number id_window) no_fields))
        no_fields))

unfoldable pub client_hello : Text → Json
client_hello version =
    object (field (codes "v") (string version) (field (codes "meta") (object no_fields) no_fields))

unfoldable pub ack : Json
ack = object (field (codes "result") (string (codes "ok")) no_fields)

-- `payload.get("v", "")`, and the version check on it: a value that is no string has no
-- `startswith`, which counts as an invalid version.
unfoldable pub check_peer : Version → Option Json → Bool
check_peer own none = check_version own []
check_peer own (some (string s)) = check_version own s
check_peer own (some _) = false

module _ (peer : Peer) where
  open peer use {World, sendall, recv, dumps, loads}

  -- HandshakeHandler._encode: `H` raises above 65535.
  unfoldable pub encode : Json → Result Exn Bytes
  encode j = do
    body ← dumps j
    if ltb 65535 (length body) then err struct_error else ok (be16 (length body) ++ body)

  -- HandshakeHandler._decode
  unfoldable pub decode : Bytes → Result Exn Json
  decode b = loads (slice 2 (from_be (take 2 b)) b)

  unfoldable pub was_sent : Result Exn (Unit {0}) × World → Bool × World
  was_sent (ok _, w) = (true, w)
  was_sent (err _, w) = (false, w)

  -- HandshakeHandler._send_handshake
  unfoldable pub send_handshake : Json → World → Bool × World
  send_handshake j w = elim (encode j) [ err e ↦ (false, w) | ok b ↦ was_sent (sendall b w) ]

  -- The chunks joined, behind one that has come
  unfoldable pub behind :
      Bytes → Result Exn (Option Bytes) × World → Result Exn (Option Bytes) × World
  behind chunk (ok (some rest), w) = (ok (some (chunk ++ rest)), w)
  behind chunk (ok none, w) = (ok none, w)
  behind chunk (err e, w) = (err e, w)

  unfoldable pub next_chunk :
      Result Exn Bytes × World
      → (ℕ → World → Result Exn (Option Bytes) × World)
      → Result Exn (Option Bytes) × World
  next_chunk (err e, w) more = (err e, w)
  next_chunk (ok [], w) more = (ok none, w)
  next_chunk (ok (c ∷ cs), w) more = behind (c ∷ cs) (more (length (c ∷ cs)) w)

  -- _recv_all, the loop of _recv_handshake, on fuel
  unfoldable pub recv_all : ℕ → ℕ → World → Result Exn (Option Bytes) × World
  recv_all zero n w = (ok none, w)
  recv_all (suc f) zero w = (ok (some []), w)
  recv_all (suc f) (suc n) w = next_chunk (recv (suc n) w) (λ k w'. recv_all f (suc n - k) w')

  unfoldable pub decoded : Result Exn Json → Option Json
  decoded (ok j) = some j
  decoded (err e) = none

  -- `if not data or len(data) < payload_len`, and the decoding
  unfoldable pub read_payload : Bytes → Result Exn (Option Bytes) × World → Option Json × World
  read_payload header (ok (some []), w) = (none, w)
  read_payload header (ok (some (b ∷ bs)), w) =
      if ltb (length (b ∷ bs)) (from_be header)
      then (none, w)
      else (decoded (decode (header ++ (b ∷ bs))), w)
  read_payload header (ok none, w) = (none, w)
  read_payload header (err e, w) = (none, w)

  -- `if not header or len(header) < 2`, and the unpacking, which wants 2 bytes
  unfoldable pub read_header : Result Exn (Option Bytes) × World → Option Json × World
  read_header (ok (some header), w) =
      if nat_eq (length header) 2
      then read_payload header (recv_all (suc (from_be header)) (from_be header) w)
      else (none, w)
  read_header (ok none, w) = (none, w)
  read_header (err e, w) = (none, w)

  -- HandshakeHandler._recv_handshake
  unfoldable pub recv_handshake : World → Option Json × World
  recv_handshake w = read_header (recv_all 3 2 w)

  -- The end of do_server_handshake, once the version is known: the acknowledgment.
  unfoldable pub server_checked : Bool → World → Result Exn Bool × World
  server_checked false w = (ok false, w)
  server_checked true w = let (sent, w') = send_handshake ack w in (ok sent, w')

  -- From the client's answer on
  unfoldable pub server_received : Version → Option Json × World → Result Exn Bool × World
  server_received own (none, w) = (ok false, w)
  server_received own (some j, w) =
      if truthy j
      then elim (get_field (codes "v") j) [
        | err e ↦ (err e, w)
        | ok v ↦ server_checked (check_peer own v) w
      ]
      else (ok false, w)

  unfoldable pub server_sent : Version → Bool × World → Result Exn Bool × World
  server_sent own (false, w) = (ok false, w)
  server_sent own (true, w) = server_received own (recv_handshake w)

  -- HANDSHAKE_START, and HANDSHAKE_DONE or HANDSHAKE_FAIL at the end, unless it raises
  unfoldable pub handshake_events : Result Exn Bool → Trace → Trace
  handshake_events (ok true) t =
      protocol_event ProtocolEvent.handshake_done ∷ protocol_event ProtocolEvent.handshake_start ∷ t
  handshake_events (ok false) t =
      protocol_event ProtocolEvent.handshake_fail ∷ protocol_event ProtocolEvent.handshake_start ∷ t
  handshake_events (err e) t = protocol_event ProtocolEvent.handshake_start ∷ t

  unfoldable pub with_events : Trace → Result Exn Bool × World → Result Exn Bool × World × Trace
  with_events t (out, w) = (out, w, handshake_events out t)

  -- HandshakeHandler.do_server_handshake, of a handler with that version and window
  unfoldable pub do_server_handshake :
      Version → Text → ℕ → World → Trace → Result Exn Bool × World × Trace
  do_server_handshake own version id_window w t =
      with_events t (server_sent own (send_handshake (server_hello version id_window) w))
