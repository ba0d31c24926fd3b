-- ===== src/Tests/Pings.antt =====
-- A ping and its pong, and a connection that fails, at concrete inputs.
use veltix.Prelude.{
  ℕ, ◌≡◌, refl, false, none, some, List, [], ◌∷◌, arith, concat, ok, err, eq_nat, eq_string,
  eq_list,
}
use veltix.Prelude.Dict.{lookup}
use veltix.Prelude.Bytes.{Bytes}
use veltix.Prelude.Text.{codes}
use veltix.Exceptions.{refused}
use veltix.Network.Types.{Registry, get}
use veltix.Network.SystemTypes.{ping_type, pong_type}
use veltix.Network.IdAllocator.{id_allocator, allocate}
use veltix.Network.Sender.{Sender}
use veltix.Network.Sender.Delivery.{NeverRaises}
use veltix.Network.Wire.{frame, received}
use veltix.Network.MessageBuffer.{message_buffer}
use veltix.Network.MessageBuffer.Chunks.{feed_all}
use veltix.Handler.Rules.{pong}
use veltix.Handler.Rules.Pending.{handle_all}
use veltix.Client.Requests.{ping_server}
use veltix.Client.Requests.Ping.{ping, heard_from, ping_server-pong}
use veltix.SocketCore.AsyncSocket.{async_socket, close, disconnect}
use veltix.SocketCore.AsyncSocket.Leak.{Leaks, connect-Leaks}
use veltix.Tests.Samples.{plain_codec, answer, loopback}
use veltix.Tests.Sending.{server_sender, seven-NeverRaises}
use veltix.Tests.Handling.{handler}
use veltix.Tests.Handshakes.{v1_8_1, one_by_one}
use veltix.Tests.Registry.{infos}
use veltix.Tests.Clients.{connected}
use veltix.SocketCore.AsyncSocket.Connecting.{connect}

abbrev system_registry : Registry
system_registry = (0, ping_type) ∷ (1, pong_type) ∷ []

ping-known : get ping_type.code system_registry ≡ some ping_type
unfolding get lookup ping_type
ping-known = refl

pong-known : get pong_type.code system_registry ≡ some pong_type
unfolding get lookup pong_type
pong-known = refl

-- The frame of the ping comes in two chunks, that of the pong in three.
abbrev ping_chunks : List Bytes
ping_chunks = (86 ∷ 88 ∷ 0 ∷ []) ∷ (0 ∷ 0 ∷ 0 ∷ 0 ∷ 0 ∷ 0 ∷ 0 ∷ 0 ∷ 0 ∷ 0 ∷ 0 ∷ 0 ∷ []) ∷ []

abbrev pong_chunks : List Bytes
pong_chunks = (86 ∷ []) ∷ (88 ∷ 0 ∷ 0 ∷ 1 ∷ []) ∷ (0 ∷ 0 ∷ 0 ∷ 0 ∷ 0 ∷ 0 ∷ 0 ∷ 0 ∷ 0 ∷ 0 ∷ []) ∷ []

ping-frame : concat ping_chunks ≡ frame plain_codec (ping 0)
unfolding frame ping_type
ping-frame = refl

pong-frame : concat pong_chunks ≡ frame plain_codec (pong plain_codec loopback 0)
unfolding frame pong_type
pong-frame = refl

first_id : allocate (id_allocator 30000) ≡ ok (0, record { max_ids = 30000; counter = 1 })
unfolding allocate id_allocator
first_id = refl

zero-NeverRaises : NeverRaises plain_codec loopback 0
zero-NeverRaises b w = refl

ping_server-pong_example :
    let heard = (feed_all plain_codec system_registry (message_buffer 1024 2048) ping_chunks).0 in
    let answers = (feed_all plain_codec system_registry (message_buffer 1024 2048) pong_chunks).0 in
    let h' =
      handle_all plain_codec loopback (heard_from plain_codec loopback (some 7) heard) handler in
    let (answer, c') =
      ping_server plain_codec loopback (heard_from plain_codec loopback none answers) connected in
    (c'.sender.world ≡ (0, frame plain_codec (ping 0)) ∷ [])
    × ((s' : Sender plain_codec loopback) × (h'.sender ≡ some s')
        × (s'.world ≡ (7, frame plain_codec (pong plain_codec loopback 0)) ∷ []))
    × (answer ≡ ok (some (received plain_codec (pong plain_codec loopback 0))))
ping_server-pong_example =
    ping_server-pong plain_codec loopback loopback system_registry 0 (id_allocator 30000)
      (record { max_ids = 30000; counter = 1 }) connected 0 handler server_sender 7 ping_chunks
      pong_chunks 12 1024 2048 refl refl refl refl first_id (omega arith) zero-NeverRaises refl refl
      refl seven-NeverRaises ping-known pong-known (omega arith) (omega arith) ping-frame
      (omega arith) pong-frame (omega arith)

connect-Leaks_example :
    let (answer, s) =
      connect plain_codec loopback ℕ one_by_one
        (err refused)
        v1_8_1
        (codes "1.8.1")
        []
        (async_socket plain_codec loopback ℕ handler 1024 infos 0) in
    (answer ≡ false)
    × Leaks plain_codec loopback ℕ (close plain_codec loopback ℕ s)
    × Leaks plain_codec loopback ℕ (disconnect plain_codec loopback ℕ s)
connect-Leaks_example =
    connect-Leaks plain_codec loopback ℕ one_by_one refused v1_8_1 (codes "1.8.1") [] handler 1024
      infos 0
