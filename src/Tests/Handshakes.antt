-- ===== src/Tests/Handshakes.antt =====
-- The handshake at a concrete peer.
use veltix.Exceptions.{Exn}
use veltix.Prelude.{
  ◌≡◌, refl, true, false, none, some, [], ◌∷◌, arith, if◌then◌else◌, ◌==◌, take, drop, Result, ok,
  eq_nat, eq_string, eq_list,
}
use veltix.Prelude.Dict.{lookup}
use veltix.Prelude.Bytes.{Bytes}
use veltix.Prelude.Text.{codes}
use veltix.Internal.Events.{ProtocolEvent, protocol_event}
use veltix.Internal.Version.{Version, same_version, to_str, compatibility, eq_version}
use veltix.Handler.Handshake.{
  Json, string, object, no_fields, field, Peer, find_field, get_field, truthy, server_hello,
  client_hello, ack, encode, was_sent, send_handshake, handshake_events, do_server_handshake,
}
use veltix.Handler.Handshake.Client.{meta_or_empty, do_client_handshake}
use veltix.Handler.Handshake.Reception.{Gives, Arrives}
use veltix.Handler.Handshake.Roles.{
  accepted, Announces, do_server_handshake-decides, do_client_handshake-completes,
}

abbrev pub v1_8_1 : Version
v1_8_1 = record { major = 1; minor = 8; patch = 1 }

abbrev peer_hello : Json
peer_hello = object (field (codes "v") (string (to_str v1_8_1)) no_fields)

-- A payload is written as its first key.
abbrev pub dumped : Json → Result Exn Bytes
dumped (object (field k v rest)) = ok k
dumped _ = ok (0 ∷ [])

-- A socket that gives the bytes of its world one by one
abbrev pub one_by_one : Peer
one_by_one = record {
  World = Bytes;
  sendall = λ b w. (ok tt, w);
  recv = λ n w. (ok (take 1 w), drop 1 w);
  dumps = dumped;
  loads = λ b. ok (if b == codes "v" then peer_hello else ack);
}

peer_hello-Announces : Announces one_by_one v1_8_1 peer_hello
unfolding truthy get_field find_field
peer_hello-Announces = record { is_truthy = refl; announced = refl }

peer_hello-Arrives : (w : Bytes) → Arrives one_by_one (0 ∷ 1 ∷ 118 ∷ w) peer_hello w
peer_hello-Arrives w = record {
  body = codes "v";
  between = 118 ∷ w;
  some_body = omega arith;
  header_came =
      Gives.chunk_came 0 [] refl (omega arith)
        (Gives.chunk_came 1 [] refl (omega arith) Gives.all_came);
  body_came = Gives.chunk_came 118 [] refl (omega arith) Gives.all_came;
  reads = refl;
}

hello_sent :
    send_handshake one_by_one (server_hello (codes "1.8.1") 30000) (0 ∷ 1 ∷ 118 ∷ [])
    ≡ (true, 0 ∷ 1 ∷ 118 ∷ [])
unfolding send_handshake server_hello encode was_sent
hello_sent = refl

do_server_handshake-decides_example :
    do_server_handshake one_by_one v1_8_1 (codes "1.8.1") 30000 (0 ∷ 1 ∷ 118 ∷ []) [] ≡ (
      if accepted v1_8_1 v1_8_1
      then (
        ok (send_handshake one_by_one ack []).0,
        (send_handshake one_by_one ack []).1,
        handshake_events one_by_one (ok (send_handshake one_by_one ack []).0) [],
      )
      else (ok false, [], handshake_events one_by_one (ok false) []))
do_server_handshake-decides_example =
    do_server_handshake-decides one_by_one v1_8_1 v1_8_1 (codes "1.8.1") 30000 (0 ∷ 1 ∷ 118 ∷ [])
      (0 ∷ 1 ∷ 118 ∷ []) [] peer_hello [] hello_sent (peer_hello-Arrives []) peer_hello-Announces

ack-Arrives : Arrives one_by_one (0 ∷ 6 ∷ codes "result") ack []
ack-Arrives = record {
  body = codes "result";
  between = codes "result";
  some_body = omega arith;
  header_came =
      Gives.chunk_came 0 [] refl (omega arith)
        (Gives.chunk_came 6 [] refl (omega arith) Gives.all_came);
  body_came = Gives.chunk_came 114 [] refl (omega arith) (
      Gives.chunk_came 101 [] refl (omega arith) (
        Gives.chunk_came 115 [] refl (omega arith) (
          Gives.chunk_came 117 [] refl (omega arith) (
            Gives.chunk_came 108 [] refl (omega arith)
              (Gives.chunk_came 116 [] refl (omega arith) Gives.all_came)))));
  reads = refl;
}

answer_sent :
    send_handshake one_by_one (client_hello (codes "1.8.1")) (0 ∷ 6 ∷ codes "result")
    ≡ (true, 0 ∷ 6 ∷ codes "result")
unfolding send_handshake client_hello encode was_sent
answer_sent = refl

v1_8_1-accepted : accepted v1_8_1 v1_8_1 ≡ true
unfolding same_version compatibility lookup
v1_8_1-accepted = refl

no_meta : get_field (codes "meta") peer_hello ≡ ok none
unfolding get_field find_field
no_meta = refl

do_client_handshake-completes_example :
    do_client_handshake one_by_one v1_8_1 (codes "1.8.1") (0 ∷ 1 ∷ 118 ∷ 0 ∷ 6 ∷ codes "result") []
    ≡ (
      ok (some (meta_or_empty none)),
      [],
      protocol_event ProtocolEvent.handshake_done
          ∷ protocol_event ProtocolEvent.handshake_start
          ∷ [],
    )
do_client_handshake-completes_example =
    do_client_handshake-completes one_by_one v1_8_1 v1_8_1 (codes "1.8.1")
      (0 ∷ 1 ∷ 118 ∷ 0 ∷ 6 ∷ codes "result") (0 ∷ 6 ∷ codes "result") (0 ∷ 6 ∷ codes "result") []
      peer_hello none [] (peer_hello-Arrives (0 ∷ 6 ∷ codes "result")) peer_hello-Announces
      v1_8_1-accepted no_meta answer_sent ack-Arrives
