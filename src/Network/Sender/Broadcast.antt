-- ===== src/Network/Sender/Broadcast.antt =====
-- `broadcast` against its reference: one send to each target that is not excluded.
use veltix.Prelude.{
  ◌≡◌, refl, ap, ◌∙◌, inl, inr, Bool, true, false, ◌&&◌, Option, some, List, [], ◌∷◌, if◌then◌else◌,
  ◌==◌, Bool-cases, any, ok, is_ok, Result-cases, eq_nat, eq_string, eq_list,
}
use veltix.Prelude.Bytes.{Bytes}
use veltix.Internal.Events.{MessageEvent, ErrorEvent, message_event, error_event}
use veltix.Network.Request.{Codec, Request}
use veltix.Network.Wire.{IsSendable, frame, compile-eq-frame}
use veltix.Network.Sender.{
  SocketId, Transport, ClientLike, resolve_socket, is_connection_error, Sender, emit,
  build_exclude_set, broadcast_send, broadcast_loop, targets, broadcast,
}

module _ (codec : Codec) (net : Transport) where
  open net use {World, send_bytes}

  -- The sockets that are not excluded, in order.
  pub kept : List SocketId → List ClientLike → List SocketId
  kept exclude [] = []
  kept exclude (c ∷ cs) =
      if any (λ x. x == resolve_socket c) exclude
      then kept exclude cs
      else resolve_socket c ∷ kept exclude cs

  -- The world after the bytes went to each socket, and whether none of them raised.
  pub send_each : Bytes → List SocketId → World → Bool × World
  send_each b [] w = (true, w)
  send_each b (s ∷ ss) w =
      let (rest_ok, w') = send_each b ss (send_bytes s b w).1 in
      (is_ok (send_bytes s b w).0 && rest_ok, w')

  -- The sends to `to` turn the answer and the sender `acc` into those of `out`, as the reference
  -- does; no other field changes but the trace.
  pub record Agrees (b : Bytes) (to : List SocketId) (acc out : Bool × Sender codec net)
      : Type 0 where
    pub answer : out.0 ≡ (acc.0 && (send_each b to acc.1.world).0)
    pub same_world : out.1.world ≡ (send_each b to acc.1.world).1
    pub same_conn : out.1.conn ≡ acc.1.conn
    pub same_ids : out.1.id_allocator ≡ acc.1.id_allocator

  -- One send, as the reference makes it.
  record Sends (b : Bytes) (k : SocketId) (acc out : Bool × Sender codec net) : Type 0 where
    answer : out.0 ≡ (acc.0 && is_ok (send_bytes k b acc.1.world).0)
    same_world : out.1.world ≡ (send_bytes k b acc.1.world).1
    same_conn : out.1.conn ≡ acc.1.conn
    same_ids : out.1.id_allocator ≡ acc.1.id_allocator

  and_assoc : (a b c : Bool) → ((a && b) && c) ≡ (a && (b && c))
  and_assoc true b c = refl
  and_assoc false b c = refl

  and_true : (a : Bool) → a ≡ (a && true)
  and_true true = refl
  and_true false = refl

  and_false : (a : Bool) → false ≡ (a && false)
  and_false true = refl
  and_false false = refl

  broadcast_send-Sends :
      (b : Bytes) (k : SocketId) (all_ok : Bool) (s : Sender codec net)
      → Sends b k (all_ok, s) (broadcast_send codec net b k (all_ok, s))
  broadcast_send-Sends b k all_ok s = elim (Result-cases (send_bytes k b s.world).0) [
    | inl (a, e) ↦
        let f : broadcast_send codec net b k (all_ok, s) ≡ (
          all_ok,
          emit codec net (message_event MessageEvent.sent)
              (record s { world = (send_bytes k b s.world).1 }),
        ) =
          unfold broadcast_send in rw (e, broadcast_send) refl in
        rw f (record {
          answer = rw e (and_true all_ok);
          same_world = refl;
          same_conn = refl;
          same_ids = refl;
        })
    | inr (x, e) ↦
        let s' : Sender codec net = record s { world = (send_bytes k b s.world).1 } in
        let s'' =
          if is_connection_error x then emit codec net (error_event ErrorEvent.send) s' else s' in
        let f : broadcast_send codec net b k (all_ok, s) ≡ (false, s'') =
          unfold broadcast_send in rw (e, broadcast_send) refl in
        elim (Bool-cases (is_connection_error x)) [
          | inl lost ↦ rw f (
              rw lost (record {
                answer = rw e (and_false all_ok);
                same_world = refl;
                same_conn = refl;
                same_ids = refl;
              }))
          | inr other ↦ rw f (
              rw other (record {
                answer = rw e (and_false all_ok);
                same_world = refl;
                same_conn = refl;
                same_ids = refl;
              }))
        ]
  ]

  broadcast_loop-Agrees :
      (b : Bytes) (exclude : List SocketId) (cs : List ClientLike) (acc : Bool × Sender codec net)
      → Agrees b (kept exclude cs) acc (broadcast_loop codec net b exclude cs acc)
  unfolding broadcast_loop kept send_each
  broadcast_loop-Agrees b exclude [] acc = record {
    answer = and_true acc.0;
    same_world = refl;
    same_conn = refl;
    same_ids = refl;
  }
  broadcast_loop-Agrees b exclude (c ∷ cs) acc =
      elim (Bool-cases (any (λ x. x == resolve_socket c) exclude)) [
        | inl out ↦ rw out (broadcast_loop-Agrees b exclude cs acc)
        | inr in_ ↦
            let k = resolve_socket c in
            let next = broadcast_send codec net b k acc in
            let one = broadcast_send-Sends b k acc.0 acc.1 in
            let ih = broadcast_loop-Agrees b exclude cs next in
            rw in_ (record {
              answer =
                  ih.answer
                  ∙ ap (λ t. t && (send_each b (kept exclude cs) next.1.world).0) one.answer
                  ∙ and_assoc acc.0 (is_ok (send_bytes k b acc.1.world).0)
                      (send_each b (kept exclude cs) next.1.world).0
                  ∙ ap
                      (λ w.
                        acc.0
                        && (is_ok (send_bytes k b acc.1.world).0
                            && (send_each b (kept exclude cs) w).0))
                      one.same_world;
              same_world =
                  ih.same_world ∙ ap (λ w. (send_each b (kept exclude cs) w).1) one.same_world;
              same_conn = ih.same_conn ∙ one.same_conn;
              same_ids = ih.same_ids ∙ one.same_ids;
            })
      ]

  -- A broadcast in SERVER mode of a request that fits the header hands the same frame once to each
  -- target that is not excluded, in order, also after a failure, and answers whether none raised: a
  -- False of a socket is lost.
  pub broadcast-Agrees :
      (r : Request) (get_all : Option (List ClientLike)) (to : Option (List ClientLike))
      (except : Option (List ClientLike)) (cs : List ClientLike) (s : Sender codec net)
      → s.is_client ≡ false
      → IsSendable r
      → targets codec net to get_all ≡ some cs
      → (out : Bool × Sender codec net) × (broadcast codec net r get_all to except s ≡ ok out)
        × Agrees (frame codec r) (kept (build_exclude_set codec net except) cs) (true, s) out
  unfolding broadcast
  broadcast-Agrees r get_all to except [] s server v t = (
    (true, s),
    simp server (rw (t, broadcast) refl),
    unfold kept send_each in
        record { answer = refl; same_world = refl; same_conn = refl; same_ids = refl },
  )
  broadcast-Agrees r get_all to except (c ∷ cs) s server v t =
      let exclude = build_exclude_set codec net except in
      (
        broadcast_loop codec net (frame codec r) exclude (c ∷ cs) (true, s),
        simp server (rw (t, broadcast) (rw (compile-eq-frame codec r v) refl)),
        broadcast_loop-Agrees (frame codec r) exclude (c ∷ cs) (true, s),
      )
