-- ===== src/Client/Requests/Ping.antt =====
-- A ping from a client to a server and back (src/veltix/client/client.py, handler/rules.py,
-- network/message_buffer.py).
use veltix.Prelude.{
  ℕ, ◌+◌, ◌≤◌, ◌≡◌, refl, sym, ap, ◌∙◌, subst, Bool, true, false, Option, none, some, List, [], ◌∷◌,
  map, append-nil, arith, if◌then◌else◌, nat_eq_refl, length, concat, All, Result, ok, err, ◌>>=◌,
  eq_nat, eq_string, eq_list,
}
use veltix.Prelude.Bytes.{Bytes}
use veltix.Exceptions.{Exn, attribute_error}
use veltix.Network.Types.{MessageType, Registry, get}
use veltix.Network.SystemTypes.{ping_type, pong_type, same_type}
use veltix.Network.IdAllocator.{IdAllocator, allocate}
use veltix.Network.Request.{Codec, header_size, no_flags, Request}
use veltix.Network.Response.{Response, response}
use veltix.Network.Sender.{SocketId, Transport, Sender, resolve_target}
use veltix.Network.Sender.Delivery.{NeverRaises, send-ignores_answer}
use veltix.Network.Wire.{IsSendable, frame, received}
use veltix.Network.MessageBuffer.{message_buffer}
use veltix.Network.MessageBuffer.Framing.{IsDeliverable}
use veltix.Network.MessageBuffer.Chunks.{feed_all, feed_all-stream}
use veltix.Handler.RequestHandler.{RequestHandler, register}
use veltix.Handler.Rules.{pong, Handled, answers, blocked, handle}
use veltix.Handler.Rules.Dispatch.{Context, handle-ping}
use veltix.Handler.Rules.Pending.{go_on, handle_all, answers_request, first_answer}
use veltix.Client.State.{Client}
use veltix.Client.Requests.{
  with_sender, identified_as, identified, awaited, registered_and_sent, send_and_wait, ping_server,
}
use veltix.Client.Requests.Answer.{IsAnswer, awaited-IsAnswer}

-- The request of ping_server, with its identifier
abbrev pub ping : ℕ → Request
ping id = record { type = ping_type; content = []; request_id = some id; flags = no_flags }

module _ (codec : Codec) (net : Transport) where
  abbrev pub heard_from : Option SocketId → List (Response codec) → List (Context codec net)
  heard_from client rs = map (λ r. record { response = r; client = client }) rs

  goes : (r : Handled codec net) (h : RequestHandler codec net) → go_on codec net r h h ≡ h
  goes (answers b) h = refl
  goes blocked h = refl

  handle_all-one :
      (c : Context codec net) (h : RequestHandler codec net)
      → handle_all codec net (c ∷ []) h ≡ (handle codec net c h).1
  unfolding handle_all
  handle_all-one c h = goes (handle codec net c h).0 (handle codec net c h).1

  deliverable :
      (reg : Registry) (max id : ℕ) (t : MessageType)
      → get t.code reg ≡ some t
      → t.code ≤ 65535
      → header_size ≤ max
      → id ≤ 65535
      → IsDeliverable reg max
          (record { type = t; content = []; request_id = some id; flags = no_flags })
  deliverable reg max id t known code room small = record {
    sendable = record {
      content_fits = omega arith;
      code_fits = code;
      flags_fit = omega arith;
      id_fits = small;
    };
    known = known;
    fits = omega arith;
    fits_parser = omega arith;
  }

  -- A frame that comes in chunks gives its message.
  one_frame :
      (reg : Registry) (r : Request) (chunks : List Bytes) (size max limit : ℕ)
      → IsDeliverable reg max r
      → concat chunks ≡ frame codec r
      → All (λ b. length b ≤ size) chunks
      → max + size ≤ limit
      → (feed_all codec reg (message_buffer max limit) chunks).0 ≡ received codec r ∷ []
  one_frame reg r chunks size max limit v e small room =
      ap (λ p. p.0)
        (feed_all-stream codec reg max limit (r ∷ []) chunks size (v, tt)
          (e ∙ sym (append-nil (frame codec r))) small room)

  ping-IsSendable : (id : ℕ) → id ≤ 65535 → IsSendable (ping id)
  unfolding ping_type
  ping-IsSendable id small = record {
    content_fits = omega arith;
    code_fits = omega arith;
    flags_fit = omega arith;
    id_fits = small;
  }

  resolve_target-conn :
      (s : Sender codec net) (sock : SocketId)
      → s.is_client ≡ true
      → s.conn ≡ some sock
      → resolve_target codec net s none ≡ some sock
  unfolding resolve_target
  resolve_target-conn s sock mode linked =
      ap (λ (b : Bool). if b then s.conn else none) mode ∙ linked

  -- The identifier that the allocator gives
  identified-next :
      (id : ℕ) (a a' : IdAllocator) (c : Client codec net)
      → c.sender.id_allocator ≡ some a
      → allocate a ≡ ok (id, a')
      → identified codec net
          (record { type = ping_type; content = []; request_id = none; flags = no_flags })
          c
        ≡ ok (id, ping id, with_sender codec net (record c.sender { id_allocator = some a' }) c)
  unfolding identified identified_as
  identified-next id a a' c has_ids next =
      let given : ℕ × IdAllocator → Result Exn (ℕ × Request × Client codec net) = λ p.
        ok (p.0, ping p.0, with_sender codec net (record c.sender { id_allocator = some p.1 }) c) in
      ap
        (λ (o : Option IdAllocator). elim o [
          | none ↦ err attribute_error
          | some b ↦ do p ← allocate b; given p
        ])
        has_ids
      ∙ ap (λ r. do p ← r; given p) next

  -- What ping_server does when its sender can send
  ping_server-IsAnswer :
      (id : ℕ) (a a' : IdAllocator) (c : Client codec net) (sock : SocketId)
      (cs : List (Context codec net))
      → c.request_handler.pending_requests ≡ []
      → c.sender.is_client ≡ true
      → c.sender.conn ≡ some sock
      → c.sender.id_allocator ≡ some a
      → allocate a ≡ ok (id, a')
      → id ≤ 65535
      → NeverRaises codec net sock
      → let out = ping_server codec net cs c in
        IsAnswer codec net id cs true out
        × (out.1.sender.world ≡ (net.send_bytes sock (frame codec (ping id)) c.sender.world).1)
  unfolding ping_server send_and_wait registered_and_sent awaited
  ping_server-IsAnswer id a a' c sock cs empty mode linked has_ids next small quiet =
      let c' = with_sender codec net (record c.sender { id_allocator = some a' }) c in
      let registered : Client codec net = record c' {
        request_handler = register codec net id c'.request_handler;
      } in
      let sent =
        send-ignores_answer codec net (ping id) sock c'.sender none (ping-IsSendable id small) refl
          (resolve_target-conn c'.sender sock mode linked) quiet in
      let steps =
        ap (λ i. registered_and_sent codec net cs i c) (identified-next id a a' c has_ids next)
        ∙ ap (λ x. awaited codec net id cs x registered) sent in
      subst
        (λ out.
          IsAnswer codec net id cs true out
          × (out.1.sender.world ≡ (net.send_bytes sock (frame codec (ping id)) c.sender.world).1))
        (sym steps) (awaited-IsAnswer codec net (ping id) id cs c' true _ empty, refl)

  answer-pong :
      (id : ℕ)
      → first_answer codec net id (heard_from none (received codec (pong codec net id) ∷ []))
        ≡ some (received codec (pong codec net id))
  unfolding first_answer answers_request same_type pong_type ping_type response
  answer-pong id =
      ap (λ (b : Bool). if b then some (received codec (pong codec net id)) else none)
        (nat_eq_refl id)

ping-same_type : same_type ping_type ping_type ≡ true
unfolding same_type
ping-same_type = nat_eq_refl ping_type.code

module _ (codec : Codec) (net far : Transport) (reg : Registry) where
  -- A ping and its pong. A client that is connected, with no request pending and an allocator that
  -- gives `id`, and a server's request handler, whose sender is in SERVER mode; sockets that do not
  -- raise; PING and PONG registered; limits that fit. The frame of the ping, in whatever chunks,
  -- gives the server the ping, which it answers with the frame of the pong, on the socket of the
  -- client; and that frame, in whatever chunks, makes ping_server, which has sent the frame of the
  -- ping, return the pong.
  pub ping_server-pong :
      (id : ℕ) (a a' : IdAllocator) (c : Client codec net) (sock : SocketId)
      (h : RequestHandler codec far) (s : Sender codec far) (conn : SocketId)
      (outward homeward : List Bytes) (size max limit : ℕ)
      → c.request_handler.pending_requests ≡ []
      → c.sender.is_client ≡ true
      → c.sender.conn ≡ some sock
      → c.sender.id_allocator ≡ some a
      → allocate a ≡ ok (id, a')
      → id ≤ 65535
      → NeverRaises codec net sock
      → h.is_server ≡ true
      → h.sender ≡ some s
      → s.is_client ≡ false
      → NeverRaises codec far conn
      → get ping_type.code reg ≡ some ping_type
      → get pong_type.code reg ≡ some pong_type
      → header_size ≤ max
      → max + size ≤ limit
      → concat outward ≡ frame codec (ping id)
      → All (λ b. length b ≤ size) outward
      → concat homeward ≡ frame codec (pong codec far id)
      → All (λ b. length b ≤ size) homeward
      → let heard = (feed_all codec reg (message_buffer max limit) outward).0 in
        let answers = (feed_all codec reg (message_buffer max limit) homeward).0 in
        let h' = handle_all codec far (heard_from codec far (some conn) heard) h in
        let (answer, c') = ping_server codec net (heard_from codec net none answers) c in
        (c'.sender.world ≡ (net.send_bytes sock (frame codec (ping id)) c.sender.world).1)
        × ((s' : Sender codec far) × (h'.sender ≡ some s')
            × (s'.world ≡ (far.send_bytes conn (frame codec (pong codec far id)) s.world).1))
        × (answer ≡ ok (some (received codec (pong codec net id))))
  unfolding ping_type pong_type response
  ping_server-pong id a a' c sock h s conn outward homeward size max limit empty mode linked has_ids
        next small quiet server sends mode' quiet' known known' room fits e small_outward e'
        small_homeward =
      let pinged =
        one_frame codec net reg (ping id) outward size max limit
          (deliverable codec net reg max id ping_type known (omega arith) room small) e
          small_outward fits in
      let ponged =
        one_frame codec net reg (pong codec far id) homeward size max limit
          (deliverable codec net reg max id pong_type known' (omega arith) room small) e'
          small_homeward fits in
      let from_client : Context codec far = record {
        response = received codec (ping id);
        client = some conn;
      } in
      let (done_, kept, pool, answered) =
        handle-ping codec far from_client h s conn ping-same_type server sends mode' refl small
          quiet' in
      let served =
        ap (λ rs. handle_all codec far (heard_from codec far (some conn) rs) h) pinged
        ∙ handle_all-one codec far from_client h in
      let (answers_, world_) =
        ping_server-IsAnswer codec net id a a' c sock
          (heard_from codec net none (received codec (pong codec net id) ∷ [])) empty mode linked
          has_ids next small quiet in
      subst
        (λ rs.
          let (answer, c') = ping_server codec net (heard_from codec net none rs) c in
          (c'.sender.world ≡ (net.send_bytes sock (frame codec (ping id)) c.sender.world).1)
          × ((s' : Sender codec far) × ((handle_all codec far
                  (heard_from codec far (some conn)
                    (feed_all codec reg (message_buffer max limit) outward).0)
                  h).sender
                ≡ some s')
              × (s'.world ≡ (far.send_bytes conn (frame codec (pong codec far id)) s.world).1))
          × (answer ≡ ok (some (received codec (pong codec net id)))))
        (sym ponged)
        (
          world_,
          subst
              (λ k.
                (s' : Sender codec far) × (k.sender ≡ some s')
                × (s'.world ≡ (far.send_bytes conn (frame codec (pong codec far id)) s.world).1))
              (sym served) answered,
          answers_.0 ∙ ap ok (answer-pong codec net id),
        )
