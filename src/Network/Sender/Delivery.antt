-- ===== src/Network/Sender/Delivery.antt =====
-- What `send` promises its caller.
use veltix.Exceptions.{Exn}
use veltix.Prelude.{
  ℕ, ◌≡◌, refl, ap, ◌∙◌, inl, inr, Bool, true, false, Option, none, some, Option-cases, is_some,
  Result, ok, err, is_ok, eq_nat, eq_string, eq_list,
}
use veltix.Prelude.Bytes.{Bytes}
use veltix.Internal.Events.{MessageEvent, message_event}
use veltix.Network.IdAllocator.{IdAllocator}
use veltix.Network.Request.{Codec, Request, compile}
use veltix.Network.Wire.{IsSendable, frame, compile-eq-frame}
use veltix.Network.Sender.{
  SocketId, Transport, Sender, emit, resolve_target, assign_id, send_failed, try_send, send,
}

module _ (codec : Codec) (net : Transport) where
  open net use {World, send_bytes}

  -- The socket answers with a Boolean in every world.
  abbrev pub NeverRaises : SocketId → Type 0
  NeverRaises s = (b : Bytes) (w : World) → is_ok (send_bytes s b w).0 ≡ true

  is_ok-inv : (o : Result Exn Bool) → is_ok o ≡ true → (b : Bool) × (o ≡ ok b)
  is_ok-inv (ok b) h = (b, refl)
  is_ok-inv (err e) h = cc

  assign_id-given :
      (r : Request) (s : Sender codec net)
      → is_some r.request_id ≡ true
      → assign_id codec net r s ≡ ok (r, s)
  unfolding assign_id
  assign_id-given r s h = elim (Option-cases r.request_id) [ inl e ↦ cc | inr (id, e) ↦ rw e refl ]

  -- The request and the sender after an identifier is allocated.
  abbrev pub with_id : Request → ℕ → Request
  with_id r id = record r { request_id = some id }

  -- The socket takes the frame: what it answers is not looked at.
  try_send-taken :
      (r : Request) (target : SocketId) (s : Sender codec net) (b : Bytes) (answer : Bool)
      → compile codec r ≡ ok b
      → (send_bytes target b s.world).0 ≡ ok answer
      → try_send codec net r target s ≡ (
        true,
        emit codec net
            (message_event MessageEvent.sent)
            (record s { world = (send_bytes target b s.world).1 }),
      )
  unfolding try_send
  try_send-taken r target s b answer c e = rw (c, try_send) (rw e refl)

  try_send-raised :
      (r : Request) (target : SocketId) (s : Sender codec net) (b : Bytes) (x : Exn)
      → compile codec r ≡ ok b
      → (send_bytes target b s.world).0 ≡ err x
      → try_send codec net r target s
        ≡ (false, send_failed codec net x (record s { world = (send_bytes target b s.world).1 }))
  unfolding try_send
  try_send-raised r target s b x c e = rw (c, try_send) (rw e refl)

  send-steps :
      (r r' : Request) (target : SocketId) (s s' : Sender codec net) (to : Option SocketId)
      → resolve_target codec net s to ≡ some target
      → assign_id codec net r s ≡ ok (r', s')
      → send codec net r to s
        ≡ ok ((try_send codec net r' target s').0, r', (try_send codec net r' target s').1)
  unfolding send
  send-steps r r' target s s' to t a = rw (t, send) (rw a refl)

  send-nowhere :
      (r : Request) (s : Sender codec net) (to : Option SocketId)
      → resolve_target codec net s to ≡ none
      → send codec net r to s ≡ ok (false, r, s)
  unfolding send
  send-nowhere r s to t = rw (t, send) refl

  -- `send` of a request that has an identifier, to a socket that never raises, answers True whatever
  -- the socket answered: a False of the socket is lost. The frame has been handed to the socket
  -- once, and SENT is emitted.
  pub send-ignores_answer :
      (r : Request) (target : SocketId) (s : Sender codec net) (to : Option SocketId)
      → IsSendable r
      → is_some r.request_id ≡ true
      → resolve_target codec net s to ≡ some target
      → NeverRaises target
      → send codec net r to s
        ≡ ok (
          true,
          r,
          emit codec net
              (message_event MessageEvent.sent)
              (record s { world = (send_bytes target (frame codec r) s.world).1 }),
        )
  send-ignores_answer r target s to v given t quiet =
      let (answer, e) =
        is_ok-inv (send_bytes target (frame codec r) s.world).0 (quiet (frame codec r) s.world) in
      send-steps r r target s s to t (assign_id-given r s given)
      ∙ ap (λ (p : Bool × Sender codec net). ok (p.0, r, p.1))
          (try_send-taken r target s (frame codec r) answer (compile-eq-frame codec r v) e)
