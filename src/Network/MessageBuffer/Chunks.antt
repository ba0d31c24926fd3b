-- ===== src/Network/MessageBuffer/Chunks.antt =====
-- Reception: chunks are added and messages extracted in turn, as the receive loops do.
use mathlib.Core.List.{map-append}
use veltix.Prelude.{
  ℕ, suc, ◌+◌, ◌≤◌, ◌≡◌, refl, sym, ap, ◌∙◌, subst, inl, inr, List, [], ◌∷◌, ◌++◌, map, append-nil,
  append_assoc, arith, ltb, le→ltb_false, Bool-cases, length, concat, All, length-append, eq_nat,
  eq_string, eq_list,
}
use veltix.Prelude.Bytes.{Bytes}
use veltix.Network.Types.{Registry}
use veltix.Network.Request.{Codec, Request}
use veltix.Network.Response.{Response}
use veltix.Network.Wire.{received}
use veltix.Network.MessageBuffer.{
  MessageBuffer, message_buffer, clear, add_data, extract_step, extract_loop, extract_messages,
}
use veltix.Network.MessageBuffer.Loop.{IsDrained, extract_loop-IsDrained}
use veltix.Network.MessageBuffer.Soundness.{extract_messages-Carved, Carved-le}
use veltix.Network.MessageBuffer.Framing.{
  IsDeliverable, stream, extract_step-frame, extract_loop-Drained,
}

-- The buffer never holds more than its limit.
abbrev pub IsBounded : MessageBuffer → Type 0
IsBounded m = length m.buffer ≤ m.max_buffer_size

pub add_data-IsBounded : (m : MessageBuffer) (new : Bytes) → IsBounded (add_data m new)
unfolding add_data clear
add_data-IsBounded m new =
    elim (Bool-cases (ltb m.max_buffer_size (length m.buffer + length new))) [
      | inl over ↦ rw over (omega arith)
      | inr fits ↦ rw fits (ground (arith, length-append m.buffer new))
    ]

pub add_data-eq :
    (m : MessageBuffer) (new : Bytes)
    → length m.buffer + length new ≤ m.max_buffer_size
    → add_data m new ≡ record m { buffer = m.buffer ++ new }
unfolding add_data
add_data-eq m new h = rw (le→ltb_false m.max_buffer_size (length m.buffer + length new) h)

module _ (codec : Codec) where
  -- One turn of a receive loop.
  unfoldable pub feed : Registry → MessageBuffer → Bytes → List (Response codec) × MessageBuffer
  feed reg m chunk = extract_messages codec reg (add_data m chunk)

  unfoldable pub feed_all :
      Registry → MessageBuffer → List Bytes → List (Response codec) × MessageBuffer
  feed_all reg m [] = ([], m)
  feed_all reg m (c ∷ cs) =
      let (rs, m') = feed reg m c in let (rs', m'') = feed_all reg m' cs in (rs ++ rs', m'')

  -- After every turn, whatever the bytes, the buffer is within its limit.
  pub feed-IsBounded :
      (reg : Registry) (m : MessageBuffer) (chunk : Bytes) → IsBounded (feed reg m chunk).1
  unfolding feed extract_messages
  feed-IsBounded reg m chunk =
      let m' = add_data m chunk in
      let out = extract_loop codec (suc (length m'.buffer)) reg m'.max_message_size m'.buffer in
      omega (
        arith,
        add_data-IsBounded m chunk,
        Carved-le codec reg out.0 m'.buffer out.1 (extract_messages-Carved codec reg m'),
      )

  -- The state between two turns: what has arrived is the beginning of the stream of `rs`.
  record IsBetween (reg : Registry) (m : MessageBuffer) (rs : List Request) (rest : Bytes)
      : Type 0 where
    deliverable : All (IsDeliverable reg m.max_message_size) rs
    goes_on : m.buffer ++ rest ≡ stream codec rs
    small : length m.buffer ≤ m.max_message_size
    waits : IsDrained codec reg m.max_message_size m.buffer

  All-append_right : (P : Request → Type 0) (xs ys : List Request) → All P (xs ++ ys) → All P ys
  All-append_right P [] ys h = h
  All-append_right P (x ∷ xs) ys h = All-append_right P xs ys h.1

  -- One turn of a stream takes the state to the state for what is left of it.
  feed-IsBetween :
      (reg : Registry) (m : MessageBuffer) (rs : List Request) (c rest : Bytes)
      → length m.buffer + length c ≤ m.max_buffer_size
      → IsBetween reg m rs (c ++ rest)
      → (done left : List Request) × (b : Bytes) × (rs ≡ done ++ left)
        × (feed reg m c ≡ (map (received codec) done, record m { buffer = b }))
        × IsBetween reg (record m { buffer = b }) left rest
  unfolding feed extract_messages
  feed-IsBetween reg m rs c rest room s =
      let max = m.max_message_size in
      let b = m.buffer ++ c in
      let out = extract_loop codec (suc (length b)) reg max b in
      let d =
        extract_loop-Drained codec (suc (length b)) reg max rs b rest s.deliverable
          (append_assoc m.buffer c rest ∙ s.goes_on) (omega arith) in
      (
        d.done,
        d.left,
        out.1,
        d.splits,
        rw (add_data-eq m c room) (rw d.all_out),
        record {
          deliverable =
              All-append_right (IsDeliverable reg max) d.done d.left
                (subst (All (IsDeliverable reg max)) d.splits s.deliverable);
          goes_on = d.goes_on;
          small = d.small;
          waits = extract_loop-IsDrained codec (suc (length b)) reg max b (omega arith);
        },
      )

  -- At the end of the stream nothing is left.
  IsBetween-end :
      (reg : Registry) (m : MessageBuffer) (rs : List Request)
      → IsBetween reg m rs []
      → (rs ≡ []) × (m.buffer ≡ [])
  IsBetween-end reg m [] s = (refl, sym (append-nil m.buffer) ∙ s.goes_on)
  IsBetween-end reg m (r ∷ rs) s =
      let whole = sym (append-nil m.buffer) ∙ s.goes_on in
      let step =
        ap (extract_step codec reg m.max_message_size) whole
        ∙ extract_step-frame codec reg m.max_message_size r (stream codec rs) s.deliverable.0 in
      cc (step, s.waits)

  feed_all-IsBetween :
      (reg : Registry) (m : MessageBuffer) (rs : List Request) (chunks : List Bytes) (size : ℕ)
      → m.max_message_size + size ≤ m.max_buffer_size
      → All (λ c. length c ≤ size) chunks
      → IsBetween reg m rs (concat chunks)
      → feed_all reg m chunks ≡ (map (received codec) rs, record m { buffer = [] })
  unfolding feed_all
  feed_all-IsBetween reg m rs [] size room small s =
      let (none_left, empty) = IsBetween-end reg m rs s in
      rw none_left (ap (λ b. ([], record m { buffer = b })) empty)
  feed_all-IsBetween reg m rs (c ∷ cs) size room small s =
      let (done, left, b, splits, e, s') =
        feed-IsBetween reg m rs c (concat cs) (omega (arith, s.small, small.0)) s in
      let rest = feed_all-IsBetween reg (record m { buffer = b }) left cs size room small.1 s' in
      rw e (
        rw rest (
          ap (λ t. (t, record m { buffer = [] }))
            (sym (map-append (received codec) done left) ∙ ap (map (received codec)) (sym splits))))

  -- A stream of deliverable frames, cut into chunks anywhere, comes out as its messages, each once
  -- and in order, and leaves the buffer empty, if a message and a chunk fit the buffer together.
  pub feed_all-stream :
      (reg : Registry) (max_message_size max_buffer_size : ℕ) (rs : List Request)
      (chunks : List Bytes) (size : ℕ)
      → All (IsDeliverable reg max_message_size) rs
      → concat chunks ≡ stream codec rs
      → All (λ c. length c ≤ size) chunks
      → max_message_size + size ≤ max_buffer_size
      → feed_all reg (message_buffer max_message_size max_buffer_size) chunks
        ≡ (map (received codec) rs, message_buffer max_message_size max_buffer_size)
  unfolding message_buffer extract_step
  feed_all-stream reg max limit rs chunks size v e small room =
      feed_all-IsBetween reg (message_buffer max limit) rs chunks size room small
        (record { deliverable = v; goes_on = e; small = omega arith; waits = refl })
