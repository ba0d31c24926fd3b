-- ===== src/Network/MessageBuffer/Soundness.antt =====
-- Extraction carves whole messages out of the buffer: in order, without overlap, nothing invented.
use veltix.Exceptions.{Exn}
use veltix.Prelude.{
  ℕ, zero, suc, ◌+◌, ◌≤◌, ◌≡◌, refl, sym, subst, inl, inr, List, [], ◌∷◌, ◌++◌, append_assoc, arith,
  ltb, ◌==◌, Bool-cases, length, take, drop, length-append, take-append-drop, Result, ok, err,
  eq_nat, eq_string, eq_list,
}
use veltix.Prelude.Bytes.{Bytes, from_be, slice}
use veltix.Network.Types.{Registry}
use veltix.Network.Request.{Codec, magic, header_size}
use veltix.Network.Response.{Response}
use veltix.Network.Parser.{default_max_message_size, parse}
use veltix.Network.Wire.{Accepted, parse-Accepted}
use veltix.Network.MessageBuffer.{
  MessageBuffer, resync, Outcome, need_more, resynced, delivered, parse_head, extract_step,
  continue, extract_loop, extract_messages,
}
use veltix.Network.MessageBuffer.Resync.{resync-suffix}

module _ (codec : Codec) where
  -- `b` is junk, a message that the parser reads as the first response, junk, the message of the
  -- second, and so on, then junk, then `rest`.
  abbrev pub Carved : Registry → List (Response codec) → Bytes → Bytes → Type 0
  Carved reg [] b rest = (junk : Bytes) × (b ≡ junk ++ rest)
  Carved reg (r ∷ rs) b rest =
      (junk msg b' : Bytes) × (b ≡ junk ++ (msg ++ b'))
      × Accepted codec reg msg default_max_message_size r
      × Carved reg rs b' rest

  prepend :
      (reg : Registry) (rs : List (Response codec)) (junk b rest : Bytes)
      → Carved reg rs b rest
      → Carved reg rs (junk ++ b) rest
  prepend reg [] junk b rest (j, e) = (junk ++ j, rw e (sym (append_assoc junk j rest)))
  prepend reg (r ∷ rs) junk b rest (j, msg, b', e, a, c) =
      (junk ++ j, msg, b', rw e (sym (append_assoc junk j (msg ++ b'))), a, c)

  -- What one round does with the buffer.
  abbrev Cuts : Registry → Outcome codec → Bytes → Type 0
  Cuts reg need_more b = Unit
  Cuts reg (resynced b') b = (junk : Bytes) × (b ≡ junk ++ b')
  Cuts reg (delivered r b') b =
      (msg : Bytes) × (b ≡ msg ++ b') × Accepted codec reg msg default_max_message_size r

  parse_head-Cuts : (reg : Registry) (b : Bytes) (n : ℕ) → Cuts reg (parse_head codec reg b n) b
  unfolding parse_head
  parse_head-Cuts reg b n = go (parse codec reg (take n b) default_max_message_size) refl
    where
      go :
          (o : Result Exn (Response codec))
          → parse codec reg (take n b) default_max_message_size ≡ o
          → Cuts reg
              (elim o as (λ _. Outcome codec) [
                | ok r ↦ delivered r (drop n b)
                | err e ↦ resynced (resync b)
              ])
              b
      go (ok r) e = (
        take n b,
        sym (take-append-drop n b),
        parse-Accepted codec reg (take n b) default_max_message_size r e,
      )
      go (err x) e = resync-suffix b

  extract_step-Cuts :
      (reg : Registry) (max : ℕ) (b : Bytes) → Cuts reg (extract_step codec reg max b) b
  unfolding extract_step
  extract_step-Cuts reg max b = elim (Bool-cases (ltb (length b) header_size)) [
    | inl e ↦ rw e tt
    | inr e ↦ rw e (elim (Bool-cases (slice 0 2 b == magic)) [
      | inr m ↦ rw m (resync-suffix b)
      | inl m ↦ rw m (elim (Bool-cases (ltb max (header_size + from_be (slice 5 4 b)))) [
        | inl big ↦ rw big (resync-suffix b)
        | inr fits ↦
            rw fits (elim (Bool-cases (ltb (length b) (header_size + from_be (slice 5 4 b)))) [
              | inl short ↦ rw short tt
              | inr full ↦ rw full (parse_head-Cuts reg b (header_size + from_be (slice 5 4 b)))
            ])
      ])
    ])
  ]

  extract_loop-Carved :
      (f : ℕ) (reg : Registry) (max : ℕ) (b : Bytes)
      → let (rs, rest) = extract_loop codec f reg max b in Carved reg rs b rest
  unfolding extract_loop continue
  extract_loop-Carved zero reg max b = ([], refl)
  extract_loop-Carved (suc f) reg max b =
      go (extract_step codec reg max b) (extract_step-Cuts reg max b)
        (extract_loop-Carved f reg max)
    where
      go :
          (o : Outcome codec)
          → Cuts reg o b
          → ((c : Bytes) → let (rs, rest) = extract_loop codec f reg max c in Carved reg rs c rest)
          → let (rs, rest) = continue codec o b (extract_loop codec f reg max) in
            Carved reg rs b rest
      go need_more s k = ([], refl)
      go (resynced b') (junk, e) k =
          let (rs, rest) = extract_loop codec f reg max b' in
          subst (λ c. Carved reg rs c rest) (sym e) (prepend reg rs junk b' rest (k b'))
      go (delivered r b') (msg, e, a) k = ([], msg, b', e, a, k b')

  -- The responses of a call are the messages of disjoint stretches of the buffer, in their order,
  -- each accepted by the parser, and what stays in the buffer is the end of it.
  pub extract_messages-Carved :
      (reg : Registry) (m : MessageBuffer)
      → let (rs, m') = extract_messages codec reg m in Carved reg rs m.buffer m'.buffer
  unfolding extract_messages
  extract_messages-Carved reg m =
      extract_loop-Carved (suc (length m.buffer)) reg m.max_message_size m.buffer

  pub Carved-le :
      (reg : Registry) (rs : List (Response codec)) (b rest : Bytes)
      → Carved reg rs b rest
      → length rest ≤ length b
  Carved-le reg [] b rest (junk, e) = rw e (omega (arith, length-append junk rest))
  Carved-le reg (r ∷ rs) b rest (junk, msg, b', e, a, c) = rw e (
      omega
        (arith, length-append junk (msg ++ b'), length-append msg b', Carved-le reg rs b' rest c))
