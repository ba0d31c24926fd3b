-- ===== src/Network/MessageBuffer/Loop.antt =====
-- The loop of `extract_messages` ends by one of its breaks: the fuel is never used up.
use veltix.Prelude.{
  ℕ, zero, suc, ◌+◌, ◌<◌, ◌≡◌, refl, ap, inl, inr, List, ◌∷◌, arith, ltb, ◌==◌, Bool-cases, length,
  take, drop, length-drop, Result, ok, err, eq_nat, eq_string, eq_list,
}
use veltix.Prelude.Bytes.{Bytes, from_be, slice}
use veltix.Network.Types.{Registry}
use veltix.Network.Request.{Codec, magic, header_size}
use veltix.Network.Response.{Response}
use veltix.Network.Parser.{default_max_message_size, parse}
use veltix.Network.MessageBuffer.{
  MessageBuffer, resync, Outcome, need_more, resynced, delivered, parse_head, extract_step,
  continue, extract_loop, extract_messages,
}
use veltix.Network.MessageBuffer.Resync.{length-resync}
use veltix.Exceptions.{Exn}

module _ (codec : Codec) where
  -- A round that goes on leaves a shorter buffer.
  abbrev pub Shortens : Outcome codec → Bytes → Type 0
  Shortens need_more b = Unit
  Shortens (resynced b') b = length b' < length b
  Shortens (delivered r b') b = length b' < length b

  parse_head-Shortens :
      (reg : Registry) (b : Bytes) (n : ℕ)
      → 0 < length b
      → 0 < n
      → Shortens (parse_head codec reg b n) b
  unfolding parse_head
  parse_head-Shortens reg b n h p = go (parse codec reg (take n b) default_max_message_size)
    where
      go :
          (r : Result Exn (Response codec))
          → Shortens
              (elim r as (λ _. Outcome codec) [
                | ok r ↦ delivered r (drop n b)
                | err e ↦ resynced (resync b)
              ])
              b
      go (ok r) = omega (arith, length-drop n b)
      go (err e) = length-resync b h

  pub extract_step-Shortens :
      (reg : Registry) (max : ℕ) (b : Bytes) → Shortens (extract_step codec reg max b) b
  unfolding extract_step
  extract_step-Shortens reg max b = elim (Bool-cases (ltb (length b) header_size)) [
    | inl e ↦ rw e tt
    | inr e ↦ rw e (elim (Bool-cases (slice 0 2 b == magic)) [
      | inr m ↦ rw m (length-resync b (ground arith))
      | inl m ↦ rw m (elim (Bool-cases (ltb max (header_size + from_be (slice 5 4 b)))) [
        | inl big ↦ rw big (length-resync b (ground arith))
        | inr fits ↦
            rw fits (elim (Bool-cases (ltb (length b) (header_size + from_be (slice 5 4 b)))) [
              | inl short ↦ rw short tt
              | inr full ↦ rw full (
                  parse_head-Shortens reg b (header_size + from_be (slice 5 4 b)) (ground arith)
                    (omega arith))
            ])
      ])
    ])
  ]

  -- The buffer is one at which the loop breaks.
  abbrev pub IsDrained : Registry → ℕ → Bytes → Type 0
  IsDrained reg max b = extract_step codec reg max b ≡ need_more

  pub extract_loop-IsDrained :
      (f : ℕ) (reg : Registry) (max : ℕ) (b : Bytes)
      → length b < f
      → IsDrained reg max (extract_loop codec f reg max b).1
  unfolding extract_loop continue
  extract_loop-IsDrained zero reg max b h = absurd (omega arith)
  extract_loop-IsDrained (suc f) reg max b h =
      go (extract_step codec reg max b) refl (extract_step-Shortens reg max b)
        (extract_loop-IsDrained f reg max)
    where
      go :
          (o : Outcome codec)
          → extract_step codec reg max b ≡ o
          → Shortens o b
          → ((c : Bytes) → length c < f → IsDrained reg max (extract_loop codec f reg max c).1)
          → IsDrained reg max (continue codec o b (extract_loop codec f reg max)).1
      go need_more e s k = e
      go (resynced b') e s k = k b' (omega arith)
      go (delivered r b') e s k = k b' (omega arith)

  continue-eq :
      (o : Outcome codec) (b : Bytes) (j k : Bytes → List (Response codec) × Bytes)
      → Shortens o b
      → ((c : Bytes) → length c < length b → j c ≡ k c)
      → continue codec o b j ≡ continue codec o b k
  unfolding continue
  continue-eq need_more b j k s h = refl
  continue-eq (resynced b') b j k s h = h b' s
  continue-eq (delivered r b') b j k s h = ap (λ p. (r ∷ p.0, p.1)) (h b' s)

  -- More fuel changes nothing.
  pub extract_loop-fuel :
      (f g : ℕ) (reg : Registry) (max : ℕ) (b : Bytes)
      → length b < f
      → length b < g
      → extract_loop codec f reg max b ≡ extract_loop codec g reg max b
  unfolding extract_loop
  extract_loop-fuel zero g reg max b h k = absurd (omega arith)
  extract_loop-fuel (suc f) zero reg max b h k = absurd (omega arith)
  extract_loop-fuel (suc f) (suc g) reg max b h k =
      continue-eq (extract_step codec reg max b) b (extract_loop codec f reg max)
        (extract_loop codec g reg max) (extract_step-Shortens reg max b)
        (λ c lt. extract_loop-fuel f g reg max c (omega arith) (omega arith))

  -- The loop with the fuel that `extract_messages` gives it.
  unfoldable pub extract : Registry → ℕ → Bytes → List (Response codec) × Bytes
  extract reg max b = extract_loop codec (suc (length b)) reg max b

  -- The equation of `while True`, without fuel.
  pub extract-eq :
      (reg : Registry) (max : ℕ) (b : Bytes)
      → extract reg max b ≡ continue codec (extract_step codec reg max b) b (extract reg max)
  unfolding extract extract_loop
  extract-eq reg max b =
      continue-eq (extract_step codec reg max b) b (extract_loop codec (length b) reg max)
        (λ c. extract_loop codec (suc (length c)) reg max c) (extract_step-Shortens reg max b)
        (λ c lt. extract_loop-fuel (length b) (suc (length c)) reg max c lt (omega arith))

  -- `extract_messages` returns, on every buffer, and what it leaves is a buffer at which the loop
  -- breaks: too short for a header, or for the message that a valid header announces.
  pub extract_messages-IsDrained :
      (reg : Registry) (m : MessageBuffer)
      → IsDrained reg m.max_message_size (extract_messages codec reg m).1.buffer
  unfolding extract_messages
  extract_messages-IsDrained reg m =
      extract_loop-IsDrained (suc (length m.buffer)) reg m.max_message_size m.buffer (omega arith)
