-- ===== src/Handler/Rules/Correlation.antt =====
-- `send_and_wait`: between `register` and `wait`, the first message with the identifier that is no
-- PING is the response.
use native.Mathlib.Decide.{ℕ_discrete}
use veltix.Prelude.{
  ℕ, ◌≡◌, refl, sym, ap, ◌∙◌, ◌≢◌, inl, inr, Option, none, some, List, [], ◌∷◌, Bool-cases, eq_nat,
  eq_string, eq_list,
}
use veltix.Prelude.Dict.{lookup, lookup-insert_self, lookup-insert_ne, lookup-erase_self}
use veltix.Network.Request.{Codec}
use veltix.Network.Response.{Response}
use veltix.Network.Sender.{Transport}
use veltix.Handler.RequestHandler.{register, unregister, take_from, wait}
use veltix.Handler.Rules.{Handled, answers, blocked, handle}
use veltix.Handler.Rules.Dispatch.{Handler, Context, handle-documented}
use veltix.Handler.Rules.Pending.{
  go_on, handle_all, answers_request, first_answer, other-pending, answer-fills, blocked-full,
}

module _ (codec : Codec) (net : Transport) where
  -- `id` is the only pending request.
  record IsSole (id : ℕ) (h : Handler codec net) : Type 0 where
    others : (j : ℕ) → j ≢ id → lookup j h.pending_requests ≡ none

  IsSole-handle :
      (id : ℕ) (c : Context codec net) (h : Handler codec net)
      → IsSole id h
      → IsSole id (handle codec net c h).1
  IsSole-handle id c h s = record {
    others =
        λ j ne. let e = s.others j ne in other-pending codec net j c h (inr (λ f. cc (e, f))) ∙ e;
  }

  -- A queue that is full stays as it is.
  handle_all-full :
      (id : ℕ) (cs : List (Context codec net)) (h : Handler codec net) (x : Response codec)
      → lookup id h.pending_requests ≡ some (some x)
      → lookup id (handle_all codec net cs h).pending_requests ≡ some (some x)
  unfolding handle_all
  handle_all-full id [] h x e = e
  handle_all-full id (c ∷ cs) h x e =
      let kept = other-pending codec net id c h (inr (λ f. cc (e, f))) ∙ e in
      go (handle codec net c h).0 (handle_all-full id cs (handle codec net c h).1 x kept) kept
    where
      go :
          (r : Handled codec net)
          → lookup id (handle_all codec net cs (handle codec net c h).1).pending_requests
            ≡ some (some x)
          → lookup id (handle codec net c h).1.pending_requests ≡ some (some x)
          → lookup id
              (go_on codec net r
                (handle_all codec net cs (handle codec net c h).1)
                (handle codec net c h).1).pending_requests
            ≡ some (some x)
      go (answers b) after now = after
      go blocked after now = now

  handle_all-answer :
      (id : ℕ) (cs : List (Context codec net)) (h : Handler codec net)
      → IsSole id h
      → lookup id h.pending_requests ≡ some none
      → lookup id (handle_all codec net cs h).pending_requests ≡ some (first_answer codec net id cs)
  unfolding handle_all first_answer
  handle_all-answer id [] h s e = e
  handle_all-answer id (c ∷ cs) h s e = elim (Bool-cases (answers_request codec net id c)) [
    | inl a ↦
        let (r, full) = answer-fills codec net id c h a e in
        rw a (rw r (handle_all-full id cs (handle codec net c h).1 c.response full))
    | inr a ↦
        let kept = other-pending codec net id c h (inl a) ∙ e in
        let ih = handle_all-answer id cs (handle codec net c h).1 (IsSole-handle id c h s) kept in
        rw a (go (handle codec net c h).0 refl ih)
  ]
    where
      free : (handle codec net c h).0 ≢ blocked
      free b =
          let (x, full) =
            blocked-full codec net c h
              (ap (λ p. p.0) (sym (handle-documented codec net c h)) ∙ b) in
          elim (ℕ_discrete c.response.request_id id) [
            | yes same ↦ cc (full, e, ap (λ k. lookup k h.pending_requests) same)
            | no ne ↦ cc (full, s.others c.response.request_id ne)
          ]

      go :
          (r : Handled codec net)
          → (handle codec net c h).0 ≡ r
          → lookup id (handle_all codec net cs (handle codec net c h).1).pending_requests
            ≡ some (first_answer codec net id cs)
          → lookup id
              (go_on codec net r
                (handle_all codec net cs (handle codec net c h).1)
                (handle codec net c h).1).pending_requests
            ≡ some (first_answer codec net id cs)
      go (answers b) f ih = ih
      go blocked f ih = absurd (free f)

  wait-eq :
      (id : ℕ) (h : Handler codec net) (o : Option (Response codec))
      → lookup id h.pending_requests ≡ some o
      → let (r, h') = wait codec net id h in (r ≡ o) × (lookup id h'.pending_requests ≡ none)
  unfolding wait take_from unregister
  wait-eq id h none e = rw e (refl, lookup-erase_self id h.pending_requests)
  wait-eq id h (some x) e = rw e (refl, lookup-erase_self id h.pending_requests)

  -- With no other request pending: after `register`, whatever messages are handled, `wait` returns
  -- the first that carries the identifier and is no PING, of any type and from any sender, and None
  -- if there is none; and the request is no longer pending.
  pub wait-first_answer :
      (id : ℕ) (cs : List (Context codec net)) (h : Handler codec net)
      → h.pending_requests ≡ []
      → let (r, h') = wait codec net id (handle_all codec net cs (register codec net id h)) in
        (r ≡ first_answer codec net id cs) × (lookup id h'.pending_requests ≡ none)
  unfolding register lookup
  wait-first_answer id cs h empty =
      let h0 = register codec net id h in
      let sole : IsSole id h0 = record {
        others = λ j ne.
            lookup-insert_ne id j none h.pending_requests (λ p. ne (sym p)) ∙ ap (lookup j) empty;
      } in
      wait-eq id (handle_all codec net cs h0) (first_answer codec net id cs)
        (handle_all-answer id cs h0 sole (lookup-insert_self id none h.pending_requests))
