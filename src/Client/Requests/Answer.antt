-- ===== src/Client/Requests/Answer.antt =====
-- What send_and_wait answers (src/veltix/client/client.py).
use veltix.Exceptions.{Exn}
use veltix.Prelude.{
  ℕ, ◌≡◌, refl, sym, ap, ◌∙◌, subst, Bool, true, false, Option, none, some, List, [], if◌then◌else◌,
  Result, ok, eq_nat, eq_string, eq_list,
}
use veltix.Prelude.Dict.{lookup, lookup-erase_self}
use veltix.Network.Request.{Codec, Request}
use veltix.Network.Response.{Response}
use veltix.Network.Sender.{Transport, Sender, send}
use veltix.Handler.RequestHandler.{register, unregister}
use veltix.Handler.Rules.Dispatch.{Context}
use veltix.Handler.Rules.Pending.{first_answer}
use veltix.Handler.Rules.Correlation.{wait-first_answer}
use veltix.Client.State.{Client}
use veltix.Client.Requests.{
  with_sender, identified_as, identified, awaited, registered_and_sent, send_and_wait,
}

module _ (codec : Codec) (net : Transport) where
  identified-some :
      (r : Request) (id : ℕ) (c : Client codec net)
      → r.request_id ≡ some id
      → identified codec net r c ≡ ok (id, r, c)
  unfolding identified identified_as
  identified-some r id c has_id = ap (λ o. identified_as codec net o r c) has_id

  -- What is claimed of an outcome
  abbrev pub IsAnswer :
      ℕ
      → List (Context codec net)
      → Bool
      → Result Exn (Option (Response codec)) × Client codec net
      → Type 0
  IsAnswer id cs sent out =
      (out.0 ≡ ok (if sent then first_answer codec net id cs else none))
      × (lookup id out.1.request_handler.pending_requests ≡ none)

  pub awaited-IsAnswer :
      (r : Request) (id : ℕ) (cs : List (Context codec net)) (c : Client codec net) (sent : Bool)
      (s : Sender codec net)
      → c.request_handler.pending_requests ≡ []
      → IsAnswer id cs sent (
          awaited codec net id cs
            (ok (sent, r, s))
            (record c { request_handler = register codec net id c.request_handler }))
  unfolding awaited register unregister
  awaited-IsAnswer r id cs c true s empty =
      let (got, gone) =
        wait-first_answer codec net id cs (with_sender codec net s c).request_handler empty in
      (ap ok got, gone)
  awaited-IsAnswer r id cs c false s empty = (refl, lookup-erase_self id _)

  -- For a request with an identifier, sent by a client with no other request pending, whose send
  -- answers: if it answers True, send_and_wait returns the first message, of those handled before
  -- the time is up, that carries the identifier and is no PING, or None if there is none, and if
  -- it answers False, None. The request is not pending afterwards in both cases.
  pub send_and_wait-answers :
      (r r' : Request) (id : ℕ) (cs : List (Context codec net)) (c : Client codec net) (sent : Bool)
      (s : Sender codec net)
      → r.request_id ≡ some id
      → c.request_handler.pending_requests ≡ []
      → send codec net r none c.sender ≡ ok (sent, r', s)
      → IsAnswer id cs sent (send_and_wait codec net r cs c)
  unfolding send_and_wait registered_and_sent
  send_and_wait-answers r r' id cs c sent s has_id empty e =
      let registered : Client codec net = record c {
        request_handler = register codec net id c.request_handler;
      } in
      let steps : send_and_wait codec net r cs c
          ≡ awaited codec net id cs (ok (sent, r', s)) registered =
        ap (λ i. registered_and_sent codec net cs i c) (identified-some r id c has_id)
        ∙ ap (λ x. awaited codec net id cs x registered) e in
      subst (λ o. IsAnswer id cs sent o) (sym steps) (awaited-IsAnswer r' id cs c sent s empty)
