-- ===== src/Server/ClientInfo/Tags.antt =====
-- The tags as a finite map (src/veltix/server/client_info.py).
use veltix.Prelude.{
  String, ◌≡◌, refl, ap, ◌∙◌, subst, fun_ext, inl, inr, Bool, true, false, not, Option, none, some,
  List, [], ◌∷◌, arith, if◌then◌else◌, ◌==◌, eq_string, Option-cases, if_intro, eq_nat, eq_list,
}
use veltix.Prelude.Dict.{
  Dict, lookup, contains, insert, lookup-insert, lookup-erase, not_contains→none,
}
use veltix.Internal.Events.{ClientEvent}
use veltix.Server.ClientInfo.{ClientInfo, emits, add_tag, remove_tag, clear_tags}

module _ (Value : Type 0) where
  -- The calls that change the tags
  pub data TagCall : Type 0 where
    adding : String → Option Value → TagCall
    removing : String → TagCall
    clearing : TagCall

  unfoldable pub call : TagCall → ClientInfo Value → ClientInfo Value
  call (adding name value) c = (add_tag Value name value c).1
  call (removing name) c = (remove_tag Value name c).1
  call clearing c = clear_tags Value c

  abbrev pub calls : List TagCall → ClientInfo Value → ClientInfo Value
  calls [] c = c
  calls (t ∷ ts) c = calls ts (call t c)

  -- A finite map of tags as a function
  abbrev pub Tags : Type 0
  Tags = String → Option (Option Value)

  abbrev first_of : Option (Option Value) → Option Value → Option (Option Value)
  first_of none value = some value
  first_of (some old) value = some old

  -- What a call is to do to the map: the first value of a tag stays until the tag is removed.
  unfoldable pub expected : TagCall → Tags → Tags
  expected (adding name value) m j = if name == j then first_of (m j) value else m j
  expected (removing name) m j = if name == j then none else m j
  expected clearing m j = none

  abbrev pub expected_all : List TagCall → Tags → Tags
  expected_all [] m = m
  expected_all (t ∷ ts) m = expected_all ts (expected t m)

  emits-tags : (e : ClientEvent) (c : ClientInfo Value) → (emits Value e c).tags ≡ c.tags
  emits-tags e c =
      if_intro (λ (d : ClientInfo Value). d.tags ≡ c.tags) c.has_bus _ _ (λ h. refl) (λ h. refl)

  first_of-known :
      (name j : String) (value : Option Value) (d : Dict String (Option Value))
      → contains name d ≡ true
      → lookup j d ≡ (if name == j then first_of (lookup j d) value else lookup j d)
  first_of-known name j value d known =
      if_intro (λ o. lookup j d ≡ o) (name == j) _ _
        (λ same.
          let e : name ≡ j = (eq_string.eqb_iff name j).0 same in
          let there = subst (λ k. contains k d ≡ true) e known in
          elim (Option-cases (lookup j d)) [
            | inl gone ↦ absurd (ground arith)
            | inr (old, found) ↦ rw found refl
          ])
        (λ other. refl)

  missing :
      (name j : String) (d : Dict String (Option Value))
      → contains name d ≡ false
      → (name == j) ≡ true
      → lookup j d ≡ none
  missing name j d new same =
      subst (λ k. lookup k d ≡ none) ((eq_string.eqb_iff name j).0 same)
        (not_contains→none name d new)

  first_of-new :
      (name j : String) (value : Option Value) (d : Dict String (Option Value))
      → contains name d ≡ false
      → lookup j (insert name value d)
        ≡ (if name == j then first_of (lookup j d) value else lookup j d)
  first_of-new name j value d new =
      lookup-insert name j value d
      ∙ if_intro (λ o. o ≡ (if name == j then first_of (lookup j d) value else lookup j d))
          (name == j) _ _ (λ same. rw (same, missing name j d new same) refl)
          (λ other. rw other refl)

  call-lookup :
      (t : TagCall) (c : ClientInfo Value) (j : String)
      → lookup j (call t c).tags ≡ expected t (λ k. lookup k c.tags) j
  unfolding call expected add_tag remove_tag clear_tags lookup
  call-lookup (adding name value) c j =
      if_intro
        (λ (out : Bool × ClientInfo Value).
          lookup j out.1.tags ≡ expected (adding name value) (λ k. lookup k c.tags) j)
        (contains name c.tags) _ _ (λ known. first_of-known name j value c.tags known)
        (λ new.
          ap (lookup j) (emits-tags ClientEvent.tag_added _) ∙ first_of-new name j value c.tags new)
  call-lookup (removing name) c j =
      if_intro
        (λ (out : Bool × ClientInfo Value).
          lookup j out.1.tags ≡ expected (removing name) (λ k. lookup k c.tags) j)
        (not (contains name c.tags)) _ _
        (λ unknown.
          if_intro (λ o. lookup j c.tags ≡ o) (name == j) _ _
            (λ same. missing name j c.tags (ground arith) same) (λ other. refl))
        (λ known. ap (lookup j) (emits-tags ClientEvent.tag_removed _) ∙ lookup-erase name j c.tags)
  call-lookup clearing c j =
      ap (lookup j) (emits-tags ClientEvent.tag_cleared (record c { tags = [] }))

  -- After any calls of add_tag, remove_tag and clear_tags, the tags are the finite map that the
  -- same calls make on a map: adding a tag that is there changes nothing, and removing or
  -- clearing takes away.
  pub calls-expected :
      (ts : List TagCall) (c : ClientInfo Value) (j : String)
      → lookup j (calls ts c).tags ≡ expected_all ts (λ k. lookup k c.tags) j
  calls-expected [] c j = refl
  calls-expected (t ∷ ts) c j =
      calls-expected ts (call t c) j ∙ ap (λ m. expected_all ts m j) (fun_ext (call-lookup t c))
