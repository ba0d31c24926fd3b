-- ===== src/SocketCore/ClientsManager/ByTag.antt =====
-- Lookup by tag (src/veltix/socket_core/managers/clients_manager.py).
use veltix.Prelude.{
  String, ◌≡◌, sym, ap, ◌∙◌, ◌↔◌, Bool, true, Option, none, some, List, [], ◌∷◌, arith, Key,
  is_some, if_intro, Member, eq_nat, eq_string, eq_list,
}
use veltix.Prelude.Dict.{lookup, values}
use veltix.Server.ClientInfo.{ClientInfo, has_tag, or_none, get_tag}
use veltix.SocketCore.ClientsManager.{
  InfoRef, ClientEntry, ClientsManager, get_all_clients, select, equals, has_value,
  get_clients_by_tag,
}

Member-select :
    (p : ClientEntry → Bool) (es : List ClientEntry) (e : ClientEntry)
    → Member e (select p es)
    → Member e es × (p e ≡ true)
unfolding select
Member-select p [] e = λ m. elim m [ ]
Member-select p (x ∷ es) e =
    if_intro (λ l. Member e l → Member e (x ∷ es) × (p e ≡ true)) (p x) _ _
      (λ fits m. elim m [
        | Member.here same ↦ (Member.here same, ap p same ∙ fits)
        | Member.there n ↦ let (old, wanted) = Member-select p es e n in (Member.there old, wanted)
      ])
      (λ fails m. let (old, wanted) = Member-select p es e m in (Member.there old, wanted))

select-Member :
    (p : ClientEntry → Bool) (es : List ClientEntry) (e : ClientEntry)
    → Member e es
    → p e ≡ true
    → Member e (select p es)
unfolding select
select-Member p [] e m fits = elim m [ ]
select-Member p (x ∷ es) e (Member.here same) fits = rw (ap p (sym same) ∙ fits) (Member.here same)
select-Member p (x ∷ es) e (Member.there m) fits =
    if_intro (λ l. Member e l) (p x) _ _ (λ _. Member.there (select-Member p es e m fits))
      (λ _. select-Member p es e m fits)

module _ (Value : Type 0) ⦃q : Key Value⦄ (infos : InfoRef → ClientInfo Value) where
  -- What the caller asks for: a tag of any value, or a tag of that value
  abbrev pub IsWanted : String → Option Value → ClientEntry → Type 0
  IsWanted tag none e = is_some (lookup tag (infos e.info).tags) ≡ true
  IsWanted tag (some value) e = lookup tag (infos e.info).tags ≡ some (some value)

  equals_iff :
      (value : Value) (o : Option (Option Value))
      → (equals Value value (or_none Value o) ≡ true) ↔ (o ≡ some (some value))
  unfolding equals or_none
  equals_iff value none = ground arith
  equals_iff value (some none) = ground arith
  equals_iff value (some (some v)) = ground (arith, q.eqb_iff v value)

  has_value_iff :
      (tag : String) (value : Value) (e : ClientEntry)
      → (has_value Value infos tag value e ≡ true) ↔ IsWanted tag (some value) e
  unfolding has_value get_tag
  has_value_iff tag value e = equals_iff value (lookup tag (infos e.info).tags)

  -- get_clients_by_tag answers the registered clients that have the tag, with the value if one is
  -- given, as their tags are at the call, and no others.
  pub get_clients_by_tag_iff :
      (tag : String) (value : Option Value) (m : ClientsManager) (e : ClientEntry)
      → Member e (get_clients_by_tag Value infos tag value m)
        ↔ (Member e (get_all_clients m) × IsWanted tag value e)
  unfolding get_clients_by_tag get_all_clients has_tag
  get_clients_by_tag_iff tag none m e =
      (Member-select _ (values m.clients) e, λ r. select-Member _ (values m.clients) e r.0 r.1)
  get_clients_by_tag_iff tag (some value) m e = (
    λ r.
        let (known, fits) = Member-select _ (values m.clients) e r in
        (known, (has_value_iff tag value e).0 fits),
    λ r. select-Member _ (values m.clients) e r.0 ((has_value_iff tag value e).1 r.1),
  )
