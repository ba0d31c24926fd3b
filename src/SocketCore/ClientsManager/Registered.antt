-- ===== src/SocketCore/ClientsManager/Registered.antt =====
-- Registration and removal (src/veltix/socket_core/managers/clients_manager.py).
use veltix.Prelude.{
  ℕ, ◌+◌, ◌≤◌, ◌<◌, ◌≡◌, refl, sym, ap, ◌∙◌, ◌≢◌, inl, inr, Option, none, some, List, [], ◌∷◌, ◌++◌,
  arith, nat_eq, Option-cases, if_intro, eq_nat, eq_string, eq_list,
}
use veltix.Prelude.Dict.{
  lookup, lookup-insert, lookup-insert_self, lookup-insert_ne, lookup-erase, length-insert_new,
}
use veltix.SocketCore.ClientsManager.{
  InfoRef, ClientEntry, ClientsManager, clients_manager, add_client, remove_client, get_client,
  count,
}
use veltix.Network.MessageBuffer.{message_buffer}

-- The calls that change the registry
pub data RegistryCall : Type 0 where
  registering : InfoRef → RegistryCall
  dropping : ℕ → RegistryCall

-- The identifier that a call hands out, and the registry after it
unfoldable pub registry_call : RegistryCall → ClientsManager → List ℕ × ClientsManager
registry_call (registering info) m = let (id, m') = add_client info m in (id ∷ [], m')
registry_call (dropping id) m = ([], (remove_client id m).1)

-- A run of calls, with the identifiers that it hands out, in order
unfoldable pub registry_calls : List RegistryCall → ClientsManager → List ℕ × ClientsManager
registry_calls [] m = ([], m)
registry_calls (c ∷ cs) m =
    let (ids, m') = registry_call c m in
    let (rest, m'') = registry_calls cs m' in (ids ++ rest, m'')

-- Every key of the registry has been handed out, and is the identifier of its entry.
abbrev pub IsRegistry : ClientsManager → Type 0
IsRegistry m =
    (id : ℕ) (e : ClientEntry) → lookup id m.clients ≡ some e → (e.id ≡ id) × (id ≤ m.id_count)

-- Increasing, from above `n` on
abbrev pub IsIncreasing : ℕ → List ℕ → Type 0
IsIncreasing n [] = Unit
IsIncreasing n (i ∷ is) = (n < i) × IsIncreasing i is

-- The next identifier is free.
next-free : (m : ClientsManager) → IsRegistry m → lookup (m.id_count + 1) m.clients ≡ none
next-free m h = elim (Option-cases (lookup (m.id_count + 1) m.clients)) [
  | inl free ↦ free
  | inr (e, found) ↦ let (own, below) = h (m.id_count + 1) e found in absurd (omega arith)
]

abbrev id_of : ℕ → Option ClientEntry → ℕ
id_of n none = n
id_of n (some e) = e.id

pub clients_manager-IsRegistry : (size : Option ℕ) → IsRegistry (clients_manager size)
unfolding clients_manager lookup
clients_manager-IsRegistry size id e found = absurd (ground arith)

registry_call-IsRegistry :
    (c : RegistryCall) (m : ClientsManager) → IsRegistry m → IsRegistry (registry_call c m).1
unfolding registry_call add_client remove_client
registry_call-IsRegistry (registering info) m h id e found =
    if_intro (λ o. o ≡ some e → (e.id ≡ id) × (id ≤ m.id_count + 1)) (nat_eq (m.id_count + 1) id) _
      _
      (λ same q.
        let same_id : e.id ≡ m.id_count + 1 = ap (id_of 0) (sym q) in (ground arith, ground arith))
      (λ other q. let (own, below) = h id e q in (own, omega arith))
      (sym (lookup-insert (m.id_count + 1) id _ m.clients) ∙ found)
registry_call-IsRegistry (dropping i) m h id e found =
    if_intro (λ o. o ≡ some e → (e.id ≡ id) × (id ≤ m.id_count)) (nat_eq i id) _ _
      (λ same q. absurd (ground arith)) (λ other q. h id e q)
      (sym (lookup-erase i id m.clients) ∙ found)

-- In a registry whose keys have been handed out, add_client hands out an identifier that no
-- client has, under which the new entry is found, with an empty buffer; it changes no other
-- entry and the count grows by one.
pub add_client-fresh :
    (info : InfoRef) (m : ClientsManager)
    → IsRegistry m
    → (get_client (add_client info m).0 m ≡ none)
      × ((e : ClientEntry) × (get_client (add_client info m).0 (add_client info m).1 ≡ some e)
          × (e.info ≡ info)
          × (e.buffer.buffer ≡ []))
      × ((j : ℕ) → (add_client info m).0 ≢ j → get_client j (add_client info m).1 ≡ get_client j m)
      × (count (add_client info m).1 ≡ count m + 1)
unfolding add_client get_client count message_buffer
add_client-fresh info m h = (
  next-free m h,
  (_, lookup-insert_self (m.id_count + 1) _ m.clients, refl, refl),
  (λ j other. lookup-insert_ne (m.id_count + 1) j _ m.clients other),
  length-insert_new (m.id_count + 1) _ m.clients (next-free m h),
)

-- Over any run of add_client and remove_client, the identifiers handed out are increasing, so
-- that none is used twice, all are above the count of the start, and the keys of the registry
-- stay identifiers that have been handed out.
pub registry_calls-IsIncreasing :
    (cs : List RegistryCall) (m : ClientsManager)
    → IsRegistry m
    → IsIncreasing m.id_count (registry_calls cs m).0 × IsRegistry (registry_calls cs m).1
unfolding registry_calls registry_call add_client remove_client
registry_calls-IsIncreasing [] m h = (tt, h)
registry_calls-IsIncreasing (registering info ∷ cs) m h =
    let (up, kept) =
      registry_calls-IsIncreasing cs (registry_call (registering info) m).1
        (registry_call-IsRegistry (registering info) m h) in
    ((omega arith, up), kept)
registry_calls-IsIncreasing (dropping id ∷ cs) m h =
    registry_calls-IsIncreasing cs (registry_call (dropping id) m).1
      (registry_call-IsRegistry (dropping id) m h)
