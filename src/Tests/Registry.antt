-- ===== src/Tests/Registry.antt =====
-- The client registry and tags at concrete inputs.
use veltix.Prelude.{
  ℕ, zero, suc, ◌+◌, ◌≡◌, ◌↔◌, true, none, some, [], ◌∷◌, Member, eq_nat, eq_string, eq_list,
}
use veltix.Prelude.Dict.{lookup}
use veltix.Prelude.Text.{codes}
use veltix.Network.MessageBuffer.{MessageBuffer}
use veltix.Server.ClientInfo.{ClientInfo}
use veltix.Server.ClientInfo.Tags.{adding, removing, calls, expected_all, calls-expected}
use veltix.SocketCore.ClientsManager.{
  InfoRef, ClientsManager, clients_manager, get_all_clients, get_clients_by_tag,
}
use veltix.SocketCore.ClientsManager.Registered.{
  registering, dropping, registry_calls, IsRegistry, IsIncreasing, clients_manager-IsRegistry,
  registry_calls-IsIncreasing,
}
use veltix.SocketCore.ClientsManager.ByTag.{IsWanted, get_clients_by_tag_iff}

-- Client 1 is in room 4, client 2 in none.
abbrev pub infos : InfoRef → ClientInfo ℕ
infos n = record {
  id = n;
  conn = n + 100;
  addr = (codes "127.0.0.1", 54321);
  thread_id = 0;
  handshake_done = true;
  id_offset = 0;
  tags = elim n [
    | zero ↦ []
    | suc zero ↦ ("room", some 4) ∷ []
    | suc (suc k) ↦ ("muted", none) ∷ []
  ];
  has_bus = true;
  trace = [];
}

abbrev pub empty_buffer : MessageBuffer
empty_buffer = record { buffer = []; max_message_size = 1024; max_buffer_size = 4096 }

abbrev pub manager : ClientsManager
manager = record {
  max_message_size = 1024;
  clients =
      (1, record { id = 1; info = 1; buffer = empty_buffer })
      ∷ (3, record { id = 3; info = 2; buffer = empty_buffer })
      ∷ [];
  id_count = 5;
}

registry_calls-IsIncreasing_example :
    IsIncreasing
      (clients_manager (some 0)).id_count
      (registry_calls
        (registering 1 ∷ registering 2 ∷ dropping 2 ∷ registering 3 ∷ [])
        (clients_manager (some 0))).0
    × IsRegistry
        (registry_calls
          (registering 1 ∷ registering 2 ∷ dropping 2 ∷ registering 3 ∷ [])
          (clients_manager (some 0))).1
registry_calls-IsIncreasing_example =
    registry_calls-IsIncreasing (registering 1 ∷ registering 2 ∷ dropping 2 ∷ registering 3 ∷ [])
      (clients_manager (some 0)) (clients_manager-IsRegistry (some 0))

get_clients_by_tag_iff_example :
    Member
      (record { id = 1; info = 1; buffer = empty_buffer })
      (get_clients_by_tag ℕ infos "room" (some 4) manager)
    ↔ (Member (record { id = 1; info = 1; buffer = empty_buffer }) (get_all_clients manager)
        × IsWanted ℕ infos "room" (some 4) (record { id = 1; info = 1; buffer = empty_buffer }))
get_clients_by_tag_iff_example =
    get_clients_by_tag_iff ℕ infos "room" (some 4) manager
      (record { id = 1; info = 1; buffer = empty_buffer })

calls-expected_example :
    lookup "room" (calls ℕ (adding "room" (some 5) ∷ removing "room" ∷ []) (infos 1)).tags
    ≡ expected_all ℕ
        (adding "room" (some 5) ∷ removing "room" ∷ [])
        (λ k. lookup k (infos 1).tags)
        "room"
calls-expected_example =
    calls-expected ℕ (adding "room" (some 5) ∷ removing "room" ∷ []) (infos 1) "room"
