-- ===== src/Tests/Types.antt =====
-- Message types and identifiers at concrete inputs.
use veltix.Exceptions.{Exn}
use veltix.Prelude.{
  ℕ, ◌<◌, ◌≡◌, refl, false, none, [], ◌∷◌, ◌++◌, arith, All, Result, ok, eq_nat, eq_string, eq_list,
}
use veltix.Prelude.Dict.{lookup, insert}
use veltix.Prelude.Text.{codes}
use veltix.Network.Types.{
  MessageType, Registry, first_free, next_code, name_first, number, name_or_default, checked,
  auto_allocated, construct,
}
use veltix.Network.Types.Registry.{IsRegistry, construct-IsRegistry, Outcome, construct-Outcome}
use veltix.Network.IdAllocator.{IdAllocator, allocate}
use veltix.Network.IdAllocator.Window.{
  allocate_many, IsDistinct, allocate_many-IsDistinct, global_id-injective,
}
use veltix.Tests.Samples.{chat_type, registry}

abbrev auto_chat : Result Exn MessageType × Registry
auto_chat = construct (name_first (codes "chat")) none none false registry

-- 200 is taken, so the name gets 201.
auto_chat-code : auto_chat ≡ (
  ok (record { code = 201; name = codes "chat"; description = none }),
  registry ++ ((201, record { code = 201; name = codes "chat"; description = none }) ∷ []),
)
unfolding construct auto_allocated checked next_code first_free veltix.Network.Types.register lookup
    insert name_or_default
auto_chat-code = refl

construct-Outcome_example : Outcome registry false auto_chat
construct-Outcome_example = construct-Outcome (name_first (codes "chat")) none none false registry

entries-IsRegistry : IsRegistry ((200, chat_type) ∷ [])
unfolding lookup
entries-IsRegistry = record { own_code = λ c t h. ground arith; in_range = λ c t h. ground arith }

construct-IsRegistry_example :
    IsRegistry (construct (number 70000) none none false ((200, chat_type) ∷ [])).1
construct-IsRegistry_example =
    construct-IsRegistry (number 70000) none none false ((200, chat_type) ∷ []) entries-IsRegistry

abbrev near_end : IdAllocator
near_end = record { max_ids = 4; counter = 2 }

near_end_ids :
    allocate_many 4 near_end ≡ ok (2 ∷ 3 ∷ 0 ∷ 1 ∷ [], record { max_ids = 4; counter = 2 })
unfolding allocate allocate_many
near_end_ids = refl

allocate_many-IsDistinct_example :
    IsDistinct (2 ∷ 3 ∷ 0 ∷ 1 ∷ []) × All (λ x. x < 4) (2 ∷ 3 ∷ 0 ∷ 1 ∷ [])
allocate_many-IsDistinct_example =
    allocate_many-IsDistinct 4 near_end (record { below = omega arith }) (omega arith)
      (2 ∷ 3 ∷ 0 ∷ 1 ∷ []) (record { max_ids = 4; counter = 2 }) near_end_ids

global_id-injective_example : (◌≡◌ {A = ℕ} 3 3) × (◌≡◌ {A = ℕ} 17 17)
global_id-injective_example =
    global_id-injective (record { range_size = 30000; index = 5 }) 3 3 17 17 (omega arith)
      (omega arith) refl
