-- ===== src/Network/IdAllocator.antt =====
-- Request identifiers (src/veltix/network/id_allocator.py). A lock makes each call one step.
pub mod Window
use veltix.Exceptions.{Exn, zero_division}
use veltix.Prelude.{
  ℕ, ◌+◌, ◌*◌, ◌%◌, nat_eq, if◌then◌else◌, Result, ok, err, eq_nat, eq_string, eq_list,
}

pub record IdAllocator : Type 0 where
  pub max_ids : ℕ
  pub counter : ℕ

-- IDAllocator.__init__
unfoldable pub id_allocator : ℕ → IdAllocator
id_allocator max_ids = record { max_ids = max_ids; counter = 0 }

-- IDAllocator.allocate: a window of 0 makes `%` raise.
unfoldable pub allocate : IdAllocator → Result Exn (ℕ × IdAllocator)
allocate a =
    if nat_eq a.max_ids 0
    then err zero_division
    else ok (a.counter, record a { counter = (a.counter + 1) % a.max_ids })

pub record ClientAllocator : Type 0 where
  pub range_size : ℕ
  pub index : ℕ

-- ClientAllocator.__init__
unfoldable pub client_allocator : ℕ → ClientAllocator
client_allocator range_size = record { range_size = range_size; index = 0 }

-- ClientAllocator.register
unfoldable pub register : ClientAllocator → ℕ × ClientAllocator
register a = (a.index, record a { index = a.index + 1 })

-- ClientAllocator.global_id
unfoldable pub global_id : ClientAllocator → ℕ → ℕ → ℕ
global_id a client_index wire_id = client_index * a.range_size + wire_id
