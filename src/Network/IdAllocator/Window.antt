-- ===== src/Network/IdAllocator/Window.antt =====
-- A window of consecutive allocations has no identifier twice, and every identifier is in range.
use veltix.Exceptions.{Exn}
use veltix.Prelude.{
  ℕ, zero, suc, ◌+◌, ◌%◌, ◌≤◌, ◌<◌, ◌≡◌, refl, ◌≢◌, inl, inr, true, List, [], ◌∷◌, arith, ltb,
  if◌then◌else◌, Bool-cases, All, Result, ok, ◌>>=◌, eq_nat, eq_string, eq_list,
}
use veltix.Network.IdAllocator.{IdAllocator, allocate, ClientAllocator, global_id}

pub record IsAllocator (a : IdAllocator) : Type 0 where
  pub below : a.counter < a.max_ids

-- The identifiers of the next `n` allocations, in order, and the allocator after them.
unfoldable pub allocate_many : ℕ → IdAllocator → Result Exn (List ℕ × IdAllocator)
allocate_many zero a = ok ([], a)
allocate_many (suc n) a = do
  (id, a') ← allocate a
  (ids, a'') ← allocate_many n a'
  ok (id ∷ ids, a'')

-- `n` consecutive identifiers from `c`, in a window of `m`.
unfoldable pub wrapped : ℕ → ℕ → ℕ → List ℕ
wrapped zero c m = []
wrapped (suc n) c m = c ∷ wrapped n (if ltb (c + 1) m then c + 1 else 0) m

pub next_counter : (c m : ℕ) → c < m → (c + 1) % m ≡ (if ltb (c + 1) m then c + 1 else 0)
next_counter c m h = grind arith

allocate-eq :
    (a : IdAllocator)
    → IsAllocator a
    → allocate a
      ≡ ok (
        a.counter,
        record a { counter = if ltb (a.counter + 1) a.max_ids then a.counter + 1 else 0 },
      )
unfolding allocate
allocate-eq a v = ground (arith, next_counter a.counter a.max_ids v.below)

-- From a counter in the window, allocation never raises, gives the consecutive identifiers with
-- wrap-around, and leaves the counter in the window.
pub allocate_many_lem :
    (n : ℕ) (a : IdAllocator)
    → IsAllocator a
    → (a' : IdAllocator) × (allocate_many n a ≡ ok (wrapped n a.counter a.max_ids, a'))
      × IsAllocator a'
unfolding allocate_many wrapped
allocate_many_lem zero a v = (a, refl, v)
allocate_many_lem (suc n) a v =
    let next = if ltb (a.counter + 1) a.max_ids then a.counter + 1 else 0 in
    let b : IdAllocator = record a { counter = next } in
    let (a', e, v') = allocate_many_lem n b (record { below = ground arith }) in
    (a', rw (allocate-eq a v) (rw e refl), v')

-- No number of `xs` is `x`.
abbrev pub Avoids : ℕ → List ℕ → Type 0
Avoids x = All (λ y. x ≢ y)

abbrev pub IsDistinct : List ℕ → Type 0
IsDistinct [] = Unit
IsDistinct (x ∷ xs) = Avoids x xs × IsDistinct xs

-- Identifiers above `x`: the run of `n` from `c` comes round to `x` only after `x + m - c` steps.
wrapped-Avoids_low : (n c m x : ℕ) → x < m → c + n ≤ x → Avoids x (wrapped n c m)
unfolding wrapped
wrapped-Avoids_low zero c m x hx h = tt
wrapped-Avoids_low (suc n) c m x hx h =
    let e : ltb (c + 1) m ≡ true = ground arith in
    rw e (omega arith, wrapped-Avoids_low n (c + 1) m x hx (omega arith))

wrapped-Avoids : (n c m x : ℕ) → c < m → x < c → n + c ≤ x + m → Avoids x (wrapped n c m)
unfolding wrapped
wrapped-Avoids zero c m x hc hx h = tt
wrapped-Avoids (suc n) c m x hc hx h = elim (Bool-cases (ltb (c + 1) m)) [
  | inl e ↦
      rw e (omega arith, wrapped-Avoids n (c + 1) m x (ground arith) (omega arith) (omega arith))
  | inr e ↦ rw e (omega arith, wrapped-Avoids_low n 0 m x (omega arith) (ground arith))
]

wrapped-IsDistinct : (n c m : ℕ) → c < m → n ≤ m → IsDistinct (wrapped n c m)
unfolding wrapped
wrapped-IsDistinct zero c m hc h = tt
wrapped-IsDistinct (suc n) c m hc h = elim (Bool-cases (ltb (c + 1) m)) [
  | inl e ↦ rw e (
    wrapped-Avoids n (c + 1) m c (ground arith) (omega arith) (omega arith),
    wrapped-IsDistinct n (c + 1) m (ground arith) (omega arith),
  )
  | inr e ↦ rw e (
    wrapped-Avoids_low n 0 m c hc (ground arith),
    wrapped-IsDistinct n 0 m (omega arith) (omega arith),
  )
]

wrapped-below : (n c m : ℕ) → c < m → All (λ x. x < m) (wrapped n c m)
unfolding wrapped
wrapped-below zero c m hc = tt
wrapped-below (suc n) c m hc =
    (hc, wrapped-below n (if ltb (c + 1) m then c + 1 else 0) m (ground arith))

-- Up to `max_ids` consecutive allocations give as many different identifiers, all below `max_ids`.
pub allocate_many-IsDistinct :
    (n : ℕ) (a : IdAllocator)
    → IsAllocator a
    → n ≤ a.max_ids
    → (ids : List ℕ) (a' : IdAllocator) → allocate_many n a ≡ ok (ids, a')
    → IsDistinct ids × All (λ x. x < a.max_ids) ids
allocate_many-IsDistinct n a v h ids a' e =
    let (b, f, _) = allocate_many_lem n a v in
    let same : wrapped n a.counter a.max_ids ≡ ids = ground arith in
    rw (← same) (
      wrapped-IsDistinct n a.counter a.max_ids v.below h,
      wrapped-below n a.counter a.max_ids v.below,
    )

-- Wire identifiers below the range size stay apart between clients.
pub global_id-injective :
    (a : ClientAllocator) (i j x y : ℕ)
    → x < a.range_size
    → y < a.range_size
    → global_id a i x ≡ global_id a j y
    → (i ≡ j) × (x ≡ y)
unfolding global_id
global_id-injective a i j x y hx hy h = (same_client, grind (arith, same_client))
  where
    same_client : i ≡ j
    same_client = grind arith
