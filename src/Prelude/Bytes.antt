-- ===== src/Prelude/Bytes.antt =====
-- Bytes as numbers below 256, and the big-endian integers of `struct` and `int.to_bytes`.
use Prim.Native.Nat.{ℕ, ◌+◌, ◌*◌, ◌/◌, ◌%◌}
use mathlib.Core.Path.{◌≡◌}
use mathlib.Core.List.{List, [], ◌∷◌, foldl}
use native.Mathlib.Omega.{arith}
use veltix.Prelude.Lists.{take, drop}

abbrev pub Bytes : Type 0
Bytes = List ℕ

-- n.to_bytes(2, "big"), for n < 2 ^ 16
abbrev pub be16 : ℕ → Bytes
be16 n = (n / 256) ∷ (n % 256) ∷ []

-- n.to_bytes(4, "big"), for n < 2 ^ 32
abbrev pub be32 : ℕ → Bytes
be32 n = (n / 16777216) ∷ (n / 65536 % 256) ∷ (n / 256 % 256) ∷ (n % 256) ∷ []

-- int.from_bytes(b, "big")
abbrev pub from_be : Bytes → ℕ
from_be = foldl (λ acc b. acc * 256 + b) 0

-- b[i:i + n]
abbrev pub slice : ℕ → ℕ → Bytes → Bytes
slice i n b = take n (drop i b)

pub from_be-be16 : (n : ℕ) → from_be (be16 n) ≡ n
from_be-be16 n = omega arith

pub from_be-be32 : (n : ℕ) → from_be (be32 n) ≡ n
from_be-be32 n = omega arith
