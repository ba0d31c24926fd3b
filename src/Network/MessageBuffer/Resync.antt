-- ===== src/Network/MessageBuffer/Resync.antt =====
-- `_resync` cuts the buffer at the first MAGIC behind its first byte.
use veltix.Prelude.{
  ℕ, zero, suc, ◌<◌, ◌≡◌, refl, sym, ap, ◌≢◌, ◌⊎◌, inl, inr, false, Option, none, some, List, [],
  ◌∷◌, ◌++◌, arith, ◌==◌, list_eq→eq, Bool-cases, length, take, drop, length-drop, take-append-drop,
  eq_nat, eq_string, eq_list,
}
use veltix.Prelude.Bytes.{Bytes}
use veltix.Network.Request.{magic}
use veltix.Network.MessageBuffer.{find_magic, resync}

-- MAGIC stands at no position of `b` below `n`.
abbrev pub NoMagicBefore : ℕ → Bytes → Type 0
NoMagicBefore n b = (j : ℕ) → j < n → (take 2 (drop j b) == magic) ≡ false

-- What a search in `b` found.
abbrev pub Found : Bytes → Option ℕ → Type 0
Found b none = NoMagicBefore (length b) b
Found b (some i) = (i < length b) × (take 2 (drop i b) ≡ magic) × NoMagicBefore i b

NoMagicBefore-suc :
    (n x : ℕ) (xs : Bytes)
    → (take 2 (x ∷ xs) == magic) ≡ false
    → NoMagicBefore n xs
    → NoMagicBefore (suc n) (x ∷ xs)
NoMagicBefore-suc n x xs e h zero lt = e
NoMagicBefore-suc n x xs e h (suc j) lt = h j (omega arith)

Found-suc :
    (x : ℕ) (xs : Bytes) (o : Option ℕ)
    → (take 2 (x ∷ xs) == magic) ≡ false
    → Found xs o
    → Found (x ∷ xs) (elim o [ some i ↦ some (suc i) | none ↦ none ])
Found-suc x xs none e h = NoMagicBefore-suc (length xs) x xs e h
Found-suc x xs (some i) e (lt, here, h) = (omega arith, here, NoMagicBefore-suc i x xs e h)

pub find_magic-Found : (b : Bytes) → Found b (find_magic b)
unfolding find_magic
find_magic-Found [] = λ j lt. absurd (omega arith)
find_magic-Found (x ∷ xs) = elim (Bool-cases (take 2 (x ∷ xs) == magic)) [
  | inl e ↦
      rw (e, Found)
        (omega arith, list_eq→eq (take 2 (x ∷ xs)) magic e, λ j lt. absurd (omega arith))
  | inr e ↦ rw (e, Found) (Found-suc x xs (find_magic xs) e (find_magic-Found xs))
]

-- How the buffer is cut.
pub record Resynced (b b' : Bytes) : Type 0 where
  pub skipped : ℕ
  pub at : b' ≡ drop skipped b
  pub moved : b ≢ [] → 0 < skipped
  -- the cut is at MAGIC, or nothing is left
  pub cut : (take 2 b' ≡ magic) ⊎ (b' ≡ [])
  pub none_missed : (j : ℕ) → 0 < j → j < skipped → (take 2 (drop j b) == magic) ≡ false

drop-all {ℓ} : {A : Type ℓ} (xs : List A) → drop (length xs) xs ≡ []
drop-all [] = refl
drop-all (x ∷ xs) = drop-all xs

-- Resynchronising skips at least one byte, stops at MAGIC or with an empty buffer, and skips no
-- MAGIC behind the first byte.
pub resync-Resynced : (b : Bytes) → Resynced b (resync b)
unfolding resync find_magic
resync-Resynced [] = record {
  skipped = 0;
  at = refl;
  moved = λ h. absurd (h refl);
  cut = inr refl;
  none_missed = λ j low high. absurd (omega arith);
}
resync-Resynced (x ∷ xs) = go (find_magic xs) (find_magic-Found xs)
  where
    missed :
        (n : ℕ)
        → NoMagicBefore n xs
        → (j : ℕ) → 0 < j
        → j < suc n
        → (take 2 (drop j (x ∷ xs)) == magic) ≡ false
    missed n h zero low high = absurd (omega arith)
    missed n h (suc j) low high = h j (omega arith)

    go :
        (o : Option ℕ)
        → Found xs o
        → Resynced (x ∷ xs) (elim o as (λ _. Bytes) [ none ↦ [] | some i ↦ drop (suc i) (x ∷ xs) ])
    go none h = record {
      skipped = length (x ∷ xs);
      at = sym (drop-all (x ∷ xs));
      moved = λ _. omega arith;
      cut = inr refl;
      none_missed = missed (length xs) h;
    }
    go (some i) (lt, here, h) = record {
      skipped = suc i;
      at = refl;
      moved = λ _. omega arith;
      cut = inl here;
      none_missed = missed i h;
    }

-- So it shortens a buffer that is not empty, and keeps a suffix of it.
pub length-resync : (b : Bytes) → 0 < length b → length (resync b) < length b
length-resync b h =
    let r = resync-Resynced b in
    let positive : 0 < r.skipped = r.moved (λ e. absurd (omega (arith, ap length e))) in
    rw r.at (omega (arith, length-drop r.skipped b))

pub resync-suffix : (b : Bytes) → (junk : Bytes) × (b ≡ junk ++ resync b)
resync-suffix b =
    let r = resync-Resynced b in (take r.skipped b, rw r.at (sym (take-append-drop r.skipped b)))
