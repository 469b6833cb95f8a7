-- ===== src/Store/Valid.antt =====
-- What store.h keeps true of a store: the first `open_cnt` entries of `open` are the unused slots.
use dpatch.Prelude.{
  ℕ, zero, suc, ◌+◌, ◌<◌, ◌≡◌, ◌==◌, true, List, [], ◌∷◌, Option, none, some, arith, if◌then◌else◌,
  length, get_elem?, set, take, occurrences, get_elem?-set,
}
use dpatch.Store.{Slot, Store}

module _ {ℓ} {A : Type ℓ} where
  -- 1 if slot `j` exists and is unused.
  abbrev pub free_at : List (Slot A) → ℕ → ℕ
  free_at slots j = elim (get_elem? slots j) [ none ↦ 0 | some s ↦ if s.used then 0 else 1 ]

  abbrev pub used_total : List (Slot A) → ℕ
  used_total [] = 0
  used_total (s ∷ rest) = (if s.used then 1 else 0) + used_total rest

  -- The abstract view: a partial map from keys to items.
  abbrev pub item_at : Store A → ℕ → Option A
  item_at s j = elim (get_elem? s.slots j) [
    | none ↦ none
    | some slot ↦ if slot.used then some slot.value else none
  ]

  pub record IsValid (s : Store A) : Type ℓ where
    pub slots_length : length s.slots ≡ s.capacity
    pub open_length : length s.open_slots ≡ s.capacity
    -- Each unused slot stands exactly once among the open ones, and nothing else does.
    pub balance : (j : ℕ) → occurrences j (take s.open_cnt s.open_slots) ≡ free_at s.slots j
    pub total : s.open_cnt + used_total s.slots ≡ s.capacity

  pub free_at-set :
      (slots : List (Slot A)) (i j : ℕ) (s : Slot A)
      → i < length slots
      → free_at (set slots i s) j ≡ (if j == i then (if s.used then 0 else 1) else free_at slots j)
  free_at-set slots i j s h = ground (arith, get_elem?-set slots i j s h)

  pub used_total-set :
      (slots : List (Slot A)) (i : ℕ) (s : Slot A) {old : Slot A}
      → get_elem? slots i ≡ some old
      → used_total (set slots i s) + (if old.used then 1 else 0)
        ≡ used_total slots + (if s.used then 1 else 0)
  used_total-set [] i s h = absurd (ground arith)
  used_total-set (x ∷ xs) zero s h = ground arith
  used_total-set (x ∷ xs) (suc i) s h = omega (arith, used_total-set xs i s h)

  pub used_total-pos :
      (slots : List (Slot A)) (i : ℕ) {s : Slot A}
      → get_elem? slots i ≡ some s
      → s.used ≡ true
      → 0 < used_total slots
  used_total-pos [] i h u = absurd (ground arith)
  used_total-pos (x ∷ xs) zero h u = ground arith
  used_total-pos (x ∷ xs) (suc i) h u = omega (arith, used_total-pos xs i h u)

  pub item_at-set :
      (s : Store A) (i j : ℕ) (slot : Slot A)
      → i < length s.slots
      → item_at (record s { slots = set s.slots i slot }) j
        ≡ (if j == i then (if slot.used then some slot.value else none) else item_at s j)
  item_at-set s i j slot h = ground (arith, get_elem?-set s.slots i j slot h)
