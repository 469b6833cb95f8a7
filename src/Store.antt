-- ===== src/Store.antt =====
-- src/store.h: slots of equal size with a stack of free indices. A `Store` stands for a non-NULL
-- pointer, so the `if (!store)` guards have no case. Items are only moved, never computed with.
pub mod Valid
pub mod Push
pub mod Remove
pub mod Access
pub mod Reset
mod Tests
use dpatch.Prelude.{
  ℕ, zero, suc, ◌+◌, ◌-◌, ℤ, pos, negsuc, sub_ℕ, Bool, true, false, not, List, Option, none, some,
  ltb, leb, if◌then◌else◌, replicate,
}
use dpatch.Exec.{Exec, fault, ret, ◌>>=◌, load, put}

-- The use byte of an item and the `item_size` bytes behind it.
pub record Slot {ℓ} (A : Type ℓ) : Type ℓ where
  pub used : Bool
  pub value : A

-- `open` is `open_slots` and `data` is `slots`.
pub record Store {ℓ} (A : Type ℓ) : Type ℓ where
  pub capacity : ℕ
  pub open_cnt : ℕ
  pub open_slots : List ℕ
  pub slots : List (Slot A)

-- `KeyValue`; `none` is KEYVALUE_NONE.
abbrev pub KeyValue {ℓ} : Type ℓ → Type ℓ
KeyValue A = Option (ℕ × A)

-- The loop of `reset_open` with `n` rounds left.
unfoldable pub reset_open_from : ℕ → ℕ → ℕ → List ℕ → Exec (List ℕ)
reset_open_from zero i capacity slots = ret slots
reset_open_from (suc n) i capacity slots = do
  next ← put slots i (capacity - 1 - i)
  reset_open_from n (i + 1) capacity next

module _ {ℓ} {A : Type ℓ} where
  -- `none` is -1.
  unfoldable pub get_push_index : Store A → Exec (Option ℕ × Store A)
  get_push_index s =
      if ltb 0 s.open_cnt
      then (do
        idx ← load s.open_slots (s.open_cnt - 1)
        ret (some idx, record s { open_cnt = s.open_cnt - 1 }))
      else ret (none, s)

  unfoldable pub reset_open : Store A → Exec (Store A)
  unfolding reset_open_from
  reset_open s = do
    slots ← reset_open_from s.capacity 0 s.capacity s.open_slots
    ret (record s { open_cnt = s.capacity; open_slots = slots })

  -- Marks the slot used and fills it, or reports that there is none.
  abbrev pub fill_slot : Store A → Option ℕ → A → Exec (KeyValue A × Store A)
  fill_slot s none item = ret (none, s)
  fill_slot s (some idx) item = do
    slots ← put s.slots idx (record { used = true; value = item })
    ret (some (idx, item), record s { slots = slots })

  unfoldable pub store_push : Store A → A → Exec (KeyValue A × Store A)
  unfolding get_push_index
  store_push s item = do (idx, s') ← get_push_index s; fill_slot s' idx item

  -- There is no bounds check: an index outside the store is an access outside the object.
  unfoldable pub store_get : Store A → ℤ → Exec (KeyValue A)
  store_get s (pos i) = do
    slot ← load s.slots i
    ret (if not slot.used then none else some (i, slot.value))
  store_get s (negsuc n) = fault

  unfoldable pub store_is_used : Store A → ℤ → Exec Bool
  store_is_used s (pos i) = do slot ← load s.slots i; ret slot.used
  store_is_used s (negsuc n) = fault

  unfoldable pub store_replace : Store A → ℤ → A → Exec (Bool × Store A)
  store_replace s (pos i) item = if leb s.capacity i then ret (false, s) else (do
    slot ← load s.slots i
    if not slot.used then ret (false, s) else (do
      slots ← put s.slots i (record { used = true; value = item })
      ret (true, record s { slots = slots })))
  store_replace s (negsuc n) item = fault

  unfoldable pub store_remove_at : Store A → ℤ → Exec (Bool × Store A)
  store_remove_at s (pos i) = if leb s.capacity i then ret (false, s) else (do
    slot ← load s.slots i
    if not slot.used then ret (false, s) else (do
      slots ← put s.slots i (record slot { used = false })
      opened ← put s.open_slots s.open_cnt i
      ret (true, record s { slots = slots; open_slots = opened; open_cnt = s.open_cnt + 1 })))
  store_remove_at s (negsuc n) = fault

  unfoldable pub store_length : Store A → ℤ
  store_length s = sub_ℕ s.capacity s.open_cnt

-- `zeroed` is an item of zero bytes, what memset leaves.
module _ {ℓ} {A : Type ℓ} (zeroed : A) where
  abbrev pub clear_slots : ℕ → List (Slot A)
  clear_slots capacity = replicate capacity (record { used = false; value = zeroed })

  -- `allocated` says whether MMALLOC gave memory, and `raw` is what stands in the index array.
  unfoldable pub store_new : Bool → List ℕ → ℕ → Exec (Option (Store A))
  unfolding reset_open
  store_new allocated raw capacity = if not allocated then ret none else (do
    s ← reset_open (record {
      capacity = capacity;
      open_cnt = capacity;
      open_slots = raw;
      slots = clear_slots capacity;
    })
    ret (some s))

  unfoldable pub store_push_empty : Store A → Exec (KeyValue A × Store A)
  unfolding get_push_index
  store_push_empty s = do (idx, s') ← get_push_index s; fill_slot s' idx zeroed

  unfoldable pub store_reset : Store A → Exec (Store A)
  unfolding reset_open
  store_reset s = reset_open (record s { slots = clear_slots s.capacity })
