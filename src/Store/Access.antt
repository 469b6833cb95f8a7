-- ===== src/Store/Access.antt =====
-- `store_get`, `store_is_used`, `store_replace` and `store_length` against the map of the store.
use dpatch.Prelude.{
  ℕ, ◌≤◌, ◌<◌, ◌≡◌, ◌==◌, refl, ◌∙◌, true, false, Option, none, some, arith, if◌then◌else◌, length,
  get_elem?, set, length-set, pos, ◌⊎◌, inl, inr, dec_lt, lt_of_get_elem?, get_elem?_in,
  get_elem?_out, Bool-cases, leb,
}
use dpatch.Exec.{fault, ret}
use dpatch.Store.{Slot, Store, KeyValue, store_get, store_is_used, store_replace, store_length}
use dpatch.Store.Valid.{used_total, item_at, IsValid, free_at-set, used_total-set, item_at-set}

module _ {ℓ} {A : Type ℓ} where
  -- The key and item that the map holds at `i`.
  abbrev pub found_at : Store A → ℕ → KeyValue A
  found_at s i = elim (item_at s i) [ none ↦ none | some item ↦ some (i, item) ]

  -- Inside a valid store store_get gives the key with its item if the map has it and KEYVALUE_NONE
  -- if not; at an index from the capacity on it accesses memory outside the store.
  pub store_get-found_at :
      (s : Store A) (i : ℕ)
      → IsValid s
      → store_get s (pos i) ≡ (if leb s.capacity i then fault else ret (found_at s i))
  unfolding store_get
  store_get-found_at s i v = elim (dec_lt i s.capacity) [
    | yes h ↦
        let (slot, found) = get_elem?_in s.slots i (omega (arith, v.slots_length)) in
        ground (arith, found)
    | no h ↦ ground (arith, get_elem?_out s.slots i (omega (arith, v.slots_length)))
  ]

  -- What an operation on the used key `i` leaves: a valid store whose map differs at `i` only.
  pub record Changed (s : Store A) (i : ℕ) (now : Option A) (s' : Store A) : Type ℓ where
    pub valid : IsValid s'
    pub same_capacity : s'.capacity ≡ s.capacity
    pub view : (j : ℕ) → item_at s' j ≡ (if j == i then now else item_at s j)

  -- A slot read at key `i`, by whether it is used.
  pub slot_cases :
      (s : Store A) (i : ℕ)
      → IsValid s
      → (s.capacity ≤ i) ⊎ ((slot : Slot A) × (get_elem? s.slots i ≡ some slot) × (i < s.capacity))
  slot_cases s i v = elim (dec_lt i s.capacity) [
    | yes h ↦
        let (slot, found) = get_elem?_in s.slots i (omega (arith, v.slots_length)) in
        inr (slot, found, h)
    | no h ↦ inl (omega arith)
  ]

  unfoldable pub replaced : Store A → ℕ → A → Store A
  replaced s i item = record s { slots = set s.slots i (record { used = true; value = item }) }

  pub replaced-Changed :
      (s : Store A) (i : ℕ) (item : A) {slot : Slot A}
      → IsValid s
      → get_elem? s.slots i ≡ some slot
      → slot.used ≡ true
      → Changed s i (some item) (replaced s i item)
  unfolding replaced
  replaced-Changed s i item {slot} v found u = record {
    valid = record {
      slots_length = length-set s.slots i used ∙ v.slots_length;
      open_length = v.open_length;
      balance = λ j. ground (arith, v.balance j, free_at-set s.slots i j used within, found);
      total = ground (arith, used_total-set s.slots i used found, v.total);
    };
    same_capacity = refl;
    view = λ j. item_at-set s i j used within;
  }
    where
      within : i < length s.slots
      within = lt_of_get_elem? s.slots i found

      used : Slot A
      used = record { used = true; value = item }

  -- On a valid store store_replace overwrites the item of a key in the map and returns 1, with
  -- every other key as it was; at any other index from 0 on it returns 0 and changes nothing.
  pub store_replace-cases :
      (s : Store A) (i : ℕ) (item : A)
      → IsValid s
      → ((item_at s i ≡ none) × (store_replace s (pos i) item ≡ ret (false, s)))
        ⊎ ((old : A) × (s' : Store A) × (item_at s i ≡ some old)
            × (store_replace s (pos i) item ≡ ret (true, s'))
            × Changed s i (some item) s')
  unfolding store_replace
  store_replace-cases s i item v = elim (slot_cases s i v) [
    | inl out ↦
        inl (ground (arith, get_elem?_out s.slots i (omega (arith, v.slots_length))), ground arith)
    | inr (slot, found, h) ↦ elim (Bool-cases slot.used) [
      | inl u ↦ inr (
        slot.value,
        replaced s i item,
        ground (arith, found),
        unfold replaced in ground (arith, found, lt_of_get_elem? s.slots i found),
        replaced-Changed s i item v found u,
      )
      | inr u ↦ inl (ground (arith, found), ground (arith, found))
    ]
  ]

  -- `store_is_used` tells whether the map has the key.
  pub store_is_used-item_at :
      (s : Store A) (i : ℕ)
      → IsValid s
      → i < s.capacity
      → store_is_used s (pos i) ≡ ret (elim (item_at s i) [ none ↦ false | some _ ↦ true ])
  unfolding store_is_used
  store_is_used-item_at s i v h =
      let (slot, found) = get_elem?_in s.slots i (omega (arith, v.slots_length)) in
      ground (arith, found)

  -- On a valid store store_length is the number of used slots, and never negative.
  pub store_length-used_total :
      (s : Store A) → IsValid s → store_length s ≡ pos (used_total s.slots)
  unfolding store_length
  store_length-used_total s v = ground (arith, v.total)
