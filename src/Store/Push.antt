-- ===== src/Store/Push.antt =====
-- `store_push` and `store_push_empty` against the partial map of the store.
use dpatch.Prelude.{
  dec_lt, ◌⊎◌, inl, inr, ◌≢◌, ℕ, suc, ◌+◌, ◌-◌, ◌<◌, ◌≡◌, ◌==◌, refl, sym, ap, ◌∙◌, true, false, [],
  ◌∷◌, Option, none, some, arith, if◌then◌else◌, length, get_elem?, set, take, occurrences,
  length-set, get_elem?_in, lt_of_get_elem?, take-suc, occurrences-append,
}
use dpatch.Exec.{ret}
use dpatch.Store.{Slot, Store, store_push, store_push_empty}
use dpatch.Store.Valid.{free_at, item_at, IsValid, free_at-set, used_total-set, item_at-set}

module _ {ℓ} {A : Type ℓ} where
  -- The index on top of the open slots: it is an unused slot, and stands nowhere below.
  record Top (s : Store A) : Type ℓ where
    idx : ℕ
    slot : Slot A
    read : get_elem? s.open_slots (s.open_cnt - 1) ≡ some idx
    in_slots : get_elem? s.slots idx ≡ some slot
    unused : slot.used ≡ false
    below :
        (j : ℕ)
        → occurrences j (take (s.open_cnt - 1) s.open_slots) + (if j == idx then 1 else 0)
          ≡ free_at s.slots j

  free_slot :
      (found : Option (Slot A))
      → 0 < elim found [ none ↦ 0 | some s ↦ if s.used then 0 else 1 ]
      → (s : Slot A) × (found ≡ some s) × (s.used ≡ false)
  free_slot none h = absurd (omega arith)
  free_slot (some s) h = (s, refl, ground arith)

  occurrences-take :
      (s : Store A) (k j : ℕ) {i : ℕ}
      → get_elem? s.open_slots k ≡ some i
      → occurrences j (take (suc k) s.open_slots)
        ≡ occurrences j (take k s.open_slots) + (if j == i then 1 else 0)
  occurrences-take s k j {i} h =
      rw (take-suc k s.open_slots h)
        (ground (arith, occurrences-append j (take k s.open_slots) (i ∷ [])))

  top : (s : Store A) → IsValid s → 0 < s.open_cnt → Top s
  top s v h =
      let (i, read) =
        get_elem?_in s.open_slots (s.open_cnt - 1) (omega (arith, v.open_length, v.total)) in
      let below = below_top i read in
      let (slot, found, unused) = free_slot (get_elem? s.slots i) (ground (arith, below i)) in
      record { idx = i; slot = slot; read = read; in_slots = found; unused = unused; below = below }
    where
      below_top :
          (i : ℕ)
          → get_elem? s.open_slots (s.open_cnt - 1) ≡ some i
          → (j : ℕ)
          → occurrences j (take (s.open_cnt - 1) s.open_slots) + (if j == i then 1 else 0)
            ≡ free_at s.slots j
      below_top i read j =
          let e : suc (s.open_cnt - 1) ≡ s.open_cnt = omega arith in
          sym (occurrences-take s (s.open_cnt - 1) j read)
          ∙ ap (λ n. occurrences j (take n s.open_slots)) e
          ∙ v.balance j

  -- A push took the unused key `k` of `s`: only that entry of the map changes.
  pub record Pushed (s : Store A) (item : A) (k : ℕ) (s' : Store A) : Type ℓ where
    pub was_free : item_at s k ≡ none
    pub in_range : k < s.capacity
    pub valid : IsValid s'
    pub same_capacity : s'.capacity ≡ s.capacity
    pub one_less : s'.open_cnt + 1 ≡ s.open_cnt
    pub view : (j : ℕ) → item_at s' j ≡ (if j == k then some item else item_at s j)

  filled : Store A → ℕ → A → Store A
  filled s i item = record s {
    open_cnt = s.open_cnt - 1;
    slots = set s.slots i (record { used = true; value = item });
  }

  filled-Pushed :
      (s : Store A) (item : A)
      → IsValid s
      → 0 < s.open_cnt
      → (t : Top s) → Pushed s item t.idx (filled s t.idx item)
  unfolding filled
  filled-Pushed s item v h t = record {
    was_free = ground (arith, t.in_slots, t.unused);
    in_range = omega (arith, within, v.slots_length);
    valid = record {
      slots_length = length-set s.slots t.idx used ∙ v.slots_length;
      open_length = v.open_length;
      balance = λ j.
          ground (arith, t.below j, free_at-set s.slots t.idx j used within, t.in_slots, t.unused);
      total = ground (arith, used_total-set s.slots t.idx used t.in_slots, v.total, t.unused);
    };
    same_capacity = refl;
    one_less = omega arith;
    view = λ j. item_at-set s t.idx j used within;
  }
    where
      within : t.idx < length s.slots
      within = lt_of_get_elem? s.slots t.idx t.in_slots

      used : Slot A
      used = record { used = true; value = item }

  store_push-filled :
      (s : Store A) (item : A)
      → 0 < s.open_cnt
      → (t : Top s) → store_push s item ≡ ret (some (t.idx, item), filled s t.idx item)
  unfolding store_push filled
  store_push-filled s item h t = ground (arith, t.read, lt_of_get_elem? s.slots t.idx t.in_slots)

  full_item :
      (s : Store A) (j : ℕ) → j < length s.slots → free_at s.slots j ≡ 0 → item_at s j ≢ none
  full_item s j h f e = let (slot, found) = get_elem?_in s.slots j h in ground (arith, found)

  no_open : (s : Store A) (j : ℕ) → IsValid s → s.open_cnt ≡ 0 → free_at s.slots j ≡ 0
  no_open s j v h = sym (v.balance j) ∙ ap (λ n. occurrences j (take n s.open_slots)) h

  -- On a valid store, store_push either gives a key that was free, in range, and now holds the
  -- item, with every other key as it was, one open slot less and the store valid, or gives
  -- KEYVALUE_NONE and changes nothing, and then every key was taken.
  pub store_push-cases :
      (s : Store A) (item : A)
      → IsValid s
      → ((store_push s item ≡ ret (none, s)) × ((j : ℕ) → j < s.capacity → item_at s j ≢ none))
        ⊎ ((k : ℕ) × (s' : Store A) × (store_push s item ≡ ret (some (k, item), s'))
            × Pushed s item k s')
  unfolding store_push
  store_push-cases s item v = elim (dec_lt 0 s.open_cnt) [
    | yes h ↦
        let t = top s v h in
        inr (t.idx, filled s t.idx item, store_push-filled s item h t, filled-Pushed s item v h t)
    | no h ↦
        let e : s.open_cnt ≡ 0 = omega arith in
        inl (ground arith, λ j lt. full_item s j (omega (arith, v.slots_length)) (no_open s j v e))
  ]

  -- With an open slot a push succeeds.
  pub store_push_room :
      (s : Store A) (item : A)
      → IsValid s
      → 0 < s.open_cnt
      → (k : ℕ) × (s' : Store A) × (store_push s item ≡ ret (some (k, item), s'))
        × Pushed s item k s'
  store_push_room s item v h =
      let t = top s v h in
      (t.idx, filled s t.idx item, store_push-filled s item h t, filled-Pushed s item v h t)

  -- `store_push_empty` is a push of an item of zero bytes.
  pub store_push_empty_lem :
      (zeroed : A) (s : Store A) → store_push_empty zeroed s ≡ store_push s zeroed
  unfolding store_push_empty store_push
  store_push_empty_lem zeroed s = refl
