-- ===== src/Store/Remove.antt =====
-- `store_remove_at`, and the reuse of the freed slot.
use dpatch.Prelude.{
  ℕ, suc, ◌+◌, ◌-◌, ◌<◌, ◌≡◌, ◌==◌, refl, ap, ◌∙◌, true, false, List, [], ◌∷◌, none, some, arith,
  if◌then◌else◌, length, get_elem?, set, take, occurrences, length-set, pos, ◌⊎◌, inl, inr,
  get_elem?-set, lt_of_get_elem?, get_elem?_out, Bool-cases, take-suc, take-set, set-set, subst,
  occurrences-append,
}
use dpatch.Exec.{ret}
use dpatch.Store.{Slot, Store, store_push, store_remove_at}
use dpatch.Store.Valid.{used_total-pos, item_at, IsValid, free_at-set, used_total-set, item_at-set}
use dpatch.Store.Access.{Changed, slot_cases}

-- Writing `i` on top of the open slots counts it once more.
occurrences-push :
    (xs : List ℕ) (n i j : ℕ)
    → n < length xs
    → occurrences j (take (n + 1) (set xs n i))
      ≡ occurrences j (take n xs) + (if j == i then 1 else 0)
occurrences-push xs n i j h =
    let e : n + 1 ≡ suc n = omega arith in
    rw
      (
        e,
        take-suc n (set xs n i) {a = i} (ground (arith, get_elem?-set xs n n i h)),
        take-set n xs i,
      )
      (ground (arith, occurrences-append j (take n xs) (i ∷ [])))

module _ {ℓ} {A : Type ℓ} where
  removed : Store A → ℕ → Slot A → Store A
  removed s i slot = record s {
    slots = set s.slots i (record slot { used = false });
    open_slots = set s.open_slots s.open_cnt i;
    open_cnt = s.open_cnt + 1;
  }

  module _ (s : Store A) (i : ℕ) {slot : Slot A} (v : IsValid s) where
    removed-Changed :
        get_elem? s.slots i ≡ some slot
        → slot.used ≡ true
        → (s.open_cnt < length s.open_slots) × Changed s i none (removed s i slot)
    unfolding removed
    removed-Changed found u = (
      room,
      record {
        valid = record {
          slots_length = length-set s.slots i unused ∙ v.slots_length;
          open_length = length-set s.open_slots s.open_cnt i ∙ v.open_length;
          balance = λ j. ground (
            arith,
            v.balance j,
            occurrences-push s.open_slots s.open_cnt i j room,
            free_at-set s.slots i j unused within,
            found,
          );
          total = ground (arith, used_total-set s.slots i unused found, v.total);
        };
        same_capacity = refl;
        view = λ j. item_at-set s i j unused within;
      },
    )
      where
        within : i < length s.slots
        within = lt_of_get_elem? s.slots i found

        room : s.open_cnt < length s.open_slots
        room = omega (arith, used_total-pos s.slots i found u, v.total, v.open_length)

        unused : Slot A
        unused = record slot { used = false }

  -- On a valid store and any index from 0 on, store_remove_at returns 1 exactly if the key is in
  -- the map, and then the store stays valid and only that key is gone; otherwise it returns 0 and
  -- changes nothing.
  pub store_remove_at-cases :
      (s : Store A) (i : ℕ)
      → IsValid s
      → ((item_at s i ≡ none) × (store_remove_at s (pos i) ≡ ret (false, s)))
        ⊎ ((old : A) × (s' : Store A) × (item_at s i ≡ some old)
            × (store_remove_at s (pos i) ≡ ret (true, s'))
            × Changed s i none s')
  unfolding store_remove_at
  store_remove_at-cases s i v = elim (slot_cases s i v) [
    | inl out ↦
        inl (ground (arith, get_elem?_out s.slots i (omega (arith, v.slots_length))), ground arith)
    | inr (slot, found, h) ↦ elim (Bool-cases slot.used) [
      | inl u ↦
          let (room, changed) = removed-Changed s i v found u in
          inr (
            slot.value,
            removed s i slot,
            ground (arith, found),
            unfold removed in ground (arith, found, room, lt_of_get_elem? s.slots i found),
            changed,
          )
      | inr u ↦ inl (ground (arith, found), ground (arith, found))
    ]
  ]

  -- The store that a push leaves after slot `i` was removed.
  refilled : Store A → ℕ → A → Store A
  refilled s i item = record s {
    slots = set s.slots i (record { used = true; value = item });
    open_slots = set s.open_slots s.open_cnt i;
  }

  push_removed :
      (s : Store A) (i : ℕ) (slot : Slot A) (item : A)
      → i < length s.slots
      → s.open_cnt < length s.open_slots
      → store_push (removed s i slot) item ≡ ret (some (i, item), refilled s i item)
  unfolding store_push removed refilled
  push_removed s i slot item h room =
      let e : s.open_cnt + 1 - 1 ≡ s.open_cnt = omega arith in
      ground (
        arith,
        e,
        ap (get_elem? (set s.open_slots s.open_cnt i)) e,
        get_elem?-set s.open_slots s.open_cnt s.open_cnt i room,
        length-set s.slots i (record slot { used = false }),
        set-set s.slots i (record slot { used = false }) (record { used = true; value = item }),
      )

  -- After store_remove_at has freed a key of a valid store, the next store_push gives exactly that
  -- key, and no other key changes.
  pub store_push-store_remove_at :
      (s : Store A) (i : ℕ) (item : A) {s' : Store A}
      → IsValid s
      → store_remove_at s (pos i) ≡ ret (true, s')
      → (t : Store A) × (store_push s' item ≡ ret (some (i, item), t))
        × ((j : ℕ) → item_at t j ≡ (if j == i then some item else item_at s j))
  unfolding store_remove_at
  store_push-store_remove_at s i item {s'} v e = elim (slot_cases s i v) [
    | inl out ↦ absurd (ground arith)
    | inr (slot, found, h) ↦ elim (Bool-cases slot.used) [
      | inr u ↦ absurd (ground (arith, found))
      | inl u ↦
          let within = lt_of_get_elem? s.slots i found in
          let (room, _) = removed-Changed s i v found u in
          let same : removed s i slot ≡ s' =
            unfold removed in ground (arith, found, room, within, e) in
          subst
            (λ x.
              (t : Store A) × (store_push x item ≡ ret (some (i, item), t))
              × ((j : ℕ) → item_at t j ≡ (if j == i then some item else item_at s j)))
            same
            (
              refilled s i item,
              push_removed s i slot item within room,
              λ j.
                  unfold refilled in
                  item_at-set s i j (record { used = true; value = item }) within,
            )
    ]
  ]
