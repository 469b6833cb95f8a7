-- ===== src/Store/Reset.antt =====
-- `reset_open`, `store_new` and `store_reset`: the index stack runs from the last slot down to 0.
use dpatch.Prelude.{
  ◌⊎◌, inl, inr, ℕ, zero, suc, ◌+◌, ◌-◌, ◌<◌, ◌≡◌, refl, sym, ap, ◌∙◌, Bool, true, false, List, [],
  ◌∷◌, none, some, arith, if◌then◌else◌, length, get_elem?, set, occurrences, length-set, ltb,
  length-replicate, get_elem?-set, list_ext, take_length,
}
use dpatch.Exec.{ret}
use dpatch.Store.{Store, clear_slots, reset_open_from, store_new, store_reset}
use dpatch.Store.Valid.{free_at, used_total, item_at, IsValid}

-- `n - 1` down to 0.
abbrev pub down : ℕ → List ℕ
down zero = []
down (suc n) = n ∷ down n

length-down : (n : ℕ) → length (down n) ≡ n
length-down zero = refl
length-down (suc n) = ap suc (length-down n)

occurrences-down : (n j : ℕ) → occurrences j (down n) ≡ (if ltb j n then 1 else 0)
occurrences-down zero j = ground arith
occurrences-down (suc n) j = ground (arith, occurrences-down n j)

get_elem?-down : (n j : ℕ) → j < n → get_elem? (down n) j ≡ some (n - 1 - j)
get_elem?-down zero j h = absurd (omega arith)
get_elem?-down (suc n) zero h = ground arith
get_elem?-down (suc n) (suc j) h = ground (arith, get_elem?-down n j)

-- What the loop of `reset_open` has written when it ends.
record Filled (i capacity : ℕ) (before after : List ℕ) : Type 0 where
  same_length : length after ≡ length before
  entry :
      (j : ℕ)
      → j < capacity
      → get_elem? after j ≡ (if ltb j i then get_elem? before j else some (capacity - 1 - j))

reset_open_from-Filled :
    (n i capacity : ℕ) (slots : List ℕ)
    → i + n ≡ capacity
    → length slots ≡ capacity
    → (after : List ℕ) × (reset_open_from n i capacity slots ≡ ret after)
      × Filled i capacity slots after
unfolding reset_open_from
reset_open_from-Filled zero i capacity slots e l =
    (slots, refl, record { same_length = refl; entry = λ j h. ground arith })
reset_open_from-Filled (suc n) i capacity slots e l =
    let next = set slots i (capacity - 1 - i) in
    let (after, done, filled) =
      reset_open_from-Filled n (i + 1) capacity next (omega arith)
        (length-set slots i (capacity - 1 - i) ∙ l) in
    (
      after,
      ground (arith, done),
      record {
        same_length = filled.same_length ∙ length-set slots i (capacity - 1 - i);
        entry = λ j h.
            ground
              (arith, filled.entry j h, get_elem?-set slots i j (capacity - 1 - i) (omega arith));
      },
    )

reset_open_from-down :
    (capacity : ℕ) (slots : List ℕ)
    → length slots ≡ capacity
    → reset_open_from capacity 0 capacity slots ≡ ret (down capacity)
reset_open_from-down capacity slots l =
    let (after, done, filled) = reset_open_from-Filled capacity 0 capacity slots (omega arith) l in
    done
    ∙ ap ret (
        list_ext after (down capacity) (omega (arith, filled.same_length, length-down capacity))
          (λ j h. ground (
            arith,
            filled.entry j (omega (arith, filled.same_length)),
            get_elem?-down capacity j (omega (arith, filled.same_length)),
          )))

module _ {ℓ} {A : Type ℓ} (zeroed : A) where
  used_total-clear_slots : (n : ℕ) → used_total (clear_slots zeroed n) ≡ 0
  used_total-clear_slots zero = refl
  used_total-clear_slots (suc n) = omega (arith, used_total-clear_slots n)

  free_at-clear_slots : (n j : ℕ) → free_at (clear_slots zeroed n) j ≡ (if ltb j n then 1 else 0)
  free_at-clear_slots zero j = ground arith
  free_at-clear_slots (suc n) zero = ground arith
  free_at-clear_slots (suc n) (suc j) = ground (arith, free_at-clear_slots n j)

  -- The store in its base state.
  base : ℕ → Store A
  base capacity = record {
    capacity = capacity;
    open_cnt = capacity;
    open_slots = down capacity;
    slots = clear_slots zeroed capacity;
  }

  pub record IsBase (capacity : ℕ) (s : Store A) : Type ℓ where
    pub valid : IsValid s
    pub same_capacity : s.capacity ≡ capacity
    pub all_open : s.open_cnt ≡ capacity
    pub empty : (j : ℕ) → item_at s j ≡ none

  item_at-clear_slots :
      (n j capacity open_cnt : ℕ) (open_slots : List ℕ)
      → item_at
          (record {
            capacity = capacity;
            open_cnt = open_cnt;
            open_slots = open_slots;
            slots = clear_slots zeroed n;
          })
          j
        ≡ none
  item_at-clear_slots zero j c o l = refl
  item_at-clear_slots (suc n) zero c o l = refl
  item_at-clear_slots (suc n) (suc j) c o l = item_at-clear_slots n j c o l

  base-IsBase : (capacity : ℕ) → IsBase capacity (base capacity)
  unfolding base
  base-IsBase capacity = record {
    valid = record {
      slots_length = length-replicate capacity _;
      open_length = length-down capacity;
      balance = λ j.
          ap (occurrences j) (take_length capacity (down capacity) (length-down capacity))
          ∙ occurrences-down capacity j
          ∙ sym (free_at-clear_slots capacity j);
      total = omega (arith, used_total-clear_slots capacity);
    };
    same_capacity = refl;
    all_open = refl;
    empty = λ j. item_at-clear_slots capacity j capacity capacity (down capacity);
  }

  -- store_reset of a valid store returns and leaves a valid store of the same capacity with an
  -- empty map and every slot open.
  pub store_reset-IsBase :
      (s : Store A)
      → IsValid s
      → (s' : Store A) × (store_reset zeroed s ≡ ret s') × IsBase s.capacity s'
  unfolding store_reset base
  store_reset-IsBase s v = (
    base s.capacity,
    ground (arith, reset_open_from-down s.capacity s.open_slots v.open_length),
    base-IsBase s.capacity,
  )

  -- store_new gives a valid store of the asked capacity with an empty map and every slot open,
  -- whatever the fresh memory holds, if memory is granted, and NULL if it is refused.
  pub store_new-IsBase :
      (allocated : Bool) (raw : List ℕ) (capacity : ℕ)
      → length raw ≡ capacity
      → ((allocated ≡ false) × (store_new zeroed allocated raw capacity ≡ ret none))
        ⊎ ((allocated ≡ true)
            × ((s : Store A) × (store_new zeroed allocated raw capacity ≡ ret (some s))
                × IsBase capacity s))
  unfolding store_new base
  store_new-IsBase false raw capacity l = inl (refl, refl)
  store_new-IsBase true raw capacity l = inr (
    refl,
    (base capacity, ground (arith, reset_open_from-down capacity raw l), base-IsBase capacity),
  )
