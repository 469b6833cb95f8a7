-- ===== src/Stack/Keep.antt =====
-- The operations on a stack keep it valid and its capacity, as the agent uses them.
use dpatch.Prelude.{
  ℕ, ◌+◌, ◌-◌, ◌≤◌, ◌≡◌, ◌∙◌, refl, ap, subst, pos, Bool, true, false, List, Option, none, some,
  leb, ltb, length, arith,
}
use dpatch.Exec.{ret, load, put, bind_elim, if_elim}
use dpatch.Memory.Sizes.{SameSize, put-SameSize}
use dpatch.Stack.{Stack, stack_push, overwrite, stack_remove_at_fast}
use dpatch.Stack.Laws.{IsValid}

module _ {ℓ} {A : Type ℓ} where
  -- A valid stack of the same capacity.
  pub record Keeps (s s' : Stack A) : Type 0 where
    pub valid : IsValid s'
    pub same_capacity : s'.capacity ≡ s.capacity

  pub Keeps-refl : (s : Stack A) → IsValid s → Keeps s s
  Keeps-refl s v = record { valid = v; same_capacity = refl }

  -- Other items of the same number in the array, and a count that fits.
  changed-Keeps :
      (s : Stack A) (items : List A) (n : ℕ)
      → IsValid s
      → SameSize s.items items
      → n ≤ s.capacity
      → Keeps s (record s { items = items; count = n })
  changed-Keeps s items n v size fits = record {
    valid = record { within = fits; whole = size ∙ v.whole };
    same_capacity = refl;
  }

  overwrite-SameSize :
      (s : Stack A) (i : ℕ) {items : List A} → overwrite s i ≡ ret items → SameSize s.items items
  unfolding overwrite
  overwrite-SameSize s i {items} h =
      if_elim (ltb 1 s.count) _ _ h
        (λ _ h1.
          bind_elim (load s.items (s.count - 1)) _ h1 λ last _ h2. put-SameSize s.items i last h2)
        (λ _ h1. let same : s.items ≡ items = cc h1 in ap length (cc same))

  pub stack_remove_at_fast-Keeps :
      (zeroed : A) (s : Stack A) (i : ℕ) {r : Bool × Stack A}
      → IsValid s
      → stack_remove_at_fast zeroed s (pos i) ≡ ret r
      → Keeps s r.1
  unfolding stack_remove_at_fast
  stack_remove_at_fast-Keeps zeroed s i {r} v h =
      if_elim (leb s.count i) _ _ h
        (λ _ h1.
          let same : (false, s) ≡ r = cc h1 in
          subst (λ (q : Bool × Stack A). Keeps s q.1) same (Keeps-refl s v))
        λ _ h1. bind_elim (overwrite s i) _ h1 λ moved e2 h2.
          bind_elim (put moved (s.count - 1) zeroed) _ h2 λ items e3 h3.
            let same : (true, record s { items = items; count = s.count - 1 }) ≡ r = cc h3 in
            subst (λ (q : Bool × Stack A). Keeps s q.1) same
              (changed-Keeps s items (s.count - 1) v
                (put-SameSize moved (s.count - 1) zeroed e3 ∙ overwrite-SameSize s i e2)
                (omega (arith, v.within)))

  pub stack_push-Keeps :
      (s : Stack A) (item : A) {r : Option ℕ × Stack A}
      → IsValid s
      → stack_push s item ≡ ret r
      → Keeps s r.1
  unfolding stack_push
  stack_push-Keeps s item {r} v h =
      if_elim (leb s.capacity s.count) _ _ h
        (λ _ h1.
          let same : (none, s) ≡ r = cc h1 in
          subst (λ (q : Option ℕ × Stack A). Keeps s q.1) same (Keeps-refl s v))
        λ room h1. bind_elim (put s.items s.count item) _ h1 λ items e2 h2.
          let same : (some (s.count + 1 - 1), record s { items = items; count = s.count + 1 }) ≡ r =
            cc h2 in
          subst (λ (q : Option ℕ × Stack A). Keeps s q.1) same
            (changed-Keeps s items (s.count + 1) v (put-SameSize s.items s.count item e2)
              (ground (arith, room)))
