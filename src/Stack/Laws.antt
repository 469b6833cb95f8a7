-- ===== src/Stack/Laws.antt =====
-- A stack as the list of its items in use, oldest first: push, pop and get.
use dpatch.Prelude.{
  ℕ, zero, suc, ◌+◌, ◌-◌, ◌<◌, ◌≤◌, ◌≡◌, refl, ap, ◌∙◌, true, List, [], ◌∷◌, ◌++◌, none, some, leb,
  if◌then◌else◌, length, get_elem?, set, take, arith, pos, negsuc, ℤ, take-set, take-suc,
  get_elem?-set, length-set, length-take, get_elem?_in, dec_lt, ◌⊎◌, inl, inr,
}
use dpatch.Exec.{ret, ◌>>=◌}
use dpatch.Stack.{Stack, stack_new, stack_push, stack_push_new, stack_pop, stack_get}

module _ {ℓ} {A : Type ℓ} where
  pub record IsValid (s : Stack A) : Type 0 where
    pub within : s.count ≤ s.capacity
    pub whole : length s.items ≡ s.capacity

  abbrev pub contents : Stack A → List A
  contents s = take s.count s.items

  pub length-contents : (s : Stack A) → IsValid s → length (contents s) ≡ s.count
  length-contents s v = omega (arith, length-take s.count s.items, v.within, v.whole)

  -- An empty stack of any fresh memory.
  pub stack_new-IsValid :
      (raw : List A) (capacity : ℕ) {s : Stack A}
      → length raw ≡ capacity
      → stack_new true raw capacity ≡ some s
      → IsValid s × (contents s ≡ []) × (s.capacity ≡ capacity)
  unfolding stack_new
  stack_new-IsValid raw capacity {s} l e = ground arith

  take-put :
      (n : ℕ) (items : List A) (item : A)
      → n < length items
      → take (n + 1) (set items n item) ≡ take n items ++ item ∷ []
  take-put n items item h =
      let e : n + 1 ≡ suc n = omega arith in
      rw (
        e,
        take-suc n (set items n item) {a = item} (ground (arith, get_elem?-set items n n item h)),
        take-set n items item,
      )

  -- stack_push on a valid stack appends the item to the contents, returns its index and keeps the
  -- capacity and the invariant, unless the stack is full: then it refuses and changes nothing.
  pub stack_push-contents :
      (s : Stack A) (item : A)
      → IsValid s
      → ((s.count ≡ s.capacity) × (stack_push s item ≡ ret (none, s)))
        ⊎ ((s' : Stack A) × (stack_push s item ≡ ret (some (length (contents s)), s'))
            × (contents s' ≡ contents s ++ item ∷ [])
            × (s'.capacity ≡ s.capacity)
            × IsValid s')
  unfolding stack_push
  stack_push-contents s item v = elim (dec_lt s.count s.capacity) [
    | no full ↦ inl (omega (arith, v.within), ground (arith, v.within))
    | yes room ↦ inr (
      record s { items = set s.items s.count item; count = s.count + 1 },
      ground (arith, length-contents s v, v.whole),
      take-put s.count s.items item (omega (arith, v.whole)),
      refl,
      record { within = omega arith; whole = length-set s.items s.count item ∙ v.whole },
    )
  ]

  -- stack_pop on a valid stack returns the last item of the contents and takes it off, keeping the
  -- capacity and the invariant; on an empty stack it returns NULL and changes nothing.
  pub stack_pop-contents :
      (s : Stack A)
      → IsValid s
      → ((contents s ≡ []) × (stack_pop s ≡ ret (none, s)))
        ⊎ ((item : A) × (s' : Stack A) × (stack_pop s ≡ ret (some item, s'))
            × (contents s ≡ contents s' ++ item ∷ [])
            × (s'.capacity ≡ s.capacity)
            × IsValid s')
  unfolding stack_pop
  stack_pop-contents s v = elim (dec_lt 0 s.count) [
    | no empty ↦ let e : s.count ≡ 0 = omega arith in inl (ap (λ n. take n s.items) e, ground arith)
    | yes some_item ↦
        let (item, found) = get_elem?_in s.items (s.count - 1) (omega (arith, v.within, v.whole)) in
        let e : s.count ≡ suc (s.count - 1) = omega arith in
        inr (
          item,
          record s { count = s.count - 1 },
          ground (arith, found),
          ap (λ n. take n s.items) e ∙ take-suc (s.count - 1) s.items found,
          refl,
          record { within = omega (arith, v.within); whole = v.whole },
        )
  ]

  get_elem?-take :
      (n i : ℕ) (xs : List A) → get_elem? (take n xs) i ≡ (if leb n i then none else get_elem? xs i)
  get_elem?-take zero i xs = ground arith
  get_elem?-take (suc n) i [] = ground arith
  get_elem?-take (suc n) zero (x ∷ xs) = ground arith
  get_elem?-take (suc n) (suc i) (x ∷ xs) = ground (arith, get_elem?-take n i xs)

  -- On a valid stack stack_get gives the item of the contents at the index, or NULL at any index
  -- out of range, negative ones included, and never reads outside the array.
  pub stack_get-contents :
      (s : Stack A) (i : ℤ)
      → IsValid s
      → stack_get s i ≡ ret (elim i [ pos k ↦ get_elem? (contents s) k | negsuc k ↦ none ])
  unfolding stack_get
  stack_get-contents s (negsuc k) v = refl
  stack_get-contents s (pos k) v = elim (dec_lt k s.count) [
    | no out ↦ ground (arith, get_elem?-take s.count k s.items)
    | yes inside ↦
        let (item, found) = get_elem?_in s.items k (omega (arith, v.within, v.whole)) in
        ground (arith, found, get_elem?-take s.count k s.items)
  ]

  -- `stack_push_new` is a push of an item of zero bytes.
  pub stack_push_new_lem :
      (zeroed : A) (s : Stack A)
      → stack_push_new zeroed s
        ≡ (stack_push s zeroed >>= λ r. ret (elim r.0 [ none ↦ none | some _ ↦ some zeroed ], r.1))
  unfolding stack_push_new stack_push
  stack_push_new_lem zeroed s = ground arith
