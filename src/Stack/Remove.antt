-- ===== src/Stack/Remove.antt =====
-- The two removals: in order, and by moving the last item into the gap.
use dpatch.Prelude.{
  ℕ, zero, suc, ◌+◌, ◌-◌, ◌<◌, ◌≤◌, ◌≡◌, refl, sym, ap, ap₂, ◌∙◌, true, false, List, [], ◌∷◌, ◌++◌,
  length, take, drop, arith, pos, take-append, length-append, append_assoc, take-append-drop,
  dec_lt, ◌⊎◌, inl, inr,
}
use dpatch.Exec.{ret, load, put}
use dpatch.Memory.Place.{load-append, put-append}
use dpatch.Stack.{Stack, shift, stack_remove_at, stack_remove_at_fast}
use dpatch.Stack.Laws.{IsValid, contents, length-contents}

module _ {ℓ} {A : Type ℓ} where
  shift-left :
      (ys : List A) (x : A) (pre post : List A) (i : ℕ)
      → i ≡ length pre
      → (z : A) × (shift (length ys) i (pre ++ (x ∷ (ys ++ post)))
          ≡ ret (i + length ys, pre ++ (ys ++ z ∷ post)))
  unfolding shift
  shift-left [] x pre post i e = (x, ground arith)
  shift-left (y ∷ ys) x pre post i e =
      let (z, later) =
        shift-left ys y (pre ++ y ∷ []) post (i + 1) (omega (arith, length-append pre (y ∷ []))) in
      (
        z,
        rw (load-append pre (x ∷ y ∷ (ys ++ post)) (i + 1) 1 (omega arith)) (
            rw (put-append pre (x ∷ y ∷ (ys ++ post)) i 0 y (omega arith) (omega arith)) (
              rw (sym (append_assoc pre (y ∷ []) (y ∷ (ys ++ post)))) (
                later
                ∙ ap₂ (λ n l. ret (n, l)) (omega arith)
                    (append_assoc pre (y ∷ []) (ys ++ z ∷ post))))),
      )

  -- Item `i` of a list, with what stands before and behind it.
  pub record At (i : ℕ) (xs : List A) : Type ℓ where
    pub before : List A
    pub item : A
    pub behind : List A
    pub splits : xs ≡ before ++ item ∷ behind
    pub place : length before ≡ i

  pub at : (i : ℕ) (xs : List A) → i < length xs → At i xs
  at i [] h = absurd (omega arith)
  at zero (x ∷ xs) h = record { before = []; item = x; behind = xs; splits = refl; place = refl }
  at (suc i) (x ∷ xs) h =
      let r = at i xs (omega arith) in
      record {
        before = x ∷ r.before;
        item = r.item;
        behind = r.behind;
        splits = ap (◌∷◌ x) r.splits;
        place = ap suc r.place;
      }

  module _ (s : Stack A) (v : IsValid s) (i : ℕ) (r : At i (contents s)) where
    whole_items : s.items ≡ r.before ++ (r.item ∷ (r.behind ++ drop s.count s.items))
    whole_items =
        sym (take-append-drop s.count s.items)
        ∙ ap (λ l. l ++ drop s.count s.items) r.splits
        ∙ append_assoc r.before (r.item ∷ r.behind) (drop s.count s.items)

    count_parts : s.count ≡ length r.before + suc (length r.behind)
    count_parts =
        omega (
          arith,
          length-contents s v,
          ap length r.splits,
          length-append r.before (r.item ∷ r.behind),
        )

  -- What is left of a stack whose items in use are `xs`.
  shrunk : Stack A → List A → List A → Stack A
  shrunk s xs post = record s { items = xs ++ post; count = s.count - 1 }

  shrunk_lem :
      (s : Stack A) (xs post : List A)
      → IsValid s
      → length xs + 1 ≡ s.count
      → length post + length xs ≡ length s.items
      → IsValid (shrunk s xs post) × (contents (shrunk s xs post) ≡ xs)
  unfolding shrunk
  shrunk_lem s xs post v n l =
      let e : s.count - 1 ≡ length xs = omega arith in
      (
        record {
          within = omega (arith, v.within);
          whole = omega (arith, length-append xs post, v.whole);
        },
        ap (λ k. take k (xs ++ post)) e ∙ take-append xs post,
      )

  removed_in_order :
      (zeroed : A) (s : Stack A) (i : ℕ) (v : IsValid s) (r : At i (contents s))
      → (s' : Stack A) × (stack_remove_at zeroed s (pos i) ≡ ret (true, s'))
        × (contents s' ≡ r.before ++ r.behind)
        × IsValid s'
  unfolding stack_remove_at shrunk
  removed_in_order zeroed s i v r =
      let post = drop s.count s.items in
      let n = count_parts s v i r in
      let items = whole_items s v i r in
      let (z, moved) = shift-left r.behind r.item r.before post i (sym r.place) in
      let xs = r.before ++ r.behind in
      let rounds : s.count - 1 - i ≡ length r.behind = omega (arith, r.place) in
      let moved' : shift (s.count - 1 - i) i s.items ≡ ret (i + length r.behind, xs ++ z ∷ post) =
        ap₂ (λ k l. shift k i l) rounds items
        ∙ moved
        ∙ ap (λ l. ret (i + length r.behind, l))
            (sym (append_assoc r.before r.behind (z ∷ post))) in
      let cleared =
        put-append xs (z ∷ post) (i + length r.behind) 0 zeroed
          (omega (arith, length-append r.before r.behind, r.place)) (omega arith) in
      let (valid, left) =
        shrunk_lem s xs (zeroed ∷ post) v (omega (arith, length-append r.before r.behind)) (
          omega (
            arith,
            ap length items,
            length-append r.before (r.item ∷ (r.behind ++ post)),
            length-append r.behind post,
            length-append r.before r.behind,
          )) in
      (shrunk s xs (zeroed ∷ post), ground (arith, moved', cleared, n, r.place), left, valid)

  -- On a valid stack stack_remove_at takes the item at an index in use out of the contents and
  -- keeps the order of the others, and returns 1; at any index from the count on it returns 0 and
  -- changes nothing.
  pub stack_remove_at-contents :
      (zeroed : A) (s : Stack A) (i : ℕ)
      → IsValid s
      → ((s.count ≤ i) × (stack_remove_at zeroed s (pos i) ≡ ret (false, s)))
        ⊎ ((r : At i (contents s)) × (s' : Stack A) × (stack_remove_at zeroed s (pos i)
              ≡ ret (true, s'))
            × (contents s' ≡ r.before ++ r.behind)
            × IsValid s')
  stack_remove_at-contents zeroed s i v = elim (dec_lt i s.count) [
    | no out ↦ inl (omega arith, unfold stack_remove_at in ground arith)
    | yes inside ↦
        let r = at i (contents s) (omega (arith, length-contents s v)) in
        let (s', done, left, valid) = removed_in_order zeroed s i v r in
        inr (r, s', done, left, valid)
  ]

  -- The last of a list that is not empty.
  split_last : (y : A) (ys : List A) → (zs : List A) × (l : A) × (y ∷ ys ≡ zs ++ l ∷ [])
  split_last y [] = ([], y, refl)
  split_last y (x ∷ ys) = let (zs, l, e) = split_last x ys in (y ∷ zs, l, ap (◌∷◌ y) e)

  pub list_end : (ys : List A) → (ys ≡ []) ⊎ ((zs : List A) × (l : A) × (ys ≡ zs ++ l ∷ []))
  list_end [] = inl refl
  list_end (y ∷ ys) = inr (split_last y ys)

  -- What `stack_remove_at_fast` leaves: the last item in the place of the one that is gone.
  pub record FastRemoved (i : ℕ) (s s' : Stack A) : Type ℓ where
    pub gone : At i (contents s)
    pub valid : IsValid s'
    pub left :
        ((gone.behind ≡ []) × (contents s' ≡ gone.before))
        ⊎ ((zs : List A) × (l : A) × (gone.behind ≡ zs ++ l ∷ [])
            × (contents s' ≡ gone.before ++ l ∷ zs))

  module _ (zeroed : A) (s : Stack A) (i : ℕ) (v : IsValid s) (r : At i (contents s)) where
    -- The item at the end of the stack goes.
    fast_end :
        r.behind ≡ []
        → (s' : Stack A) × (stack_remove_at_fast zeroed s (pos i) ≡ ret (true, s'))
          × FastRemoved i s s'
    unfolding stack_remove_at_fast shrunk
    fast_end e =
        let post = drop s.count s.items in
        let n = count_parts s v i r in
        let count : s.count ≡ i + 1 = omega (arith, n, r.place, ap length e) in
        let items : s.items ≡ r.before ++ (r.item ∷ post) =
          whole_items s v i r ∙ ap (λ b. r.before ++ (r.item ∷ (b ++ post))) e in
        let last_read : load s.items (s.count - 1) ≡ ret r.item =
          ap (λ b. load b (s.count - 1)) items
          ∙ load-append r.before (r.item ∷ post) (s.count - 1) 0 (omega (arith, r.place)) in
        let same : put s.items i r.item ≡ ret s.items =
          ap (λ b. put b i r.item) items
          ∙ put-append r.before (r.item ∷ post) i 0 r.item (omega (arith, r.place)) (omega arith)
          ∙ ap ret (sym items) in
        let cleared : put s.items (s.count - 1) zeroed ≡ ret (r.before ++ zeroed ∷ post) =
          ap (λ b. put b (s.count - 1) zeroed) items
          ∙ put-append r.before (r.item ∷ post) (s.count - 1) 0 zeroed (omega (arith, r.place))
              (omega arith) in
        let (valid, left) =
          shrunk_lem s r.before (zeroed ∷ post) v (omega (arith, r.place))
            (omega (arith, ap length items, length-append r.before (r.item ∷ post))) in
        (
          shrunk s r.before (zeroed ∷ post),
          ground (arith, last_read, same, cleared, count),
          record { gone = r; valid = valid; left = inl (e, left) },
        )

    -- An item before the end goes, and the last item takes its place.
    fast_middle :
        (zs : List A) (l : A)
        → r.behind ≡ zs ++ l ∷ []
        → (s' : Stack A) × (stack_remove_at_fast zeroed s (pos i) ≡ ret (true, s'))
          × FastRemoved i s s'
    unfolding stack_remove_at_fast shrunk
    fast_middle zs l e =
        let post = drop s.count s.items in
        let n = count_parts s v i r in
        let count : s.count ≡ i + suc (length zs) + 1 =
          omega (arith, n, r.place, ap length e, length-append zs (l ∷ [])) in
        let items : s.items ≡ r.before ++ (r.item ∷ (zs ++ l ∷ post)) =
          whole_items s v i r
          ∙ ap (λ b. r.before ++ (r.item ∷ (b ++ post))) e
          ∙ ap (λ b. r.before ++ (r.item ∷ b)) (append_assoc zs (l ∷ []) post) in
        let last_read : load s.items (s.count - 1) ≡ ret l =
          ap (λ b. load b (s.count - 1)) items
          ∙ load-append r.before (r.item ∷ (zs ++ l ∷ post)) (s.count - 1) (suc (length zs))
              (omega (arith, r.place))
          ∙ load-append (r.item ∷ zs) (l ∷ post) (suc (length zs)) 0 (omega arith) in
        let moved : put s.items i l ≡ ret (r.before ++ (l ∷ (zs ++ l ∷ post))) =
          ap (λ b. put b i l) items
          ∙ put-append r.before (r.item ∷ (zs ++ l ∷ post)) i 0 l (omega (arith, r.place))
              (omega arith) in
        let xs = r.before ++ l ∷ zs in
        let cleared : put (r.before ++ (l ∷ (zs ++ l ∷ post))) (s.count - 1) zeroed
            ≡ ret (xs ++ zeroed ∷ post) =
          ap (λ b. put b (s.count - 1) zeroed) (sym (append_assoc r.before (l ∷ zs) (l ∷ post)))
          ∙ put-append xs (l ∷ post) (s.count - 1) 0 zeroed
              (omega (arith, length-append r.before (l ∷ zs), r.place)) (omega arith) in
        let (valid, left) =
          shrunk_lem s xs (zeroed ∷ post) v
            (omega (arith, length-append r.before (l ∷ zs), r.place))
            (omega (
              arith,
              ap length items,
              length-append r.before (r.item ∷ (zs ++ l ∷ post)),
              length-append zs (l ∷ post),
              length-append r.before (l ∷ zs),
            )) in
        (
          shrunk s xs (zeroed ∷ post),
          ground (arith, last_read, moved, cleared, count),
          record { gone = r; valid = valid; left = inr (zs, l, e, left) },
        )

  -- On a valid stack stack_remove_at_fast takes the item at an index in use out of the contents,
  -- the last item taking its place if it was not the last itself, and returns 1; at any index from
  -- the count on it returns 0 and changes nothing.
  pub stack_remove_at_fast-FastRemoved :
      (zeroed : A) (s : Stack A) (i : ℕ)
      → IsValid s
      → ((s.count ≤ i) × (stack_remove_at_fast zeroed s (pos i) ≡ ret (false, s)))
        ⊎ ((s' : Stack A) × (stack_remove_at_fast zeroed s (pos i) ≡ ret (true, s'))
            × FastRemoved i s s')
  stack_remove_at_fast-FastRemoved zeroed s i v = elim (dec_lt i s.count) [
    | no out ↦ inl (omega arith, unfold stack_remove_at_fast in ground arith)
    | yes inside ↦
        let r = at i (contents s) (omega (arith, length-contents s v)) in
        elim (list_end r.behind) [
          | inl e ↦ inr (fast_end zeroed s i v r e)
          | inr (zs, l, e) ↦ inr (fast_middle zeroed s i v r zs l e)
        ]
  ]
