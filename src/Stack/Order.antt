-- ===== src/Stack/Order.antt =====
-- The two removals of src/stack.h leave the same items, in another order.
use dpatch.Prelude.{
  ℕ, ◌≡◌, ◌∙◌, refl, sym, ap, subst, dec_lt, inl, inr, ℤ, pos, negsuc, Bool, true, false, List, [],
  ◌∷◌, ◌++◌, append-nil, length, arith,
}
use mathlib.Core.List.{Perm, perm_middle}
use mathlib.Core.List.Perm
use mathlib.Core.Quot.{sound}
use mathlib.Mathlib.Data.Multiset.Defs.{Multiset, of_list}
use dpatch.Exec.{ret}
use dpatch.Stack.{Stack, stack_remove_at, stack_remove_at_fast}
use dpatch.Stack.Laws.{IsValid, contents}
use dpatch.Stack.Remove.{
  At, FastRemoved, stack_remove_at-contents, stack_remove_at_fast-FastRemoved,
}

module _ {ℓ} {A : Type ℓ} where
  -- The items in use, whatever their order.
  abbrev pub bag : Stack A → Multiset A
  bag s = of_list (contents s)

  -- A place splits a list in one way.
  split_unique :
      (before before' : List A) (item item' : A) (behind behind' : List A)
      → length before ≡ length before'
      → before ++ item ∷ behind ≡ before' ++ item' ∷ behind'
      → (before ≡ before') × (behind ≡ behind')
  split_unique [] [] item item' behind behind' n e = (refl, cc e)
  split_unique [] (y ∷ ys) item item' behind behind' n e = absurd (omega (arith, n))
  split_unique (x ∷ xs) [] item item' behind behind' n e = absurd (omega (arith, n))
  split_unique (x ∷ xs) (y ∷ ys) item item' behind behind' n e =
      let first : x ≡ y = cc e in
      let (b, e') = split_unique xs ys item item' behind behind' (omega (arith, n)) (cc e) in
      (cc (first, b), e')

  At_unique :
      (i : ℕ) (xs : List A) (r r' : At i xs) → (r.before ≡ r'.before) × (r.behind ≡ r'.behind)
  At_unique i xs r r' =
      split_unique r.before r'.before r.item r'.item r.behind r'.behind (r.place ∙ sym r'.place)
        (sym r.splits ∙ r'.splits)

  -- The last item in the gap, or behind the others.
  last_moves : (before zs : List A) (l : A) → Perm (before ++ (zs ++ l ∷ [])) (before ++ l ∷ zs)
  last_moves before zs l =
      Perm.append_left before
        (subst (λ k. Perm (zs ++ l ∷ []) (l ∷ k)) (append-nil zs) (perm_middle zs []))

  -- On a valid stack and at any index, negative ones included, stack_remove_at_fast and
  -- stack_remove_at return the same status and leave the same items in use, whatever their order.
  pub stack_remove_at_fast-same_bag :
      (zeroed : A) (s : Stack A) (i : ℤ)
      → IsValid s
      → (removed : Bool) × (s1 : Stack A) × (s2 : Stack A) × (stack_remove_at zeroed s i
          ≡ ret (removed, s1))
        × (stack_remove_at_fast zeroed s i ≡ ret (removed, s2))
        × (bag s1 ≡ bag s2)
  unfolding stack_remove_at stack_remove_at_fast
  stack_remove_at_fast-same_bag zeroed s (negsuc n) v = (false, s, s, refl, refl, refl)
  stack_remove_at_fast-same_bag zeroed s (pos i) v = elim (dec_lt i s.count) [
    | no out ↦ (false, s, s, ground (arith, out), ground (arith, out), refl)
    | yes inside ↦ elim (stack_remove_at-contents zeroed s i v) [
      | inl (out, e) ↦ absurd (omega (arith, out, inside))
      | inr (r, s1, e, left, valid) ↦ elim (stack_remove_at_fast-FastRemoved zeroed s i v) [
        | inl (out, e') ↦ absurd (omega (arith, out, inside))
        | inr (s2, e', f) ↦ (true, s1, s2, e, e', same r s1 left s2 f)
      ]
    ]
  ]
    where
      same :
          (r : At i (contents s)) (s1 : Stack A)
          → contents s1 ≡ r.before ++ r.behind
          → (s2 : Stack A) → FastRemoved i s s2
          → bag s1 ≡ bag s2
      same r s1 left s2 f =
          let (b, e) = At_unique i (contents s) r f.gone in
          elim f.left [
            | inl (last, left') ↦ ap of_list (cc (left, left', b, e, last, append-nil r.before))
            | inr (zs, l, last, left') ↦
                ap of_list (cc (left, b, e, last))
                ∙ sound (last_moves f.gone.before zs l)
                ∙ ap of_list (sym left')
          ]
