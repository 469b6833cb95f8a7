-- ===== src/Stack.antt =====
-- src/stack.h: an array of `capacity` items of which the first `count` are in use. A `Stack` stands
-- for a non-NULL pointer. Items are only moved, never computed with. `stack_reset` clears
-- bytes of the header, which has no bytes here: it is in Stack/Block.
pub mod Laws
pub mod Remove
pub mod Keep
pub mod Order
pub mod Block
mod Tests
use dpatch.Prelude.{
  ℕ, zero, suc, ◌+◌, ◌-◌, ℤ, pos, negsuc, Bool, true, false, not, List, Option, none, some, ltb,
  leb, if◌then◌else◌,
}
use dpatch.Exec.{Exec, fault, ret, ◌>>=◌, load, put}

pub record Stack {ℓ} (A : Type ℓ) : Type ℓ where
  pub count : ℕ
  pub capacity : ℕ
  pub items : List A

module _ {ℓ} {A : Type ℓ} where
  -- `allocated` says whether MMALLOC gave memory, and `raw` is what stands in the items.
  unfoldable pub stack_new : Bool → List A → ℕ → Option (Stack A)
  stack_new allocated raw capacity =
      if not allocated then none else some (record { count = 0; capacity = capacity; items = raw })

  -- `none` is (size_t)-1.
  unfoldable pub stack_push : Stack A → A → Exec (Option ℕ × Stack A)
  stack_push s item = if leb s.capacity s.count then ret (none, s) else (do
    items ← put s.items s.count item
    ret (some (s.count + 1 - 1), record s { items = items; count = s.count + 1 }))

  -- `zeroed` is an item of zero bytes. The new item is returned, `none` is NULL.
  unfoldable pub stack_push_new : A → Stack A → Exec (Option A × Stack A)
  stack_push_new zeroed s = if leb s.capacity s.count then ret (none, s) else (do
    items ← put s.items s.count zeroed
    ret (some zeroed, record s { items = items; count = s.count + 1 }))

  -- The item stays in the array, behind the new `count`.
  unfoldable pub stack_pop : Stack A → Exec (Option A × Stack A)
  stack_pop s =
      if ltb s.count 1
      then ret (none, s)
      else (do item ← load s.items (s.count - 1); ret (some item, record s { count = s.count - 1 }))

  -- A negative index is a huge `size_t` in the comparison with `count`.
  unfoldable pub stack_get : Stack A → ℤ → Exec (Option A)
  stack_get s (negsuc n) = ret none
  stack_get s (pos i) =
      if leb s.count i then ret none else (do item ← load s.items i; ret (some item))

  -- The loop of `stack_remove_at` with `n` rounds left: each item takes the place of the one before.
  unfoldable pub shift : ℕ → ℕ → List A → Exec (ℕ × List A)
  shift zero i items = ret (i, items)
  shift (suc n) i items = do
    item ← load items (i + 1)
    moved ← put items i item
    shift n (i + 1) moved

  unfoldable pub stack_remove_at : A → Stack A → ℤ → Exec (Bool × Stack A)
  unfolding shift
  stack_remove_at zeroed s (negsuc n) = ret (false, s)
  stack_remove_at zeroed s (pos i) = if leb s.count i then ret (false, s) else (do
    (last, moved) ← shift (s.count - 1 - i) i s.items
    items ← put moved last zeroed
    ret (true, record s { items = items; count = s.count - 1 }))

  -- The copy of the last item over item `i`, when there is more than one.
  unfoldable pub overwrite : Stack A → ℕ → Exec (List A)
  overwrite s i =
      if ltb 1 s.count
      then (do last ← load s.items (s.count - 1); put s.items i last)
      else ret s.items

  unfoldable pub stack_remove_at_fast : A → Stack A → ℤ → Exec (Bool × Stack A)
  unfolding overwrite
  stack_remove_at_fast zeroed s (negsuc n) = ret (false, s)
  stack_remove_at_fast zeroed s (pos i) = if leb s.count i then ret (false, s) else (do
    moved ← overwrite s i
    items ← put moved (s.count - 1) zeroed
    ret (true, record s { items = items; count = s.count - 1 }))
