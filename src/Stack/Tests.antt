-- ===== src/Stack/Tests.antt =====
-- Runs of stack.h, and the laws at small stacks.
use dpatch.Prelude.{
  ℕ, replicate, ◌≤◌, ◌≡◌, refl, Bool, true, false, [], ◌∷◌, ◌++◌, arith, none, some, pos, negsuc,
  ◌⊎◌,
}
use dpatch.Exec.{ret}
use dpatch.Stack.{Stack, stack_push, stack_remove_at, stack_remove_at_fast}
use dpatch.Memory.{Bytes}
use dpatch.Stack.Block.{read_bytes, stack_reset}
use dpatch.Stack.Block.Reset.{stack_reset-blanked}
use dpatch.Stack.Laws.{IsValid, contents, stack_push-contents}
use dpatch.Stack.Remove.{At, stack_remove_at-contents}
use dpatch.Stack.Order.{bag, stack_remove_at_fast-same_bag}

abbrev demo : Stack ℕ
demo = record { count = 3; capacity = 4; items = 5 ∷ 6 ∷ 7 ∷ 9 ∷ [] }

demo-IsValid : IsValid demo
demo-IsValid = omega arith

removed_in_the_middle :
    (stack_remove_at 0 demo (pos 0)
      ≡ ret (true, record { count = 2; capacity = 4; items = 6 ∷ 7 ∷ 0 ∷ 9 ∷ [] }))
    × (stack_remove_at_fast 0 demo (pos 0)
        ≡ ret (true, record { count = 2; capacity = 4; items = 7 ∷ 6 ∷ 0 ∷ 9 ∷ [] }))
    × (stack_remove_at 0 demo (negsuc 0) ≡ ret (false, demo))
unfolding stack_remove_at stack_remove_at_fast
removed_in_the_middle = (refl, refl, refl)

stack_push-contents_example :
    (◌≡◌ {A = ℕ} 3 4 × (stack_push demo 8 ≡ ret (none, demo)))
    ⊎ ((s' : Stack ℕ) × (stack_push demo 8 ≡ ret (some 3, s'))
        × (contents s' ≡ 5 ∷ 6 ∷ 7 ∷ 8 ∷ [])
        × (s'.capacity ≡ 4)
        × IsValid s')
stack_push-contents_example = stack_push-contents demo 8 demo-IsValid

stack_remove_at-contents_example :
    ((3 ≤ 1) × (stack_remove_at 0 demo (pos 1) ≡ ret (false, demo)))
    ⊎ ((r : At 1 (contents demo)) × (s' : Stack ℕ) × (stack_remove_at 0 demo (pos 1)
          ≡ ret (true, s'))
        × (contents s' ≡ r.before ++ r.behind)
        × IsValid s')
stack_remove_at-contents_example = stack_remove_at-contents 0 demo 1 demo-IsValid

stack_remove_at_fast-same_bag_example :
    (removed : Bool) × (s1 : Stack ℕ) × (s2 : Stack ℕ) × (stack_remove_at 0 demo (pos 0)
      ≡ ret (removed, s1))
    × (stack_remove_at_fast 0 demo (pos 0) ≡ ret (removed, s2))
    × (bag s1 ≡ bag s2)
stack_remove_at_fast-same_bag_example = stack_remove_at_fast-same_bag 0 demo (pos 0) demo-IsValid

-- The block of a stack of three items of eight bytes, two of which are in use.
abbrev block : Bytes
block =
    2 ∷ replicate 7 0
    ++ 3 ∷ replicate 7 0
    ++ 8 ∷ replicate 7 0
    ++ replicate 8 0x55
    ++ replicate 24 7

stack_reset-blanked_example :
    stack_reset block
    ≡ ret (true, replicate 16 0 ++ 8 ∷ replicate 7 0 ++ replicate 8 0x55 ++ replicate 24 7)
unfolding read_bytes
stack_reset-blanked_example =
    stack_reset-blanked block 2 8 refl refl (omega arith) (omega arith) (omega arith)
