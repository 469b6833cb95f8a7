-- ===== src/Store/Tests.antt =====
-- Runs of store.h on small stores, as in tests/test_store.c, and the laws at such stores.
use dpatch.Prelude.{
  ℕ, zero, suc, ◌<◌, ◌≡◌, ◌≢◌, ◌==◌, refl, true, false, List, [], ◌∷◌, Option, ◌⊎◌, none, some,
  arith, if◌then◌else◌, take, occurrences, pos,
}
use dpatch.Exec.{Exec, ret, ◌>>=◌}
use dpatch.Store.{
  Store, store_new, store_push, store_push_empty, store_is_used, store_remove_at, store_reset,
}
use dpatch.Store.Valid.{free_at, item_at, IsValid}
use dpatch.Store.Push.{Pushed, store_push-cases}
use dpatch.Store.Access.{Changed, store_is_used-item_at}
use dpatch.Store.Remove.{store_remove_at-cases, store_push-store_remove_at}
use dpatch.Store.Reset.{IsBase, store_reset-IsBase}

-- Keys 0 and 1 are used, 2 is open.
abbrev demo : Store ℕ
demo = record {
  capacity = 3;
  open_cnt = 1;
  open_slots = 2 ∷ 1 ∷ 0 ∷ [];
  slots =
      record { used = true; value = 7 }
      ∷ record { used = true; value = 8 }
      ∷ record { used = false; value = 0 }
      ∷ [];
}

abbrev without_1 : Store ℕ
without_1 = record demo {
  open_cnt = 2;
  open_slots = 2 ∷ 1 ∷ 0 ∷ [];
  slots =
      record { used = true; value = 7 }
      ∷ record { used = false; value = 8 }
      ∷ record { used = false; value = 0 }
      ∷ [];
}

demo-balance : (j : ℕ) → occurrences j (take demo.open_cnt demo.open_slots) ≡ free_at demo.slots j
demo-balance zero = refl
demo-balance (suc zero) = refl
demo-balance (suc (suc zero)) = refl
demo-balance (suc (suc (suc j))) = ground arith

demo-IsValid : IsValid demo
demo-IsValid = record {
  slots_length = refl;
  open_length = refl;
  balance = demo-balance;
  total = refl;
}

abbrev fresh : Store ℕ
fresh = record {
  capacity = 3;
  open_cnt = 3;
  open_slots = 2 ∷ 1 ∷ 0 ∷ [];
  slots =
      record { used = false; value = 0 }
      ∷ record { used = false; value = 0 }
      ∷ record { used = false; value = 0 }
      ∷ [];
}

store_new-fresh : store_new {A = ℕ} 0 true (5 ∷ 5 ∷ 5 ∷ []) 3 ≡ ret (some fresh)
unfolding store_new
store_new-fresh = refl

abbrev pushes : Store ℕ → Exec (List (Option (ℕ × ℕ)))
pushes s = do
  (a, s1) ← store_push s 10
  (b, s2) ← store_push_empty 0 s1
  (c, s3) ← store_push s2 30
  (d, s4) ← store_push s3 40
  (done, s5) ← store_remove_at s4 (pos 1)
  (e, s6) ← store_push s5 50
  ret (a ∷ b ∷ c ∷ d ∷ e ∷ [])

-- A fresh store of three slots gives the keys 0, 1, 2, and then none; a removed slot is reused.
pushes-fresh :
    pushes fresh ≡ ret (some (0, 10) ∷ some (1, 0) ∷ some (2, 30) ∷ none ∷ some (1, 50) ∷ [])
unfolding store_push store_push_empty store_remove_at
pushes-fresh = refl

store_push-cases_example :
    ((store_push demo 9 ≡ ret (none, demo)) × ((j : ℕ) → j < 3 → item_at demo j ≢ none))
    ⊎ ((k : ℕ) × (s' : Store ℕ) × (store_push demo 9 ≡ ret (some (k, 9), s')) × Pushed demo 9 k s')
store_push-cases_example = store_push-cases demo 9 demo-IsValid

store_is_used-item_at_example : store_is_used demo (pos 2) ≡ ret false
store_is_used-item_at_example = store_is_used-item_at demo 2 demo-IsValid (omega arith)

store_remove_at-cases_example :
    ((item_at demo 1 ≡ none) × (store_remove_at demo (pos 1) ≡ ret (false, demo)))
    ⊎ ((old : ℕ) × (s' : Store ℕ) × (item_at demo 1 ≡ some old)
        × (store_remove_at demo (pos 1) ≡ ret (true, s'))
        × Changed demo 1 none s')
store_remove_at-cases_example = store_remove_at-cases demo 1 demo-IsValid

remove_1 : store_remove_at demo (pos 1) ≡ ret (true, without_1)
unfolding store_remove_at
remove_1 = refl

store_push-store_remove_at_example :
    (t : Store ℕ) × (store_push without_1 9 ≡ ret (some (1, 9), t))
    × ((j : ℕ) → item_at t j ≡ (if j == 1 then some 9 else item_at demo j))
store_push-store_remove_at_example = store_push-store_remove_at demo 1 9 demo-IsValid remove_1

store_reset-IsBase_example : (s' : Store ℕ) × (store_reset 0 demo ≡ ret s') × IsBase 0 3 s'
store_reset-IsBase_example = store_reset-IsBase 0 demo demo-IsValid
