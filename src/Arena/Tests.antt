-- ===== src/Arena/Tests.antt =====
-- The runs of tests/test_arena.c, and the laws at such arenas.
use dpatch.Prelude.{◌≡◌, refl, true, false, [], ◌∷◌, some, arith, length, pos, inl}
use dpatch.Arena.{Page, Arena, Grant, null, exited, block, arena_init, arena_alloc, arena_free}
use dpatch.Arena.Blocks.{AllPages, Outcome}
use dpatch.Arena.Alloc.{arena_alloc-Outcome}
use dpatch.Arena.History.{Block, Heap, Step, Reach, IsSound, Reach-IsSound}
use dpatch.Arena.Init.{
  chain, KeepsLocked, IsBlock, arena_alloc-KeepsLocked, arena_alloc-IsBlock, chain-AllPages,
}

-- One locked page of 4 bytes.
abbrev locked : Arena
locked = chain 0 4 true

locked-AllPages : AllPages locked
locked-AllPages = chain-AllPages 0 4 true (omega arith)

-- arena_init(4, 1, 1): a request above the page size is refused, the whole page is granted once.
locked_requests :
    (arena_init (λ _. true) 4 (pos 1) true ≡ some locked)
    × ((arena_alloc true locked 8).0 ≡ null)
    × ((arena_alloc true locked 4).0 ≡ block 0 0)
    × ((arena_alloc true (arena_alloc true locked 4).1 4).0 ≡ null)
    × ((arena_free locked).1 ≡ [])
unfolding arena_init arena_alloc arena_free
locked_requests = (refl, refl, refl, refl, refl)

-- arena_init(4, 0, 0): a page is added when the first is full.
open_requests :
    let after = (arena_alloc true (arena_alloc true (chain 0 4 false) 2).1 2).1 in
    (length after ≡ 1) × ((arena_alloc true after 2).0 ≡ block 1 0)
unfolding arena_alloc
open_requests = (refl, refl)

arena_alloc-Outcome_example : Outcome 3 locked (arena_alloc true locked 3)
arena_alloc-Outcome_example = arena_alloc-Outcome true locked 3 locked-AllPages

arena_alloc-KeepsLocked_example : KeepsLocked locked (arena_alloc true locked 3)
arena_alloc-KeepsLocked_example = arena_alloc-KeepsLocked true locked 3 refl

arena_alloc-IsBlock_example : IsBlock (arena_alloc true (chain 0 4 false) 3).0
arena_alloc-IsBlock_example =
    arena_alloc-IsBlock (record { size = 4; current = 0; eom = false; region = 0 ∷ 0 ∷ 0 ∷ 0 ∷ [] })
      [] 3 refl (omega arith)

abbrev start : Heap
start = record { arena = locked; blocks = [] }

start-IsSound : IsSound start
start-IsSound = record { pages = locked-AllPages; inside = tt; disjoint = tt }

-- Three bytes are granted and the second of them is written.
abbrev granted_three : Heap
granted_three = record {
  arena = record { size = 4; current = 3; eom = true; region = 0 ∷ 0 ∷ 0 ∷ 0 ∷ [] } ∷ [];
  blocks = record { page = 0; offset = 0; size = 3 } ∷ [];
}

abbrev written : Heap
written = record granted_three {
  arena = record { size = 4; current = 3; eom = true; region = 0 ∷ 9 ∷ 0 ∷ 0 ∷ [] } ∷ [];
}

start-written : Reach start written
unfolding arena_alloc dpatch.Arena.History.poke
start-written =
    Reach.next
      (Reach.next Reach.here (
        Step.grant true 3 0 0
          (record { size = 4; current = 3; eom = true; region = 0 ∷ 0 ∷ 0 ∷ 0 ∷ [] } ∷ []) refl
          refl))
      (Step.write (record { page = 0; offset = 0; size = 3 }) 1 9 (omega arith) (inl refl) refl)

Reach-IsSound_example : IsSound written
Reach-IsSound_example = Reach-IsSound start-IsSound start-written
