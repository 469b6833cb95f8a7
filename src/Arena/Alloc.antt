-- ===== src/Arena/Alloc.antt =====
-- `arena_alloc`: what it grants, and when it refuses.
use dpatch.Prelude.{
  ℕ, zero, suc, ◌^◌, ◌<◌, ◌≡◌, ◌≢◌, refl, Bool, true, false, [], ◌∷◌, ltb, replicate,
  length-replicate, arith, Bool-cases, inl, inr, get_elem?-replicate,
}
use dpatch.Arena.{Page, Arena, block, reserve, has_room, walk, arena_alloc}
use dpatch.Arena.Blocks.{
  IsPage, AllPages, used_in, Granted, Outcome, reserve-Granted, behind-Outcome,
}

abbrev pub fresh : ℕ → Page
fresh size = record { size = size; current = 0; eom = false; region = replicate size 0 }

pub fresh-IsPage : (size : ℕ) → size < 2 ^ 63 → IsPage (fresh size)
fresh-IsPage size small = record {
  fits = omega arith;
  small = small;
  whole = length-replicate size 0;
  clean = λ j h k. get_elem?-replicate size j 0 k;
}

-- A page added for the request, behind the last one.
added-Granted :
    (p : Page) (size : ℕ)
    → IsPage p
    → size < 2 ^ 63
    → Granted size (p ∷ []) 1 0 (p ∷ reserve (fresh size) size ∷ [])
added-Granted p size v small =
    let room : has_room (fresh size) size ≡ true = ground arith in
    let g = reserve-Granted (fresh size) [] size (fresh-IsPage size small) tt small room in
    behind-Outcome p size [] (block 0 0, reserve (fresh size) size ∷ []) v
      (record {
        page = g.page;
        at = g.at;
        ends = g.ends;
        within = g.within;
        later = omega arith;
        zeroed = g.zeroed;
        others = λ j. elim j as (λ i. i ≢ 0 → used_in (reserve (fresh size) size ∷ []) i ≡ 0) [
          | zero ↦ λ h. absurd (h refl)
          | suc i ↦ λ h. refl
        ];
        pages = g.pages;
      })

walk-Outcome :
    (granted : Bool) (size : ℕ) (page : Page) (rest : Arena)
    → IsPage page
    → AllPages rest
    → size < 2 ^ 63
    → Outcome size (page ∷ rest) (walk granted size page rest)
unfolding walk
walk-Outcome granted size page [] v vs small = elim (Bool-cases (has_room page size)) [
  | inl room ↦ rw room (reserve-Granted page [] size v tt small room)
  | inr full ↦ rw full (elim (Bool-cases page.eom) [
    | inl last ↦ simp last refl
    | inr more ↦ simp more (elim (Bool-cases granted) [
      | inl yes_given ↦ rw yes_given (added-Granted page size v small)
      | inr refused ↦ rw refused refl
    ])
  ])
]
walk-Outcome granted size page (next ∷ rest) v vs small = elim (Bool-cases (has_room page size)) [
  | inl room ↦ rw room (reserve-Granted page (next ∷ rest) size v vs small room)
  | inr full ↦ rw full (
      behind-Outcome page size (next ∷ rest) (walk granted size next rest) v
        (walk-Outcome granted size next rest vs.0 vs.1 small))
]

-- On well-formed pages arena_alloc either grants bytes that are zero, lie inside one page and
-- behind all that was handed out of it, leaving the use of every other page as it was, or returns
-- NULL and changes nothing, or exits with the arena freed.
pub arena_alloc-Outcome :
    (granted : Bool) (arena : Arena) (size : ℕ)
    → AllPages arena
    → Outcome size arena (arena_alloc granted arena size)
unfolding arena_alloc
arena_alloc-Outcome granted [] size vs = refl
arena_alloc-Outcome granted (root ∷ rest) size (v, vs) = elim (Bool-cases (ltb root.size size)) [
  | inl large ↦ rw large refl
  | inr fits ↦ rw fits (walk-Outcome granted size root rest v vs (ground (arith, v.small)))
]
