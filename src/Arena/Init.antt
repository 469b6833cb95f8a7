-- ===== src/Arena/Init.antt =====
-- `arena_init`, and what a locked arena can hold.
use dpatch.Prelude.{
  ℕ, zero, suc, ◌+◌, ◌-◌, ◌^◌, ◌<◌, ◌≤◌, ◌≡◌, ◌≢◌, refl, ap, Bool, true, false, [], ◌∷◌, some, ltb,
  if◌then◌else◌, length, arith, Bool-cases, inl, inr, ℤ, pos, negsuc,
}
use dpatch.Arena.{
  Page, Arena, Grant, null, exited, block, behind, has_room, reserve, arena_create, preallocate,
  arena_init, walk, arena_alloc,
}
use dpatch.Arena.Blocks.{IsPage, AllPages}
use dpatch.Arena.Alloc.{fresh, fresh-IsPage}

-- The last page says that no page may be added.
abbrev pub IsLocked : Arena → Type 0
IsLocked [] = ⊥
IsLocked (p ∷ []) = p.eom ≡ true
IsLocked (p ∷ q ∷ rest) = IsLocked (q ∷ rest)

-- The chain that `arena_init` makes: `n + 1` empty pages of one size.
abbrev pub chain : ℕ → ℕ → Bool → Arena
chain zero size last = record (fresh size) { eom = last } ∷ []
chain (suc n) size last = fresh size ∷ chain n size last

pub chain-AllPages : (n size : ℕ) (last : Bool) → size < 2 ^ 63 → AllPages (chain n size last)
chain-AllPages zero size last h = (fresh_last, tt)
  where
    fresh_last : IsPage (record (fresh size) { eom = last })
    fresh_last =
        let v = fresh-IsPage size h in
        record { fits = v.fits; small = v.small; whole = v.whole; clean = v.clean }
chain-AllPages (suc n) size last h = (fresh-IsPage size h, chain-AllPages n size last h)

-- Every malloc up to page `n` is answered.
abbrev pub AllGranted : ℕ → ℕ → (ℕ → Bool) → Type 0
AllGranted i zero granted = Unit
AllGranted i (suc n) granted = (granted i ≡ true) × AllGranted (i + 1) n granted

preallocate-chain :
    (n : ℕ) (granted : ℕ → Bool) (i size : ℕ) (lock : Bool)
    → AllGranted i n granted
    → preallocate n granted i size lock (fresh size) ≡ some (chain n size lock)
unfolding preallocate arena_create
preallocate-chain zero granted i size true h = refl
preallocate-chain zero granted i size false h = refl
preallocate-chain (suc n) granted i size lock (h, hs) =
    ground (arith, h, preallocate-chain n granted (i + 1) size lock hs)

-- How many pages `arena_init` makes, and whether the last is locked: a count below 1 counts as one
-- page, and leaves it open.
abbrev pub pages_behind_root : ℤ → ℕ
pages_behind_root (pos n) = n - 1
pages_behind_root (negsuc n) = 0

abbrev pub locks : ℤ → Bool → Bool
locks (pos n) lock = if ltb 0 n then lock else false
locks (negsuc n) lock = false

-- With memory granted for each page, arena_init makes a chain of as many empty pages as the count
-- says, one if the count is below 1, each of the given size and well formed, and locks the last
-- exactly when the count is positive and the lock is asked for.
pub arena_init-chain :
    (granted : ℕ → Bool) (size : ℕ) (count : ℤ) (lock : Bool)
    → size < 2 ^ 63
    → AllGranted 0 (suc (pages_behind_root count)) granted
    → (arena_init granted size count lock
        ≡ some (chain (pages_behind_root count) size (locks count lock)))
      × AllPages (chain (pages_behind_root count) size (locks count lock))
unfolding arena_init
arena_init-chain granted size (negsuc n) lock h (g, gs) =
    (ground (arith, g), chain-AllPages 0 size false h)
arena_init-chain granted size (pos zero) lock h (g, gs) =
    (ground arith, chain-AllPages (0 - 1) size false h)
arena_init-chain granted size (pos (suc n)) lock h (g, gs) = (
  ground (arith, preallocate-chain (suc n - 1) granted 1 size lock gs),
  chain-AllPages (suc n - 1) size (locks (pos (suc n)) lock) h,
)

-- What a locked chain keeps: its pages are as many, and it stays locked.
abbrev pub KeepsLocked : Arena → Grant × Arena → Type 0
KeepsLocked before r = IsLocked r.1 × (length r.1 ≡ length before) × (r.0 ≢ exited)

reserve-IsLocked :
    (page : Page) (rest : Arena) (size : ℕ)
    → IsLocked (page ∷ rest)
    → IsLocked (reserve page size ∷ rest)
reserve-IsLocked page [] size h = h
reserve-IsLocked page (next ∷ rest) size h = h

behind-KeepsLocked :
    (page next : Page) (rest : Arena) (r : Grant × Arena)
    → KeepsLocked (next ∷ rest) r
    → KeepsLocked (page ∷ next ∷ rest) (behind page r)
behind-KeepsLocked page next rest (null, []) k = absurd k.0
behind-KeepsLocked page next rest (null, p ∷ ps) k = (k.0, ap suc k.1, λ e. cc)
behind-KeepsLocked page next rest (exited, ps) k = absurd (k.2 refl)
behind-KeepsLocked page next rest (block i o, []) k = absurd k.0
behind-KeepsLocked page next rest (block i o, p ∷ ps) k = (k.0, ap suc k.1, λ e. cc)

walk-KeepsLocked :
    (granted : Bool) (size : ℕ) (page : Page) (rest : Arena)
    → IsLocked (page ∷ rest)
    → KeepsLocked (page ∷ rest) (walk granted size page rest)
unfolding walk
walk-KeepsLocked granted size page [] h = elim (Bool-cases (has_room page size)) [
  | inl room ↦ rw room (h, refl, λ e. cc)
  | inr full ↦ rw full (simp h (refl, refl, λ e. cc))
]
walk-KeepsLocked granted size page (next ∷ rest) h = elim (Bool-cases (has_room page size)) [
  | inl room ↦ rw room (reserve-IsLocked page (next ∷ rest) size h, refl, λ e. cc)
  | inr full ↦ rw full (
      behind-KeepsLocked page next rest (walk granted size next rest)
        (walk-KeepsLocked granted size next rest h))
]

-- A locked arena keeps its number of pages and its lock through every request, whatever malloc
-- would answer, and no request exits the process.
pub arena_alloc-KeepsLocked :
    (granted : Bool) (arena : Arena) (size : ℕ)
    → IsLocked arena
    → KeepsLocked arena (arena_alloc granted arena size)
unfolding arena_alloc
arena_alloc-KeepsLocked granted [] size h = absurd h
arena_alloc-KeepsLocked granted (root ∷ rest) size h = elim (Bool-cases (ltb root.size size)) [
  | inl large ↦ rw large (h, refl, λ e. cc)
  | inr fits ↦ rw fits (walk-KeepsLocked granted size root rest h)
]

-- The last page lets a page be added.
abbrev pub IsOpen : Arena → Type 0
IsOpen [] = ⊥
IsOpen (p ∷ []) = p.eom ≡ false
IsOpen (p ∷ q ∷ rest) = IsOpen (q ∷ rest)

abbrev pub IsBlock : Grant → Type 0
IsBlock (block k offset) = Unit
IsBlock _ = ⊥

behind-IsBlock : (page : Page) (r : Grant × Arena) → IsBlock r.0 → IsBlock (behind page r).0
behind-IsBlock page (null, ps) h = h
behind-IsBlock page (exited, ps) h = absurd h
behind-IsBlock page (block k o, ps) h = tt

walk-IsBlock :
    (size : ℕ) (page : Page) (rest : Arena)
    → IsOpen (page ∷ rest)
    → IsBlock (walk true size page rest).0
unfolding walk
walk-IsBlock size page [] h = elim (Bool-cases (has_room page size)) [
  | inl room ↦ rw room tt
  | inr full ↦ rw full (simp h tt)
]
walk-IsBlock size page (next ∷ rest) h = elim (Bool-cases (has_room page size)) [
  | inl room ↦ rw room tt
  | inr full ↦
      rw full (behind-IsBlock page (walk true size next rest) (walk-IsBlock size next rest h))
]

-- An arena that is not locked grants every request up to the size of its root page, if malloc
-- grants memory.
pub arena_alloc-IsBlock :
    (root : Page) (rest : Arena) (size : ℕ)
    → IsOpen (root ∷ rest)
    → size ≤ root.size
    → IsBlock (arena_alloc true (root ∷ rest) size).0
unfolding arena_alloc
arena_alloc-IsBlock root rest size h fits =
    let e : ltb root.size size ≡ false = ground arith in rw e (walk-IsBlock size root rest h)
