-- ===== src/Arena.antt =====
-- src/arena.h: an allocator that hands out regions of a chain of pages and frees all at once.
pub mod Blocks
pub mod Alloc
pub mod History
pub mod Init
mod Tests
use dpatch.Prelude.{
  ℕ, zero, suc, ◌+◌, ◌-◌, ◌%◌, ◌^◌, ℤ, pos, negsuc, Bool, true, false, not, List, [], ◌∷◌, Option,
  none, some, ltb, leb, ◌==◌, if◌then◌else◌, replicate,
}
use dpatch.Memory.{Bytes}

-- `ArenaAllocator`. `next` is the rest of the list of pages, and `region` the bytes of the page.
pub record Page : Type 0 where
  pub size : ℕ
  pub current : ℕ
  pub eom : Bool
  pub region : Bytes

-- `__arena_root` and the pages behind it; the empty list is NULL.
abbrev pub Arena : Type 0
Arena = List Page

-- `granted` says whether malloc gave memory.
unfoldable pub arena_create : Bool → ℕ → Option Page
arena_create granted size =
    if not granted
    then none
    else some (record { size = size; current = 0; eom = false; region = replicate size 0 })

-- The loop of `arena_init` at page number `i`, with `n` pages to add. `none` means that the process
-- has freed the arena and exited.
unfoldable pub preallocate : ℕ → (ℕ → Bool) → ℕ → ℕ → Bool → Page → Option Arena
preallocate zero granted i size lock page =
    some ((if lock then record page { eom = true } else page) ∷ [])
preallocate (suc n) granted i size lock page = elim (arena_create (granted i) size) [
  | none ↦ none
  | some next ↦ elim (preallocate n granted (i + 1) size lock next) [
    | none ↦ none
    | some pages ↦ some (page ∷ pages)
  ]
]

-- `granted i` is the answer of the malloc of page `i`.
unfoldable pub arena_init : (ℕ → Bool) → ℕ → ℤ → Bool → Option Arena
unfolding preallocate arena_create
arena_init granted size (negsuc n) lock = elim (arena_create (granted 0) size) [
  | none ↦ none
  | some root ↦ some (root ∷ [])
]
arena_init granted size (pos n) lock = elim (arena_create (granted 0) size) [
  | none ↦ none
  | some root ↦ if ltb 0 n then preallocate (n - 1) granted 1 size lock root else some (root ∷ [])
]

-- What `arena_alloc` comes to: NULL, the exit of the process, or the region at an offset of a page.
pub data Grant : Type 0 where
  null exited : Grant
  block : ℕ → ℕ → Grant

-- What the pages behind `page` came to, seen from `page`.
abbrev pub behind : Page → Grant × Arena → Grant × Arena
behind page (null, pages) = (null, page ∷ pages)
behind page (exited, pages) = (exited, [])
behind page (block k offset, pages) = (block (suc k) offset, page ∷ pages)

-- `size_t` addition
abbrev pub add_size : ℕ → ℕ → ℕ
add_size used more = (used + more) % 2 ^ 64

abbrev pub has_room : Page → ℕ → Bool
has_room page size = leb (add_size page.current size) page.size

abbrev pub reserve : Page → ℕ → Page
reserve page size = record page { current = add_size page.current size }

-- The loop of `arena_alloc` from a page on; pages count from that page. A page that is added has
-- the size of the request, and the next round finds room in it.
unfoldable pub walk : Bool → ℕ → Page → Arena → Grant × Arena
unfolding arena_create
walk granted size page [] =
    if has_room page size
    then (block 0 page.current, reserve page size ∷ [])
    else if page.eom
    then (null, page ∷ [])
    else elim (arena_create granted size) [
      | none ↦ (exited, [])
      | some added ↦ (block 1 added.current, page ∷ reserve added size ∷ [])
    ]
walk granted size page (next ∷ rest) =
    let found = walk granted size next rest in
    if has_room page size
    then (block 0 page.current, reserve page size ∷ next ∷ rest)
    else behind page found

unfoldable pub arena_alloc : Bool → Arena → ℕ → Grant × Arena
unfolding walk
arena_alloc granted [] size = (null, [])
arena_alloc granted (root ∷ rest) size =
    if ltb root.size size then (null, root ∷ rest) else walk granted size root rest

-- `true` is ARENA_OK, `false` is ARENA_NULL.
unfoldable pub arena_free : Arena → Bool × Arena
arena_free [] = (false, [])
arena_free (root ∷ rest) = (true, [])
