-- ===== src/Arena/History.antt =====
-- Any history of requests and of writes into the granted blocks.
use dpatch.Prelude.{
  ℕ, zero, suc, ◌+◌, ◌<◌, ◌≤◌, ◌≡◌, ◌≢◌, refl, sym, ap, ◌∙◌, subst, Bool, List, [], ◌∷◌, arith, inl,
  inr, ◌⊎◌, set, get_elem?-set, length-set, ℕ_discrete,
}
use dpatch.Arena.{Arena, null, block, arena_alloc}
use dpatch.Arena.Blocks.{AllPages, used_in, Granted, Outcome}
use dpatch.Arena.Alloc.{arena_alloc-Outcome}

-- `size` bytes at `offset` of page `page`.
pub record Block : Type 0 where
  pub page : ℕ
  pub offset : ℕ
  pub size : ℕ

abbrev pub Disjoint : Block → Block → Type 0
Disjoint a b = (a.page ≢ b.page) ⊎ ((a.offset + a.size ≤ b.offset) ⊎ (b.offset + b.size ≤ a.offset))

abbrev pub DisjointFrom : Block → List Block → Type 0
DisjointFrom b [] = Unit
DisjointFrom b (c ∷ cs) = Disjoint b c × DisjointFrom b cs

abbrev pub AllDisjoint : List Block → Type 0
AllDisjoint [] = Unit
AllDisjoint (b ∷ bs) = DisjointFrom b bs × AllDisjoint bs

-- Each block lies in what its page has handed out.
abbrev pub AllInside : Arena → List Block → Type 0
AllInside arena [] = Unit
AllInside arena (b ∷ bs) = (b.offset + b.size ≤ used_in arena b.page) × AllInside arena bs

abbrev pub Has : Block → List Block → Type 0
Has b [] = ⊥
Has b (c ∷ cs) = (c ≡ b) ⊎ Has b cs

-- A byte of a page is overwritten.
unfoldable pub poke : Arena → ℕ → ℕ → ℕ → Arena
poke [] page at v = []
poke (p ∷ ps) zero at v = record p { region = set p.region at v } ∷ ps
poke (p ∷ ps) (suc page) at v = p ∷ poke ps page at v

-- The arena and the blocks granted so far, newest first.
pub record Heap : Type 0 where
  pub arena : Arena
  pub blocks : List Block

-- A request, granted or answered by NULL, or a write at byte `at` of a granted block.
pub data Step (s t : Heap) : Type 0 where
  grant :
      (granted : Bool) (size k offset : ℕ) (after : Arena)
      → arena_alloc granted s.arena size ≡ (block k offset, after)
      → t ≡ record {
        arena = after;
        blocks = record { page = k; offset = offset; size = size } ∷ s.blocks;
      }
      → Step s t
  refuse :
      (granted : Bool) (size : ℕ) (after : Arena)
      → arena_alloc granted s.arena size ≡ (null, after)
      → t ≡ record { arena = after; blocks = s.blocks }
      → Step s t
  write :
      (b : Block) (at v : ℕ)
      → at < b.size
      → Has b s.blocks
      → t ≡ record { arena = poke s.arena b.page (b.offset + at) v; blocks = s.blocks }
      → Step s t

pub data Reach (s : Heap) : Heap → Type 0 where
  here : Reach s s
  next : {t u : Heap} → Reach s t → Step t u → Reach s u

pub record IsSound (s : Heap) : Type 0 where
  pub pages : AllPages s.arena
  pub inside : AllInside s.arena s.blocks
  pub disjoint : AllDisjoint s.blocks

Granted-mono :
    {size k offset : ℕ} {before after : Arena} (j : ℕ)
    → Granted size before k offset after
    → used_in before j ≤ used_in after j
Granted-mono {k = k} {before = before} {after = after} j g = elim (ℕ_discrete j k) [
  | yes e ↦
      subst (λ i. used_in before i ≤ used_in after i) (sym e)
        (ground (arith, g.at, g.ends, g.later))
  | no h ↦ omega (arith, g.others j h)
]

AllInside-mono :
    (before after : Arena) (blocks : List Block)
    → ((j : ℕ) → used_in before j ≤ used_in after j)
    → AllInside before blocks
    → AllInside after blocks
AllInside-mono before after [] h v = tt
AllInside-mono before after (b ∷ bs) h v =
    (omega (arith, h b.page, v.0), AllInside-mono before after bs h v.1)

Has-inside :
    (arena : Arena) (b : Block) (blocks : List Block)
    → AllInside arena blocks
    → Has b blocks
    → b.offset + b.size ≤ used_in arena b.page
Has-inside arena b [] v h = absurd h
Has-inside arena b (c ∷ cs) v (inl e) =
    subst (λ (x : Block). x.offset + x.size ≤ used_in arena x.page) e v.0
Has-inside arena b (c ∷ cs) v (inr h) = Has-inside arena b cs v.1 h

-- A new block lies apart from all that are inside what was handed out before.
new_apart :
    {size k offset : ℕ} {before after : Arena} (blocks : List Block)
    → Granted size before k offset after
    → AllInside before blocks
    → DisjointFrom (record { page = k; offset = offset; size = size }) blocks
new_apart [] g v = tt
new_apart {k = k} {before = before} (b ∷ bs) g v = (
  elim (ℕ_discrete b.page k) [
    | yes e ↦ inr (inr (omega (arith, v.0, g.later, ap (used_in before) e)))
    | no h ↦ inl (λ e. h (sym e))
  ],
  new_apart bs g v.1,
)

poke-used_in :
    (arena : Arena) (page at v j : ℕ) → used_in (poke arena page at v) j ≡ used_in arena j
unfolding poke
poke-used_in [] page at v j = refl
poke-used_in (p ∷ ps) zero at v zero = refl
poke-used_in (p ∷ ps) zero at v (suc j) = refl
poke-used_in (p ∷ ps) (suc page) at v zero = refl
poke-used_in (p ∷ ps) (suc page) at v (suc j) = poke-used_in ps page at v j

poke-AllPages :
    (arena : Arena) (page at v : ℕ)
    → AllPages arena
    → at < used_in arena page
    → AllPages (poke arena page at v)
unfolding poke
poke-AllPages [] page at v h k = tt
poke-AllPages (p ∷ ps) zero at v (h, hs) k = (
  record {
    fits = h.fits;
    small = h.small;
    whole = length-set p.region at v ∙ h.whole;
    clean = λ j low high.
        ground (
          arith,
          get_elem?-set p.region at j v (omega (arith, h.whole, h.fits)),
          h.clean j low high,
        );
  },
  hs,
)
poke-AllPages (p ∷ ps) (suc page) at v (h, hs) k = (h, poke-AllPages ps page at v hs k)

Step-IsSound : {s t : Heap} → Step s t → IsSound s → IsSound t
Step-IsSound {s} (grant granted size k offset after e t) v =
    let g : Granted size s.arena k offset after =
      subst (Outcome size s.arena) e (arena_alloc-Outcome granted s.arena size v.pages) in
    subst IsSound (sym t) (record {
      pages = g.pages;
      inside = (
        ground (arith, g.at, g.ends),
        AllInside-mono s.arena after s.blocks (λ j. Granted-mono j g) v.inside,
      );
      disjoint = (new_apart s.blocks g v.inside, v.disjoint);
    })
Step-IsSound {s} (refuse granted size after e t) v =
    let same : after ≡ s.arena =
      subst (Outcome size s.arena) e (arena_alloc-Outcome granted s.arena size v.pages) in
    subst IsSound (sym t)
      (subst (λ a. IsSound (record { arena = a; blocks = s.blocks })) (sym same) v)
Step-IsSound {s} (write b at w h has t) v =
    let inside = Has-inside s.arena b s.blocks v.inside has in
    subst IsSound (sym t) (record {
      pages = poke-AllPages s.arena b.page (b.offset + at) w v.pages (omega (arith, inside));
      inside =
          AllInside-mono s.arena (poke s.arena b.page (b.offset + at) w) s.blocks
            (λ j. omega (arith, poke-used_in s.arena b.page (b.offset + at) w j)) v.inside;
      disjoint = v.disjoint;
    })

-- Through any history of requests and of writes into granted blocks, the granted blocks stay
-- inside the used part of their pages and pairwise disjoint, and bytes that no block has been
-- granted stay zero.
pub Reach-IsSound : {s t : Heap} → IsSound s → Reach s t → IsSound t
Reach-IsSound v here = v
Reach-IsSound v (next r st) = Step-IsSound st (Reach-IsSound v r)
