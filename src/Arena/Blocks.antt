-- ===== src/Arena/Blocks.antt =====
-- Pages that are well formed, and what it means that a page and offset were granted.
use dpatch.Prelude.{
  ℕ, zero, suc, ◌+◌, ◌^◌, ◌<◌, ◌≤◌, ◌≡◌, ◌≢◌, refl, ap, true, [], ◌∷◌, none, some, length,
  get_elem?, arith,
}
use dpatch.Arena.{Page, Arena, Grant, null, exited, block, reserve, has_room, behind, add_size}

-- Bytes behind `current` are still zero.
pub record IsPage (p : Page) : Type 0 where
  pub fits : p.current ≤ p.size
  pub small : p.size < 2 ^ 63
  pub whole : length p.region ≡ p.size
  pub clean : (j : ℕ) → p.current ≤ j → j < p.size → get_elem? p.region j ≡ some 0

abbrev pub AllPages : Arena → Type 0
AllPages [] = Unit
AllPages (p ∷ ps) = IsPage p × AllPages ps

-- How many bytes of page `k` are handed out; 0 where there is no page.
abbrev pub used_in : Arena → ℕ → ℕ
used_in pages k = elim (get_elem? pages k) [ none ↦ 0 | some p ↦ p.current ]

-- `size` bytes at `offset` of page `k` were granted: inside the page, behind all that was handed
-- out of it before, and zero; the other pages hand out what they did.
pub record Granted (size : ℕ) (before : Arena) (k offset : ℕ) (after : Arena) : Type 0 where
  pub page : Page
  pub at : get_elem? after k ≡ some page
  pub ends : page.current ≡ offset + size
  pub within : offset + size ≤ page.size
  pub later : used_in before k ≤ offset
  pub zeroed : (j : ℕ) → offset ≤ j → j < offset + size → get_elem? page.region j ≡ some 0
  pub others : (j : ℕ) → j ≢ k → used_in after j ≡ used_in before j
  pub pages : AllPages after

-- What `arena_alloc` may come to.
abbrev pub Outcome : ℕ → Arena → Grant × Arena → Type 0
Outcome size before (null, after) = after ≡ before
Outcome size before (exited, after) = after ≡ []
Outcome size before (block k offset, after) = Granted size before k offset after

pub reserve-IsPage :
    (p : Page) (size : ℕ)
    → IsPage p
    → size < 2 ^ 63
    → has_room p size ≡ true
    → IsPage (reserve p size)
      × (p.current + size ≤ p.size)
      × (add_size p.current size ≡ p.current + size)
reserve-IsPage p size v small room =
    let e : add_size p.current size ≡ p.current + size = omega (arith, v.fits, v.small) in
    let fits : p.current + size ≤ p.size = ground (arith, e) in
    (
      record {
        fits = omega (arith, e, fits);
        small = v.small;
        whole = v.whole;
        clean = λ j h k. v.clean j (omega (arith, e)) k;
      },
      fits,
      e,
    )

-- Granting from the first page.
pub reserve-Granted :
    (p : Page) (rest : Arena) (size : ℕ)
    → IsPage p
    → AllPages rest
    → size < 2 ^ 63
    → has_room p size ≡ true
    → Granted size (p ∷ rest) 0 p.current (reserve p size ∷ rest)
reserve-Granted p rest size v vs small room =
    let (valid, fits, e) = reserve-IsPage p size v small room in
    record {
      page = reserve p size;
      at = refl;
      ends = e;
      within = fits;
      later = omega arith;
      zeroed = λ j h k. v.clean j h (omega (arith, fits));
      others = λ j.
          elim j as (λ i. i ≢ 0 → used_in (reserve p size ∷ rest) i ≡ used_in (p ∷ rest) i) [
            | zero ↦ λ h. absurd (h refl)
            | suc i ↦ λ h. refl
          ];
      pages = (valid, vs);
    }

-- A grant of the pages behind `p` is a grant of the whole chain.
pub behind-Outcome :
    (p : Page) (size : ℕ) (before : Arena) (r : Grant × Arena)
    → IsPage p
    → Outcome size before r
    → Outcome size (p ∷ before) (behind p r)
behind-Outcome p size before (null, after) v o = ap (◌∷◌ p) o
behind-Outcome p size before (exited, after) v o = refl
behind-Outcome p size before (block k offset, after) v o = record {
  page = o.page;
  at = o.at;
  ends = o.ends;
  within = o.within;
  later = o.later;
  zeroed = o.zeroed;
  others = λ j. elim j as (λ i. i ≢ suc k → used_in (p ∷ after) i ≡ used_in (p ∷ before) i) [
    | zero ↦ λ h. refl
    | suc i ↦ λ h. o.others i (λ e. h (ap suc e))
  ];
  pages = (v, o.pages);
}
