-- ===== src/Ini/Scan.antt =====
-- The loop of `parse_line`, byte by byte.
use dpatch.Prelude.{
  ℕ, zero, suc, ◌+◌, ◌-◌, ◌≤◌, ◌<◌, ◌≡◌, ◌==◌, refl, sym, ap, ap₂, ◌∙◌, true, false, [], ◌∷◌, ◌++◌,
  arith, length, length-append, append_assoc,
}
use dpatch.Exec.{Exec, ret, load}
use dpatch.Memory.{Bytes}
use dpatch.Memory.Place.{load-append}
use dpatch.Ini.{
  IniParseState, IniParseMode, scan, next_char, first_char, next, in_mode, startline, section, key,
  value, multiline, handle,
}

-- A byte that is only passed in a mode.
abbrev pub Passed : IniParseMode → ℕ → Type 0
Passed startline c = Unit
Passed section c = (c == b']') ≡ false
Passed key c = (c == b'=') ≡ false
Passed value c = Unit
Passed multiline c = true ≡ false
Passed handle c = Unit

-- Bytes of a line that are only passed.
abbrev pub AllPassed : IniParseMode → Bytes → Type 0
AllPassed mode [] = Unit
AllPassed mode (c ∷ cs) = ((c == 0) ≡ false) × Passed mode c × AllPassed mode cs

module _ {ℓ} {D : Type ℓ} (handler : D → Bytes → Bytes → Bytes → Exec D) where
  in_mode-Passed :
      (mode : IniParseMode) (s : IniParseState D) (i c : ℕ)
      → Passed mode c
      → in_mode handler mode s i c ≡ ret s
  in_mode-Passed startline s i c p = refl
  in_mode-Passed section s i c p = rw p refl
  in_mode-Passed key s i c p = rw p refl
  in_mode-Passed value s i c p = refl
  in_mode-Passed multiline s i c p = absurd (cc p)
  in_mode-Passed handle s i c p = refl

  pub scan-AllPassed :
      (front skip rest : Bytes) (n i : ℕ) (s : IniParseState D)
      → s.buf ≡ front ++ (skip ++ rest)
      → i ≡ length front
      → 0 < i
      → AllPassed s.mode skip
      → length skip ≤ n
      → scan handler n i s ≡ scan handler (n - length skip) (i + length skip) s
  unfolding scan next_char
  scan-AllPassed front [] rest n i s b e h p l =
      ap₂ (λ m j. scan handler m j s) (omega arith) (omega arith)
  scan-AllPassed front (c ∷ skip) rest zero i s b e h p l = absurd (omega arith)
  scan-AllPassed front (c ∷ skip) rest (suc n) i s b e h (c0, p, ps) l =
      let here : load s.buf i ≡ ret c =
        ap (λ t. load t i) b ∙ load-append front (c ∷ (skip ++ rest)) i 0 (omega arith) in
      let inside : (i == 0) ≡ false = ground arith in
      let on =
        scan-AllPassed (front ++ c ∷ []) skip rest n (i + 1) s
          (b ∙ sym (append_assoc front (c ∷ []) (skip ++ rest)))
          (omega (arith, length-append front (c ∷ []))) (omega arith) ps (omega arith) in
      rw (here, c0, inside, in_mode-Passed s.mode s i c p)
        (on ∙ ap₂ (λ m j. scan handler m j s) (omega arith) (omega arith))

  pub scan-next :
      (n i c : ℕ) (s s' : IniParseState D)
      → load s.buf i ≡ ret c
      → (c == 0) ≡ false
      → 0 < i
      → next_char handler s i c ≡ ret s'
      → 0 < n
      → scan handler n i s ≡ scan handler (n - 1) (i + 1) s'
  unfolding scan
  scan-next zero i c s s' here c0 h step l = absurd (omega arith)
  scan-next (suc n) i c s s' here c0 h step l =
      let inside : (i == 0) ≡ false = ground arith in
      rw (here, c0, inside, step) (ap (λ m. scan handler m (i + 1) s') (omega arith))

  pub scan-first :
      (n c : ℕ) (s s' : IniParseState D)
      → load s.buf 0 ≡ ret c
      → (c == 0) ≡ false
      → first_char handler s c ≡ ret (next, s')
      → 0 < n
      → scan handler n 0 s ≡ scan handler (n - 1) 1 s'
  unfolding scan
  scan-first zero c s s' here c0 step l = absurd (omega arith)
  scan-first (suc n) c s s' here c0 step l =
      rw (here, c0, step) (ap (λ m. scan handler m 1 s') (omega arith))

  pub scan-end :
      (n i : ℕ) (s : IniParseState D)
      → load s.buf i ≡ ret 0
      → 0 < n
      → scan handler n i s ≡ ret (true, i, s)
  unfolding scan
  scan-end zero i s here l = absurd (omega arith)
  scan-end (suc n) i s here l = rw here refl
