-- ===== src/Ini/Fuel.antt =====
-- The bound on the lines that `ini_parse` reads is enough.
use dpatch.Prelude.{
  ℕ, zero, suc, ◌≤◌, ◌≡◌, ◌==◌, inl, inr, refl, [], ◌∷◌, length, arith, Bool-cases,
}
use dpatch.Exec.{Exec, Exec-cases}
use dpatch.Memory.{Bytes, put_string}
use dpatch.Ini.{IniParseState, split_line, parse_line, parse_lines, fgets}

split_line-shorter : (n : ℕ) (file : Bytes) → length (split_line n file).1 ≤ length file
split_line-shorter zero file = omega arith
split_line-shorter (suc n) [] = omega arith
split_line-shorter (suc n) (c ∷ cs) = elim (Bool-cases (c == b'\n')) [
  | inl e ↦ rw e (omega arith)
  | inr e ↦ rw e (omega (arith, split_line-shorter n cs))
]

-- `fgets` takes a byte at least.
split_line-progress :
    (n : ℕ) (c : ℕ) (cs : Bytes) → length (split_line (suc n) (c ∷ cs)).1 ≤ length cs
split_line-progress n c cs = elim (Bool-cases (c == b'\n')) [
  | inl e ↦ rw e (omega arith)
  | inr e ↦ rw e (split_line-shorter n cs)
]

fgets-progress : (c : ℕ) (cs : Bytes) → length (fgets (c ∷ cs)).1 ≤ length cs
unfolding fgets
fgets-progress c cs = split_line-progress 510 c cs

module _ {ℓ} {D : Type ℓ} (handler : D → Bytes → Bytes → Bytes → Exec D) where
  -- The loop of ini_parse does the same under any bound from the length of the file on, so the
  -- bound that ini_parse gives it never ends it early.
  pub parse_lines-enough :
      (n m : ℕ) (file : Bytes) (s : IniParseState D)
      → length file ≤ n
      → length file ≤ m
      → parse_lines handler n file s ≡ parse_lines handler m file s
  unfolding parse_lines
  parse_lines-enough zero zero file s hn hm = refl
  parse_lines-enough zero (suc m) [] s hn hm = refl
  parse_lines-enough (suc n) zero [] s hn hm = refl
  parse_lines-enough (suc n) (suc m) [] s hn hm = refl
  parse_lines-enough zero (suc m) (c ∷ cs) s hn hm = absurd (omega arith)
  parse_lines-enough (suc n) zero (c ∷ cs) s hn hm = absurd (omega arith)
  parse_lines-enough (suc n) (suc m) (c ∷ cs) s hn hm =
      let rest = (fgets (c ∷ cs)).1 in
      let shorter : length rest ≤ length cs = fgets-progress c cs in
      let same =
        λ (s' : IniParseState D). parse_lines-enough n m rest s' (omega arith) (omega arith) in
      elim (Exec-cases (put_string s.buf 0 (fgets (c ∷ cs)).0)) [
        | inl e ↦ rw e refl
        | inr (buf, e) ↦ rw e (elim (Exec-cases (parse_line handler (record s { buf = buf }))) [
          | inl f ↦ rw f refl
          | inr ((ok, s'), f) ↦
              rw f (elim (Bool-cases ok) [ inl g ↦ rw g (same s') | inr g ↦ rw g refl ])
        ])
      ]
