-- ===== src/Ini/Print.antt =====
-- A workspace file as a list of entries: how its lines are read back, and what they leave in the
-- buffer.
use dpatch.Prelude.{
  ℕ, zero, suc, ◌+◌, ◌-◌, ◌≤◌, ◌<◌, ◌≡◌, ◌==◌, refl, sym, ap, ◌∙◌, true, false, List, [], ◌∷◌, ◌++◌,
  arith, length, length-append, append_assoc, drop,
}
use dpatch.Exec.{Exec, ret}
use dpatch.Memory.{Bytes, put_string}
use dpatch.Memory.Place.{put_string-overlay}
use dpatch.Ini.{IniParseState, key, value, split_line, fgets, parse_line, parse_lines}
use dpatch.Ini.Scan.{AllPassed}
use dpatch.Ini.Entry.{IsTrimmed, stored, stored-append, entry}

abbrev pub without_end : Bytes × Bytes → Bytes
without_end (name, text) = name ++ b'=' ∷ text

abbrev pub print_entry : Bytes × Bytes → Bytes
print_entry e = without_end e ++ b'\n' ∷ []

abbrev pub print_entries : List (Bytes × Bytes) → Bytes
print_entries [] = []
print_entries (e ∷ es) = print_entry e ++ print_entries es

abbrev pub OneLine : Bytes → Type 0
OneLine [] = Unit
OneLine (c ∷ cs) = ((c == b'\n') ≡ false) × OneLine cs

-- An entry that can be printed and fits a line and the area of the key.
pub record IsEntry (e : Bytes × Bytes) : Type 0 where
  pub name_trimmed : IsTrimmed e.0
  pub text_trimmed : IsTrimmed e.1
  pub no_section : (name_trimmed.first == b'[') ≡ false
  pub no_comment : (name_trimmed.first == b'#') ≡ false
  pub name_plain : AllPassed key e.0
  pub text_plain : AllPassed value e.1
  pub one_line : OneLine (without_end e)
  pub fits : length e.0 + length e.1 + 3 ≤ 512
  pub name_fits : length e.0 < 256

abbrev pub AllEntries : List (Bytes × Bytes) → Type 0
AllEntries [] = Unit
AllEntries (e ∷ es) = IsEntry e × AllEntries es

split_line-OneLine :
    (n : ℕ) (line rest : Bytes)
    → OneLine line
    → length line < n
    → split_line n (line ++ b'\n' ∷ rest) ≡ (line ++ b'\n' ∷ [], rest)
split_line-OneLine zero line rest o h = absurd (omega arith)
split_line-OneLine (suc n) [] rest o h = refl
split_line-OneLine (suc n) (c ∷ line) rest (o, os) h =
    rw (split_line-OneLine n line rest os (omega arith), o) refl

pub fgets-print_entry :
    (e : Bytes × Bytes) (rest : Bytes)
    → IsEntry e
    → fgets (print_entry e ++ rest) ≡ (print_entry e, rest)
unfolding fgets
fgets-print_entry e rest v =
    ap (λ t. split_line 511 t) (append_assoc (without_end e) (b'\n' ∷ []) rest)
    ∙ split_line-OneLine 511 (without_end e) rest v.one_line
        (omega (arith, v.fits, length-append e.0 (b'=' ∷ e.1)))

pub length-print_entry : (e : Bytes × Bytes) → length (print_entry e) ≡ length e.0 + length e.1 + 2
length-print_entry e =
    omega (arith, length-append (without_end e) (b'\n' ∷ []), length-append e.0 (b'=' ∷ e.1))

-- What stands behind the line, up to the area of the key.
abbrev pub behind_line : Bytes × Bytes → Bytes → Bytes → Bytes
behind_line e old section = drop (length (print_entry e ++ 0 ∷ [])) old ++ section

-- The buffer seen as a line and as four areas.
pub entry-areas :
    (e : Bytes × Bytes) (old section areas : Bytes)
    → entry e.0 [] [] e.1 (b'\n' ∷ []) (behind_line e old section ++ areas)
      ≡ stored (print_entry e) old ++ (section ++ areas)
entry-areas e old section areas =
    let left = drop (length (print_entry e ++ 0 ∷ [])) old in
    sym (
      append_assoc (print_entry e ++ 0 ∷ []) left (section ++ areas)
      ∙ append_assoc (print_entry e) (0 ∷ []) (left ++ (section ++ areas))
      ∙ append_assoc (without_end e) (b'\n' ∷ []) (0 ∷ (left ++ (section ++ areas)))
      ∙ append_assoc e.0 (b'=' ∷ e.1) (b'\n' ∷ 0 ∷ (left ++ (section ++ areas)))
      ∙ ap (λ t. e.0 ++ (b'=' ∷ (e.1 ++ (b'\n' ∷ 0 ∷ t)))) (sym (append_assoc left section areas)))

pub put_string-entry :
    (e : Bytes × Bytes) (old section areas : Bytes)
    → IsEntry e
    → length old ≡ 512
    → put_string (old ++ (section ++ areas)) 0 (print_entry e)
      ≡ ret (entry e.0 [] [] e.1 (b'\n' ∷ []) (behind_line e old section ++ areas))
put_string-entry e old section areas v l =
    put_string-overlay [] (print_entry e) (old ++ (section ++ areas)) 0 refl
      (omega (arith, v.fits, length-print_entry e, length-append old (section ++ areas)))
    ∙ ap (λ b. ret b)
        (stored-append (print_entry e) old (section ++ areas)
            (omega (arith, v.fits, length-print_entry e))
          ∙ sym (entry-areas e old section areas))

module _ {ℓ} {D : Type ℓ} (handler : D → Bytes → Bytes → Bytes → Exec D) where
  -- One round of the loop over the lines.
  pub parse_lines-line :
      (fuel c : ℕ) (line cs rest buf : Bytes) (s s' : IniParseState D)
      → line ≡ c ∷ cs
      → fgets (line ++ rest) ≡ (line, rest)
      → put_string s.buf 0 line ≡ ret buf
      → parse_line handler (record s { buf = buf }) ≡ ret (true, s')
      → 0 < fuel
      → parse_lines handler fuel (line ++ rest) s ≡ parse_lines handler (fuel - 1) rest s'
  unfolding parse_lines
  parse_lines-line zero c line cs rest buf s s' e g p r h = absurd (omega arith)
  parse_lines-line (suc n) c line cs rest buf s s' e g p r h =
      let g' : fgets (c ∷ (cs ++ rest)) ≡ (line, rest) = ap (λ t. fgets (t ++ rest)) (sym e) ∙ g in
      ap (λ t. parse_lines handler (suc n) (t ++ rest) s) e
      ∙ rw (g', p, r) (ap (λ m. parse_lines handler m rest s') (omega arith))
