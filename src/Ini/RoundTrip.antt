-- ===== src/Ini/RoundTrip.antt =====
-- A printed workspace file, read by `ini_parse`.
use dpatch.Prelude.{
  ℕ, zero, suc, ◌+◌, ◌-◌, ◌≤◌, ◌≡◌, refl, sym, ap, subst, ◌∙◌, inl, inr, true, List, [], ◌∷◌, ◌++◌,
  arith, length, length-append, append-nil, length-drop, drop, replicate, some,
}
use dpatch.Exec.{Exec, ret, ◌>>=◌, bind_elim}
use dpatch.Memory.{Bytes, put_string}
use dpatch.Ini.{
  IniParseState, key, value, startline, parse_line, parse_lines, ini_parse, ini_ok, value_at,
  buf_size,
}
use dpatch.Ini.Scan.{AllPassed}
use dpatch.Ini.Entry.{stored, length-stored, entry}
use dpatch.Ini.Parsed.{hand_over, parse_line-entry}
use dpatch.Ini.Owed.{Owes, hand_over-Owes, key-IsText, passed-IsText}
use dpatch.Ini.Print.{
  print_entry, print_entries, IsEntry, fgets-print_entry, length-print_entry, behind_line,
  entry-areas, put_string-entry, parse_lines-line, AllEntries,
}

module _ {ℓ} {D : Type ℓ} (handler : D → Bytes → Bytes → Bytes → Exec D) where
  -- The handler on every entry, outside of all sections.
  abbrev pub handle_all : D → List (Bytes × Bytes) → Exec D
  handle_all d [] = ret d
  handle_all d ((name, text) ∷ es) = do d' ← handler d [] name text; handle_all d' es

  passed_line : (text : Bytes) → AllPassed value text → AllPassed value (text ++ b'\n' ∷ [])
  passed_line [] p = (refl, tt, tt)
  passed_line (c ∷ cs) (c0, p, ps) = (c0, p, passed_line cs ps)

  -- The state behind the line of an entry, which is the next to be handed over.
  abbrev after_line :
      Bytes × Bytes → Bytes → Bytes → Bytes → Bytes → IniParseState D → IniParseState D
  after_line e old section keys values s = record {
    buf =
        entry e.0 [] [] e.1 (b'\n' ∷ [])
          (behind_line e old section ++ (stored e.0 keys ++ stored e.1 values));
    value_loc = value_at + length e.1;
    save_loc = length e.0 + 0 + 1;
    mode = value;
    user_data = s.user_data;
  }

  -- One line, on a state that hands over `d`.
  parse_line-print_entry :
      (e : Bytes × Bytes) (old section keys values : Bytes) (s : IniParseState D) (d : D)
      → IsEntry e
      → length old ≡ 512
      → length section ≡ 255
      → length keys ≡ 256
      → length values ≡ 1024
      → Owes handler s.mode keys values s.user_data d
      → parse_line handler (record s {
        buf =
            entry e.0 [] [] e.1 (b'\n' ∷ []) (behind_line e old (0 ∷ section) ++ (keys ++ values));
      })
        ≡ ret (true, after_line e old (0 ∷ section) keys values (record s { user_data = d }))
  parse_line-print_entry e old section keys values s d v lo ls lk lv owes =
      let behind = behind_line e old (0 ∷ section) in
      let put : IniParseState D = record s {
        buf = entry e.0 [] [] e.1 (b'\n' ∷ []) (behind ++ (keys ++ values));
      } in
      let line = length-print_entry e in
      let space = length-stored (print_entry e) old (omega (arith, v.fits, line)) in
      let handed : hand_over handler put ≡ ret (record put { user_data = d }) =
        hand_over-Owes handler (stored (print_entry e) old) section keys values put d
          (entry-areas e old (0 ∷ section) (keys ++ values)) (omega arith) ls lk owes in
      let size : length behind + length e.0 + length e.1 + 3 ≡ 768 = omega (
        arith,
        v.fits,
        line,
        length-append (drop (length (print_entry e ++ 0 ∷ [])) old) (0 ∷ section),
        length-drop (length (print_entry e ++ 0 ∷ [])) old,
        length-append (print_entry e) (0 ∷ []),
      ) in
      parse_line-entry handler e.0 [] [] e.1 (b'\n' ∷ []) behind keys values v.name_trimmed
        v.text_trimmed tt tt (refl, tt)
        (subst (λ x. AllPassed key x) (sym (append-nil e.0)) v.name_plain)
        (passed_line e.1 v.text_plain) (omega arith) lk v.name_fits (omega (arith, v.fits)) put d
        refl handed v.no_section v.no_comment

  parse_lines-print_entries :
      (es : List (Bytes × Bytes)) (fuel : ℕ) (old section keys values : Bytes) (s : IniParseState D)
      (d d' : D)
      → AllEntries es
      → s.buf ≡ old ++ ((0 ∷ section) ++ (keys ++ values))
      → length old ≡ 512
      → length section ≡ 255
      → length keys ≡ 256
      → length values ≡ 1024
      → Owes handler s.mode keys values s.user_data d
      → handle_all d es ≡ ret d'
      → length (print_entries es) ≤ fuel
      → (s' : IniParseState D) × (parse_lines handler fuel (print_entries es) s ≡ ret (true, s'))
        × (hand_over handler s' ≡ ret (record s' { user_data = d' }))
  unfolding parse_lines
  parse_lines-print_entries [] zero old section keys values s d d' v b lo ls lk lv owes h l =
      let e : d ≡ d' = cc h in
      (
        s,
        refl,
        hand_over-Owes handler old section keys values s d b lo ls lk owes
            ∙ ap (λ x. ret (record s { user_data = x })) e,
      )
  parse_lines-print_entries [] (suc n) old section keys values s d d' v b lo ls lk lv owes h l =
      let e : d ≡ d' = cc h in
      (
        s,
        refl,
        hand_over-Owes handler old section keys values s d b lo ls lk owes
            ∙ ap (λ x. ret (record s { user_data = x })) e,
      )
  parse_lines-print_entries (e ∷ es) fuel old section keys values s d d' (v, vs) b lo ls lk lv owes
        h l =
      bind_elim (handler d [] e.0 e.1) _ h λ d1 h1 hs.
        let s2 = after_line e old (0 ∷ section) keys values (record s { user_data = d }) in
        let line = length-print_entry e in
        let buf1 =
          entry e.0 [] [] e.1 (b'\n' ∷ []) (behind_line e old (0 ∷ section) ++ (keys ++ values)) in
        let written : put_string s.buf 0 (print_entry e) ≡ ret buf1 =
          ap (λ x. put_string x 0 (print_entry e)) b
          ∙ put_string-entry e old (0 ∷ section) (keys ++ values) v lo in
        let round =
          parse_lines-line handler fuel v.name_trimmed.first (print_entry e)
            ((v.name_trimmed.rest ++ b'=' ∷ e.1) ++ b'\n' ∷ []) (print_entries es) buf1 s s2
            (ap (λ x. (x ++ b'=' ∷ e.1) ++ b'\n' ∷ []) v.name_trimmed.starts)
            (fgets-print_entry e (print_entries es) v) written
            (parse_line-print_entry e old section keys values s d v lo ls lk lv owes)
            (omega (arith, line, length-append (print_entry e) (print_entries es))) in
        let (s', parsed, handed) =
          parse_lines-print_entries es (fuel - 1) (stored (print_entry e) old) section
            (stored e.0 keys) (stored e.1 values) s2 d1 d' vs
            (entry-areas e old (0 ∷ section) (stored e.0 keys ++ stored e.1 values))
            (length-stored (print_entry e) old (omega (arith, v.fits, line)) ∙ lo) ls
            (length-stored e.0 keys (omega (arith, v.name_fits)) ∙ lk)
            (length-stored e.1 values (omega (arith, v.fits)) ∙ lv)
            (inr (
              refl,
              e.0,
              e.1,
              keys,
              values,
              refl,
              refl,
              key-IsText e.0 v.name_plain,
              passed-IsText e.1 v.text_plain,
              h1,
            ))
            hs (omega (arith, line, length-append (print_entry e) (print_entries es))) in
        (s', round ∙ parsed, handed)

  -- From a file with a line `name=text` for each of a list of entries, where no name and no text
  -- is empty, starts or ends with a blank, or has a newline or a zero byte, no name starts with a
  -- bracket or a number sign or has an equals sign in it, no name has more than 255 bytes and no
  -- line more than 511, ini_parse returns INI_OK and has called the handler once for every entry,
  -- in order, with an empty section, the name and the text, if the handler returns each time.
  pub ini_parse-print_entries :
      (es : List (Bytes × Bytes)) (d d' : D)
      → AllEntries es
      → handle_all d es ≡ ret d'
      → ini_parse handler (some (print_entries es)) d ≡ ret (ini_ok, d')
  unfolding ini_parse
  ini_parse-print_entries es d d' v h =
      let start : IniParseState D = record {
        buf = replicate buf_size 0;
        value_loc = value_at;
        save_loc = 0;
        mode = startline;
        user_data = d;
      } in
      let (s', parsed, handed) =
        parse_lines-print_entries es (length (print_entries es)) (replicate 512 0) (replicate 255 0)
          (replicate 256 0) (replicate 1024 0) start d d' v refl refl refl refl refl
          (inl (refl, refl)) h (omega arith) in
      rw (parsed, handed) refl
