-- ===== src/Ini/Parsed.antt =====
-- `parse_line` on a line that is an entry.
use dpatch.Prelude.{
  ℕ, suc, ◌+◌, ◌-◌, ◌≤◌, ◌<◌, ◌≡◌, ◌==◌, refl, sym, ap, ap₂, subst, ◌∙◌, true, false, [], ◌∷◌, ◌++◌,
  arith, if◌then◌else◌, length, length-append, append_assoc,
}
use dpatch.Exec.{Exec, ret, load}
use dpatch.Memory.{Bytes}
use dpatch.Ini.{
  IniParseState, scan, next_char, first_char, next, in_value, parse_line, call_handler, key, value,
  key_at, value_at, copy_trimmed_to_buf,
}
use dpatch.Ini.Trim.{AllSpaces, AllBlank, is_blank}
use dpatch.Ini.Scan.{AllPassed, scan-AllPassed, scan-next, scan-first, scan-end}
use dpatch.Ini.Entry.{
  IsTrimmed, not_blank, stored, stored-append, length-stored, entry, key_copied, value_copied, upto,
  length-upto, length-entry, load_equals, from_value, length-value, load_zero,
}

module _ {ℓ} {D : Type ℓ} (handler : D → Bytes → Bytes → Bytes → Exec D) where
  -- The handler is called with the entry in front, if the parser stands in a value.
  abbrev pub hand_over : IniParseState D → Exec (IniParseState D)
  hand_over s = if in_value s.mode then call_handler handler s else ret s

  first_char-key :
      (s : IniParseState D) (d : D) (c : ℕ)
      → hand_over s ≡ ret (record s { user_data = d })
      → is_blank c ≡ false
      → (c == b'[') ≡ false
      → (c == b'#') ≡ false
      → first_char handler s c
        ≡ ret (next, record s { mode = key; save_loc = 0; value_loc = value_at; user_data = d })
  unfolding first_char
  first_char-key s d c m b bracket comment =
      let (space, newline) = not_blank c b in rw (space, m, newline, bracket, comment) refl

-- A line in the buffer of the parser: a name, blanks, `=`, spaces, a text and blanks. `mid` is what
-- stands between its end and the area of the key.
module _ {ℓ} {D : Type ℓ} (handler : D → Bytes → Bytes → Bytes → Exec D)
    (name pad lead text trail mid keys values : Bytes) (n : IsTrimmed name) (t : IsTrimmed text)
    (blanks : AllBlank pad) (spaces : AllSpaces lead) (ends : AllBlank trail)
    (plain : AllPassed key (name ++ pad)) (shown : AllPassed value (lead ++ (text ++ trail)))
    (size : length name + length pad + length lead + length text + length trail + length mid + 2
      ≡ key_at)
    (key_size : length keys ≡ 256) (key_room : length name < 256)
    (room : length text < length values) where
  scan_key :
      (s : IniParseState D) (d : D) (fuel : ℕ)
      → s.buf ≡ entry name pad lead text trail (mid ++ (keys ++ values))
      → hand_over handler s ≡ ret (record s { user_data = d })
      → (n.first == b'[') ≡ false
      → (n.first == b'#') ≡ false
      → length name + length pad + 1 ≤ fuel
      → scan handler fuel 0 s
        ≡ scan handler
            (fuel - (length name + length pad + 1))
            (length name + length pad + 1)
            (record {
              buf = entry name pad lead text trail (mid ++ (stored name keys ++ values));
              value_loc = value_at;
              save_loc = length name + length pad + 1;
              mode = value;
              user_data = d;
            })
  unfolding next_char
  scan_key s d fuel b m bracket comment enough =
      let after = b'=' ∷ (lead ++ (text ++ (trail ++ (0 ∷ (mid ++ (keys ++ values)))))) in
      let s1 : IniParseState D = record s {
        mode = key;
        save_loc = 0;
        value_loc = value_at;
        user_data = d;
      } in
      let s2 : IniParseState D = record {
        buf = entry name pad lead text trail (mid ++ (stored name keys ++ values));
        value_loc = value_at;
        save_loc = length name + length pad + 1;
        mode = value;
        user_data = d;
      } in
      let seen : s.buf ≡ (n.first ∷ []) ++ ((n.rest ++ pad) ++ after) =
        b
        ∙ ap (λ x. x ++ (pad ++ after)) n.starts
        ∙ ap (◌∷◌ n.first) (sym (append_assoc n.rest pad after)) in
      let i = length name + length pad in
      let len : length name ≡ suc (length n.rest) = ap length n.starts in
      let left : fuel - 1 - length (n.rest ++ pad) ≡ fuel - i =
        omega (arith, length-append n.rest pad) in
      let there : 1 + length (n.rest ++ pad) ≡ i = omega (arith, length-append n.rest pad) in
      let (c0, p, ps) = subst (λ x. AllPassed key (x ++ pad)) n.starts plain in
      let copied : next_char handler s1 i b'=' ≡ ret s2 = rw b (
        rw
          (
            key_copied name pad lead text trail mid (keys ++ values) i n blanks refl (omega arith)
                (omega (arith, length-append keys values)),
            stored-append name keys values (omega arith),
          )
          refl) in
      scan-first handler fuel n.first s s1 (ap (λ x. load x 0) seen) c0
        (first_char-key handler s d n.first m n.first_shows bracket comment) (omega arith)
      ∙ scan-AllPassed handler (n.first ∷ []) (n.rest ++ pad) after (fuel - 1) 1 s1 seen refl
          (omega arith) ps (omega (arith, length-append n.rest pad))
      ∙ ap₂ (λ f j. scan handler f j s1) left there
      ∙ scan-next handler (fuel - i) i b'=' s1 s2
          (ap (λ x. load x i) b
            ∙ load_equals name pad lead text trail mid (mid ++ (keys ++ values)) i refl)
          refl (omega arith) copied (omega arith)
      ∙ ap (λ f. scan handler f (i + 1) s2) (omega arith)

  -- On a line that holds a name, blanks, an equals sign, spaces, a text and blanks, where name and
  -- text neither start nor end with a blank, the name does not start with a bracket or a number
  -- sign, no equals sign stands in front of the one of the line, no byte of the line is zero, and
  -- both fit their areas, parse_line returns INI_OK if the handler returns where it is called: it
  -- is called first, with the entry before, exactly if the parser stands in a value; then the name
  -- is the key and the text the value, each with a zero behind it, the rest of the buffer is as it
  -- was, and the parser stands in a value.
  pub parse_line-entry :
      (s : IniParseState D) (d : D)
      → s.buf ≡ entry name pad lead text trail (mid ++ (keys ++ values))
      → hand_over handler s ≡ ret (record s { user_data = d })
      → (n.first == b'[') ≡ false
      → (n.first == b'#') ≡ false
      → parse_line handler s
        ≡ ret (
          true,
          record {
            buf = entry name pad lead text trail (mid ++ (stored name keys ++ stored text values));
            value_loc = value_at + length text;
            save_loc = length name + length pad + 1;
            mode = value;
            user_data = d;
          },
        )
  unfolding parse_line
  parse_line-entry s d b m bracket comment =
      let copied = stored name keys in
      let behind = mid ++ (copied ++ values) in
      let i = length name + length pad + 1 in
      let fuel = length s.buf in
      let s2 : IniParseState D = record {
        buf = entry name pad lead text trail behind;
        value_loc = value_at;
        save_loc = i;
        mode = value;
        user_data = d;
      } in
      let skipped = lead ++ (text ++ trail) in
      let long : fuel
          ≡ length name
            + length pad
            + length lead
            + length text
            + length trail
            + length (mid ++ (keys ++ values))
            + 2 =
        ap length b ∙ length-entry name pad lead text trail mid (mid ++ (keys ++ values)) in
      let stop = i + length skipped in
      let l = length-value name pad lead text trail mid in
      let scanned : scan handler fuel 0 s ≡ ret (true, stop, s2) =
        scan_key s d fuel b m bracket comment (omega arith)
        ∙ scan-AllPassed handler (upto name pad lead text trail mid) skipped (0 ∷ behind) (fuel - i)
            i s2 (sym (from_value name pad lead text trail mid behind))
            (sym (length-upto name pad lead text trail mid)) (omega arith) shown (omega arith)
        ∙ scan-end handler (fuel - i - length skipped) stop s2
            (load_zero name pad lead text trail mid behind stop (omega arith)) (omega arith) in
      let parted =
        λ (ys : Bytes). ap (λ x. entry name pad lead text trail x) (append_assoc mid copied ys) in
      let made =
        ap (λ x. copy_trimmed_to_buf x i stop value_at value_at) (sym (parted values))
        ∙ value_copied name pad lead text trail (mid ++ copied) values i stop t spaces ends refl
            (omega arith)
            (omega (arith, length-append mid copied, length-stored name keys (omega arith))) room
        ∙ ap (λ x. ret (value_at + length text, x)) (parted (stored text values)) in
      rw (scanned, made) refl
