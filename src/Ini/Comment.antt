-- ===== src/Ini/Comment.antt =====
-- Comment lines.
use dpatch.Prelude.{ℕ, ◌≡◌, ◌⊎◌, inl, inr, refl, ◌∷◌, if◌then◌else◌, true}
use dpatch.Exec.{Exec, Exec-cases, fault, ret}
use dpatch.Memory.{Bytes, string_at}
use dpatch.Ini.{
  IniParseState, IniParseMode, in_value, scan, parse_line, first_char, call_handler,
  copy_trimmed_to_buf, trim_start_end, trim_start, trim_end, startline, section, key, value,
  multiline, handle, section_at, key_at, value_at,
}

-- Trimming an empty range at the start of the buffer looks in front of the buffer.
copy_trimmed_to_buf_empty :
    (buf : Bytes) (start base out : ℕ) → copy_trimmed_to_buf buf start 0 base out ≡ fault
unfolding copy_trimmed_to_buf trim_start_end trim_end
copy_trimmed_to_buf_empty buf start base out = elim (Exec-cases (trim_start buf start)) [
  | inl e ↦ rw e refl
  | inr (n, e) ↦ rw e refl
]

module _ {ℓ} {D : Type ℓ} (handler : D → Bytes → Bytes → Bytes → Exec D) where
  -- The handler is given the three strings, and only its data changes.
  pub call_handler-data :
      (s : IniParseState D)
      → (call_handler handler s ≡ fault)
        ⊎ ((d : D) × (call_handler handler s ≡ ret (record s { user_data = d })))
  unfolding call_handler
  call_handler-data s = elim (Exec-cases (string_at s.buf section_at)) [
    | inl e ↦ inl (rw e refl)
    | inr (named, e) ↦ elim (Exec-cases (string_at s.buf key_at)) [
      | inl f ↦ inl (rw (e, f) refl)
      | inr (keyed, f) ↦ elim (Exec-cases (string_at s.buf value_at)) [
        | inl g ↦ inl (rw (e, f, g) refl)
        | inr (valued, g) ↦ elim (Exec-cases (handler s.user_data named keyed valued)) [
          | inl h ↦ inl (rw (e, f, g, h) refl)
          | inr (d, h) ↦ inr (d, rw (e, f, g, h) refl)
        ]
      ]
    ]
  ]

  -- A comment line leaves the state of the parser as it is, unless the parser stands in a value:
  -- then it reads in front of its buffer.
  pub parse_line-comment :
      (mode : IniParseMode) (rest : Bytes) (value_loc save_loc : ℕ) (d : D)
      → let s : IniParseState D = record {
        buf = b'#' ∷ rest;
        value_loc = value_loc;
        save_loc = save_loc;
        mode = mode;
        user_data = d;
      } in
        parse_line handler s ≡ (if in_value mode then fault else ret (true, s))
  unfolding parse_line scan first_char
  parse_line-comment startline rest value_loc save_loc d = refl
  parse_line-comment section rest value_loc save_loc d = refl
  parse_line-comment key rest value_loc save_loc d = refl
  parse_line-comment multiline rest value_loc save_loc d = refl
  parse_line-comment handle rest value_loc save_loc d = refl
  parse_line-comment value rest value_loc save_loc d =
      let s : IniParseState D = record {
        buf = b'#' ∷ rest;
        value_loc = value_loc;
        save_loc = save_loc;
        mode = value;
        user_data = d;
      } in
      elim (call_handler-data s) [
        | inl e ↦ rw e refl
        | inr (d', e) ↦
            rw e (rw (copy_trimmed_to_buf_empty (b'#' ∷ rest) save_loc value_at value_loc) refl)
      ]
