-- ===== src/Ini/Owed.antt =====
-- The entry that the parser has read and still has to hand over, read back from the buffer.
use dpatch.Prelude.{
  ℕ, ◌≡◌, refl, sym, ap, ◌∙◌, ◌⊎◌, inl, inr, true, false, [], ◌∷◌, ◌++◌, arith, length,
  length-append, append_assoc, append-nil, drop,
}
use dpatch.Exec.{Exec, ret}
use dpatch.Memory.{Bytes, string_at}
use dpatch.Memory.Place.{IsText, string_at-append}
use dpatch.Ini.{
  IniParseState, IniParseMode, key, value, in_value, call_handler, section_at, key_at, value_at,
}
use dpatch.Ini.Scan.{AllPassed}
use dpatch.Ini.Entry.{stored}
use dpatch.Ini.Parsed.{hand_over}

pub passed-IsText : (text : Bytes) → AllPassed value text → IsText text
passed-IsText [] p = tt
passed-IsText (c ∷ cs) (c0, p, ps) = (ground arith, passed-IsText cs ps)

pub key-IsText : (text : Bytes) → AllPassed key text → IsText text
key-IsText [] p = tt
key-IsText (c ∷ cs) (c0, p, ps) = (ground arith, key-IsText cs ps)

string_at-stored :
    (pre text area more : Bytes) (at : ℕ)
    → at ≡ length pre
    → IsText text
    → string_at (pre ++ (stored text area ++ more)) at ≡ ret text
string_at-stored pre text area more at e t =
    ap (λ b. string_at (pre ++ b) at)
      (append_assoc (text ++ 0 ∷ []) (drop (length (text ++ 0 ∷ [])) area) more
        ∙ append_assoc text (0 ∷ []) (drop (length (text ++ 0 ∷ [])) area ++ more))
    ∙ string_at-append pre text (drop (length (text ++ 0 ∷ [])) area ++ more) at e t

module _ {ℓ} {D : Type ℓ} (handler : D → Bytes → Bytes → Bytes → Exec D) where
  -- What the parser has still to hand over, and what the handler makes of it.
  abbrev pub Owes : IniParseMode → Bytes → Bytes → D → D → Type ℓ
  Owes mode keys values d d' =
      ((in_value mode ≡ false) × (d ≡ d'))
      ⊎ ((in_value mode ≡ true)
          × (name : Bytes) × (text : Bytes) × (keys0 : Bytes) × (values0 : Bytes) × (keys
              ≡ stored name keys0)
          × (values ≡ stored text values0)
          × IsText name
          × IsText text
          × (handler d [] name text ≡ ret d'))

  pub hand_over-Owes :
      (old section keys values : Bytes) (s : IniParseState D) (d : D)
      → s.buf ≡ old ++ ((0 ∷ section) ++ (keys ++ values))
      → length old ≡ 512
      → length section ≡ 255
      → length keys ≡ 256
      → Owes s.mode keys values s.user_data d
      → hand_over handler s ≡ ret (record s { user_data = d })
  unfolding call_handler
  hand_over-Owes old section keys values s d b lo ls lk (inl (m, e)) =
      rw m (ap (λ x. ret (record s { user_data = x })) e)
  hand_over-Owes old section keys values s d b lo ls lk
        (inr (m, name, text, keys0, values0, ek, ev, tn, tt', h)) =
      let to_keys = old ++ 0 ∷ section in
      let named : string_at s.buf section_at ≡ ret [] =
        ap (λ x. string_at x section_at) b
        ∙ string_at-append old [] (section ++ (keys ++ values)) section_at (omega arith) tt in
      let keyed : string_at s.buf key_at ≡ ret name =
        ap (λ x. string_at x key_at)
          (b
            ∙ sym (append_assoc old (0 ∷ section) (keys ++ values))
            ∙ ap (λ x. to_keys ++ (x ++ values)) ek)
        ∙ string_at-stored to_keys name keys0 values key_at
            (omega (arith, length-append old (0 ∷ section))) tn in
      let valued : string_at s.buf value_at ≡ ret text =
        ap (λ x. string_at x value_at)
          (b
            ∙ sym (append_assoc old (0 ∷ section) (keys ++ values))
            ∙ sym (append_assoc to_keys keys values)
            ∙ ap (λ x. (to_keys ++ keys) ++ x) (ev ∙ sym (append-nil (stored text values0))))
        ∙ string_at-stored (to_keys ++ keys) text values0 [] value_at
            (omega (arith, length-append old (0 ∷ section), length-append to_keys keys)) tt' in
      rw (m, named, keyed, valued, h) refl
