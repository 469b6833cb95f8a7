-- ===== src/Ini/Entry.antt =====
-- The parts of a line that is an entry, a name, `=` and a value, and the two copies that `parse_line`
-- makes of it.
use dpatch.Prelude.{
  ℕ, zero, suc, ◌+◌, ◌≤◌, ◌<◌, ◌≡◌, ◌==◌, refl, sym, ap, ◌∙◌, false, List, [], ◌∷◌, ◌++◌, arith,
  length, length-append, append_assoc, overlay, drop, length-drop,
}
use dpatch.Exec.{ret, load}
use dpatch.Memory.{Bytes}
use dpatch.Memory.Place.{load-append}
use dpatch.Ini.{is_space, key_at, value_at, copy_trimmed_to_buf}
use dpatch.Ini.Trim.{AllSpaces, AllBlank, is_blank, copy_trimmed_to_buf-text}

-- A text that neither starts nor ends with a blank.
pub record IsTrimmed (text : Bytes) : Type 0 where
  pub first : ℕ
  pub rest : Bytes
  pub front : Bytes
  pub last : ℕ
  pub starts : text ≡ first ∷ rest
  pub ends : text ≡ front ++ last ∷ []
  pub first_shows : is_blank first ≡ false
  pub last_shows : is_blank last ≡ false

pub not_blank : (c : ℕ) → is_blank c ≡ false → (is_space c ≡ false) × ((c == b'\n') ≡ false)
not_blank c h = (ground arith, ground arith)

-- The text in the front of a buffer, with the zero behind it.
abbrev pub stored : Bytes → Bytes → Bytes
stored text area = overlay (text ++ 0 ∷ []) area

drop_front {ℓ} :
    {A : Type ℓ} (n : ℕ) (xs ys : List A) → n ≤ length xs → drop n (xs ++ ys) ≡ drop n xs ++ ys
drop_front zero xs ys h = refl
drop_front (suc n) [] ys h = absurd (omega arith)
drop_front (suc n) (x ∷ xs) ys h = drop_front n xs ys (omega arith)

-- The same when another area follows.
pub stored-append :
    (text area more : Bytes)
    → length text < length area
    → stored text (area ++ more) ≡ stored text area ++ more
stored-append text area more h =
    let size = length-append text (0 ∷ []) in
    ap (λ t. (text ++ 0 ∷ []) ++ t)
      (drop_front (length (text ++ 0 ∷ [])) area more (omega (arith, size)))
    ∙ sym (append_assoc (text ++ 0 ∷ []) (drop (length (text ++ 0 ∷ [])) area) more)

pub length-stored :
    (text area : Bytes) → length text < length area → length (stored text area) ≡ length area
length-stored text area h = omega (
  arith,
  length-append (text ++ 0 ∷ []) (drop (length (text ++ 0 ∷ [])) area),
  length-drop (length (text ++ 0 ∷ [])) area,
  length-append text (0 ∷ []),
)

-- The buffer with a line in front, and behind it the areas of the section, the key and the value.
abbrev pub entry : Bytes → Bytes → Bytes → Bytes → Bytes → Bytes → Bytes
entry name pad lead text trail behind =
    name ++ (pad ++ (b'=' ∷ (lead ++ (text ++ (trail ++ (0 ∷ behind))))))

module _ (name pad lead text trail mid : Bytes) where
  -- What stands in front of the value's copy, and what stands between the key and its copy.
  line_end :
      (behind : Bytes)
      → (b'=' ∷ (lead ++ (text ++ (trail ++ (0 ∷ mid))))) ++ behind
        ≡ b'=' ∷ (lead ++ (text ++ (trail ++ (0 ∷ (mid ++ behind)))))
  line_end behind =
      ap (λ t. b'=' ∷ t)
        (append_assoc lead (text ++ (trail ++ (0 ∷ mid))) behind
          ∙ ap (λ t. lead ++ t) (append_assoc text (trail ++ (0 ∷ mid)) behind)
          ∙ ap (λ t. lead ++ (text ++ t)) (append_assoc trail (0 ∷ mid) behind))

  length-line_end :
      length (b'=' ∷ (lead ++ (text ++ (trail ++ (0 ∷ mid)))))
      ≡ length lead + length text + length trail + length mid + 2
  length-line_end = omega (
    arith,
    length-append lead (text ++ (trail ++ (0 ∷ mid))),
    length-append text (trail ++ (0 ∷ mid)),
    length-append trail (0 ∷ mid),
  )

  pub key_copied :
      (area : Bytes) (i : ℕ)
      → IsTrimmed name
      → AllBlank pad
      → i ≡ length name + length pad
      → i + length lead + length text + length trail + length mid + 2 ≡ key_at
      → length name < length area
      → copy_trimmed_to_buf (entry name pad lead text trail (mid ++ area)) 0 i key_at key_at
        ≡ ret (key_at + length name, entry name pad lead text trail (mid ++ stored name area))
  key_copied area i t blanks ei size room =
      let between = b'=' ∷ (lead ++ (text ++ (trail ++ (0 ∷ mid)))) in
      ap (λ b. copy_trimmed_to_buf (name ++ (pad ++ b)) 0 i key_at key_at) (sym (line_end area))
      ∙ copy_trimmed_to_buf-text [] [] t.front pad between area t.first t.last name t.rest t.starts
          t.ends 0 i key_at tt blanks (not_blank t.first t.first_shows).0 t.last_shows refl
          (omega arith) (omega (arith, length-line_end)) room
      ∙ ap (λ b. ret (key_at + length name, name ++ (pad ++ b))) (line_end (stored name area))

  -- The line up to its value.
  pub upto : Bytes
  upto = name ++ (pad ++ b'=' ∷ [])

  from_upto : (ys : Bytes) → upto ++ ys ≡ name ++ (pad ++ (b'=' ∷ ys))
  unfolding upto
  from_upto ys =
      append_assoc name (pad ++ b'=' ∷ []) ys
      ∙ ap (λ t. name ++ t) (append_assoc pad (b'=' ∷ []) ys)

  pub length-upto : length upto ≡ length name + length pad + 1
  unfolding upto
  length-upto = omega (arith, length-append name (pad ++ b'=' ∷ []), length-append pad (b'=' ∷ []))

  pub value_copied :
      (area : Bytes) (start stop : ℕ)
      → IsTrimmed text
      → AllSpaces lead
      → AllBlank trail
      → start ≡ length name + length pad + 1
      → stop ≡ start + length lead + length text + length trail
      → stop + length mid + 1 ≡ value_at
      → length text < length area
      → copy_trimmed_to_buf
          (entry name pad lead text trail (mid ++ area))
          start
          stop
          value_at
          value_at
        ≡ ret (value_at + length text, entry name pad lead text trail (mid ++ stored text area))
  value_copied area start stop t spaces blanks es et size room =
      ap (λ b. copy_trimmed_to_buf b start stop value_at value_at)
        (sym (from_upto (lead ++ (text ++ (trail ++ (0 ∷ (mid ++ area)))))))
      ∙ copy_trimmed_to_buf-text upto lead t.front trail (0 ∷ mid) area t.first t.last text t.rest
          t.starts t.ends start stop value_at spaces blanks (not_blank t.first t.first_shows).0
          t.last_shows (omega (arith, length-upto)) (omega (arith, length-upto))
          (omega (arith, length-upto)) room
      ∙ ap (λ b. ret (value_at + length text, b))
          (from_upto (lead ++ (text ++ (trail ++ (0 ∷ (mid ++ stored text area))))))

  pub length-entry :
      (behind : Bytes)
      → length (entry name pad lead text trail behind)
        ≡ length name + length pad + length lead + length text + length trail + length behind + 2
  length-entry behind = omega (
    arith,
    length-append name (pad ++ (b'=' ∷ (lead ++ (text ++ (trail ++ (0 ∷ behind)))))),
    length-append pad (b'=' ∷ (lead ++ (text ++ (trail ++ (0 ∷ behind))))),
    length-append lead (text ++ (trail ++ (0 ∷ behind))),
    length-append text (trail ++ (0 ∷ behind)),
    length-append trail (0 ∷ behind),
  )

  pub load_equals :
      (behind : Bytes) (i : ℕ)
      → i ≡ length name + length pad
      → load (entry name pad lead text trail behind) i ≡ ret b'='
  load_equals behind i e =
      let rest = b'=' ∷ (lead ++ (text ++ (trail ++ (0 ∷ behind)))) in
      ap (λ b. load b i) (sym (append_assoc name pad rest))
      ∙ load-append (name ++ pad) rest i 0 (omega (arith, length-append name pad))

  pub from_value :
      (behind : Bytes)
      → upto ++ ((lead ++ (text ++ trail)) ++ (0 ∷ behind)) ≡ entry name pad lead text trail behind
  from_value behind =
      from_upto ((lead ++ (text ++ trail)) ++ (0 ∷ behind))
      ∙ ap (λ t. name ++ (pad ++ (b'=' ∷ t)))
          (append_assoc lead (text ++ trail) (0 ∷ behind)
            ∙ ap (λ t. lead ++ t) (append_assoc text trail (0 ∷ behind)))

  pub length-value : length (lead ++ (text ++ trail)) ≡ length lead + length text + length trail
  length-value = omega (arith, length-append lead (text ++ trail), length-append text trail)

  pub load_zero :
      (behind : Bytes) (i : ℕ)
      → i ≡ length name + length pad + 1 + length lead + length text + length trail
      → load (entry name pad lead text trail behind) i ≡ ret 0
  load_zero behind i e =
      let skipped = lead ++ (text ++ trail) in
      ap (λ b. load b i) (sym (from_value behind) ∙ sym (append_assoc upto skipped (0 ∷ behind)))
      ∙ load-append (upto ++ skipped) (0 ∷ behind) i 0
          (omega (arith, length-append upto skipped, length-upto, length-value))
