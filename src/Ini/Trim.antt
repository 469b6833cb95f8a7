-- ===== src/Ini/Trim.antt =====
-- `trim_start_end` and `copy_to_buf`: what a range with spaces around a text is copied as.
use dpatch.Prelude.{
  ℕ, zero, suc, ◌+◌, ◌-◌, ◌≤◌, ◌<◌, ◌≡◌, ◌==◌, ◌||◌, refl, sym, ap, ap₂, ◌∙◌, Bool, true, false, [],
  ◌∷◌, ◌++◌, arith, not_lt→ltb, length, length-append, overlay, append_assoc,
}
use dpatch.Exec.{ret, load, put}
use dpatch.Memory.{Bytes}
use dpatch.Memory.Place.{load-append, put-append, end_written}
use dpatch.Ini.{
  is_space, trim_start, trim_end, trim_start_end, copy_bytes, copy_to_buf, copy_trimmed_to_buf,
}

abbrev pub AllSpaces : Bytes → Type 0
AllSpaces [] = Unit
AllSpaces (c ∷ cs) = (is_space c ≡ true) × AllSpaces cs

abbrev pub is_blank : ℕ → Bool
is_blank c = is_space c || c == b'\n'

abbrev pub AllBlank : Bytes → Type 0
AllBlank [] = Unit
AllBlank (c ∷ cs) = (is_blank c ≡ true) × AllBlank cs

trim_start-spaces :
    (lead rest : Bytes) (a : ℕ)
    → AllSpaces lead
    → is_space a ≡ false
    → trim_start (lead ++ a ∷ rest) 0 ≡ ret (length lead)
unfolding trim_start
trim_start-spaces [] rest a h n = rw n refl
trim_start-spaces (c ∷ lead) rest a (hc, h) n = rw (hc, trim_start-spaces lead rest a h n) refl

trim_start-append :
    (pre lead rest : Bytes) (a at : ℕ)
    → at ≡ length pre
    → AllSpaces lead
    → is_space a ≡ false
    → trim_start (pre ++ (lead ++ a ∷ rest)) at ≡ ret (length pre + length lead)
unfolding trim_start
trim_start-append [] lead rest a at e h n =
    let e' : at ≡ 0 = omega arith in
    rw e' (trim_start-spaces lead rest a h n ∙ ap (λ k. ret k) (omega arith))
trim_start-append (p ∷ pre) lead rest a zero e h n = absurd (omega arith)
trim_start-append (p ∷ pre) lead rest a (suc at) e h n =
    rw (trim_start-append pre lead rest a at (omega arith) h n) (ap (λ k. ret k) (omega arith))

blank_at :
    (trail rest : Bytes) (i : ℕ)
    → AllBlank trail
    → i < length trail
    → (c : ℕ) × (load (trail ++ rest) i ≡ ret c) × (is_blank c ≡ true)
blank_at [] rest i h l = absurd (omega arith)
blank_at (c ∷ trail) rest zero (hc, h) l = (c, refl, hc)
blank_at (c ∷ trail) rest (suc i) (hc, h) l = blank_at trail rest i h (omega arith)

-- From `k` blank bytes behind the last byte of the text, the loop goes back to it.
trim_end-back :
    (k : ℕ) (front trail rest : Bytes) (z : ℕ)
    → k ≤ length trail
    → AllBlank trail
    → is_blank z ≡ false
    → trim_end (front ++ (z ∷ (trail ++ rest))) (suc (length front + k)) ≡ ret (suc (length front))
unfolding trim_end
trim_end-back zero front trail rest z h b n =
    rw (load-append front (z ∷ (trail ++ rest)) (length front + 0) 0 (omega arith), n)
      (ap (λ j. ret (suc j)) (omega arith))
trim_end-back (suc k) front trail rest z h b n =
    let (c, here, blank) = blank_at trail rest k b (omega arith) in
    let read : load (front ++ (z ∷ (trail ++ rest))) (length front + suc k) ≡ ret c =
      load-append front (z ∷ (trail ++ rest)) (length front + suc k) (suc k) (omega arith) ∙ here in
    let e : length front + suc k ≡ suc (length front + k) = omega arith in
    rw (read, blank)
      (ap (λ j. trim_end (front ++ (z ∷ (trail ++ rest))) j) e
        ∙ trim_end-back k front trail rest z (omega arith) b n)

copy_bytes-overlay :
    (text front mid xs : Bytes) (i out : ℕ)
    → i ≡ length front
    → out ≡ length front + length text + length mid
    → length text ≤ length xs
    → copy_bytes (length text) (front ++ (text ++ (mid ++ xs))) i out
      ≡ ret (front ++ (text ++ (mid ++ overlay text xs)))
unfolding copy_bytes
copy_bytes-overlay [] front mid xs i out ei eo h = refl
copy_bytes-overlay (c ∷ text) front mid [] i out ei eo h = absurd (omega arith)
copy_bytes-overlay (c ∷ text) front mid (x ∷ xs) i out ei eo h =
    let whole = front ++ ((c ∷ text) ++ mid) in
    let parted = λ (ys : Bytes).
      append_assoc front ((c ∷ text) ++ mid) ys
      ∙ ap (λ t. front ++ t) (append_assoc (c ∷ text) mid ys) in
    let moved = λ (ys : Bytes).
      append_assoc front (c ∷ []) (text ++ ((mid ++ c ∷ []) ++ ys))
      ∙ ap (λ t. front ++ c ∷ (text ++ t)) (append_assoc mid (c ∷ []) ys) in
    let size : length whole ≡ length front + (suc (length text) + length mid) =
      length-append front ((c ∷ text) ++ mid)
      ∙ ap (λ n. length front + n) (length-append (c ∷ text) mid) in
    let write : put (front ++ ((c ∷ text) ++ (mid ++ x ∷ xs))) out c
        ≡ ret (front ++ ((c ∷ text) ++ (mid ++ c ∷ xs))) =
      ap (λ b. put b out c) (sym (parted (x ∷ xs)))
      ∙ put-append whole (x ∷ xs) out 0 c (omega arith) (omega arith)
      ∙ ap (λ b. ret b) (parted (c ∷ xs)) in
    rw (load-append front (c ∷ (text ++ (mid ++ x ∷ xs))) i 0 (omega arith), write)
      (ap (λ b. copy_bytes (length text) b (i + 1) (out + 1)) (sym (moved xs))
        ∙ copy_bytes-overlay text (front ++ c ∷ []) (mid ++ c ∷ []) xs (i + 1) (out + 1)
            (omega (arith, length-append front (c ∷ [])))
            (omega (arith, length-append front (c ∷ []), length-append mid (c ∷ []))) (omega arith)
        ∙ ap (λ b. ret b) (moved (overlay text xs)))

-- A buffer with a text in it that has spaces in front and blanks behind, and an area further on.
module _ (front lead first_part trail mid xs : Bytes) (a z : ℕ) (text rest : Bytes)
    (starts : text ≡ a ∷ rest) (ends : text ≡ first_part ++ z ∷ []) where
  around : Bytes → Bytes
  around ys = front ++ (lead ++ (text ++ (trail ++ (mid ++ ys))))

  -- The buffer seen from the start of the text, from its last byte, and from the area.
  from_text : (ys : Bytes) → (front ++ lead) ++ (text ++ ((trail ++ mid) ++ ys)) ≡ around ys
  unfolding around
  from_text ys =
      append_assoc front lead (text ++ ((trail ++ mid) ++ ys))
      ∙ ap (λ b. front ++ (lead ++ (text ++ b))) (append_assoc trail mid ys)

  from_last :
      (ys : Bytes) → (front ++ (lead ++ first_part)) ++ (z ∷ (trail ++ (mid ++ ys))) ≡ around ys
  unfolding around
  from_last ys =
      let behind = trail ++ (mid ++ ys) in
      append_assoc front (lead ++ first_part) (z ∷ behind)
      ∙ ap (λ b. front ++ b) (append_assoc lead first_part (z ∷ behind))
      ∙ ap (λ b. front ++ (lead ++ b)) (sym (append_assoc first_part (z ∷ []) behind))
      ∙ ap (λ t. front ++ (lead ++ (t ++ behind))) (sym ends)

  before : Bytes
  before = front ++ (lead ++ (text ++ (trail ++ mid)))

  from_area : (ys : Bytes) → before ++ ys ≡ around ys
  unfolding around before
  from_area ys =
      append_assoc front (lead ++ (text ++ (trail ++ mid))) ys
      ∙ ap (λ b. front ++ b) (append_assoc lead (text ++ (trail ++ mid)) ys)
      ∙ ap (λ b. front ++ (lead ++ b)) (append_assoc text (trail ++ mid) ys)
      ∙ ap (λ b. front ++ (lead ++ (text ++ b))) (append_assoc trail mid ys)

  length-before :
      length before ≡ length front + (length lead + (length text + (length trail + length mid)))
  unfolding before
  length-before = omega (
    arith,
    length-append front (lead ++ (text ++ (trail ++ mid))),
    length-append lead (text ++ (trail ++ mid)),
    length-append text (trail ++ mid),
    length-append trail mid,
  )

  length-text : length text ≡ length first_part + 1
  length-text = ap length ends ∙ length-append first_part (z ∷ [])

  trimmed :
      (start stop : ℕ)
      → AllSpaces lead
      → AllBlank trail
      → is_space a ≡ false
      → is_blank z ≡ false
      → start ≡ length front
      → stop ≡ length front + length lead + length text + length trail
      → trim_start_end (around xs) start stop
        ≡ ret (length front + length lead, length front + length lead + length text)
  unfolding trim_start_end around
  trimmed start stop spaces blanks na nz es et =
      let behind = trail ++ (mid ++ xs) in
      let left : trim_start (around xs) start ≡ ret (length front + length lead) =
        ap (λ t. trim_start (front ++ (lead ++ (t ++ behind))) start) starts
        ∙ trim_start-append front lead (rest ++ behind) a start es spaces na in
      let last = front ++ (lead ++ first_part) in
      let size : length last ≡ length front + (length lead + length first_part) =
        length-append front (lead ++ first_part)
        ∙ ap (λ n. length front + n) (length-append lead first_part) in
      let at_stop : stop ≡ suc (length last + length trail) = omega (arith, length-text) in
      let right : trim_end (around xs) stop ≡ ret (length front + length lead + length text) =
        ap₂ (λ b j. trim_end b j) (sym (from_last xs)) at_stop
        ∙ trim_end-back (length trail) last trail (mid ++ xs) z (omega arith) blanks nz
        ∙ ap (λ j. ret j) (omega (arith, size, length-text)) in
      rw (left, right) refl

  -- Of a range of the buffer with spaces in front of a text and blanks behind it,
  -- copy_trimmed_to_buf puts the text, which starts with no space and ends with no blank, at the
  -- start of an area further on that has room for it and one byte, with a zero behind it;
  -- nothing else of the buffer changes, and the place of that zero is returned.
  pub copy_trimmed_to_buf-text :
      (start stop out : ℕ)
      → AllSpaces lead
      → AllBlank trail
      → is_space a ≡ false
      → is_blank z ≡ false
      → start ≡ length front
      → stop ≡ length front + length lead + length text + length trail
      → out ≡ length front + length lead + length text + length trail + length mid
      → length text < length xs
      → copy_trimmed_to_buf (front ++ (lead ++ (text ++ (trail ++ (mid ++ xs))))) start stop out out
        ≡ ret (
          out + length text,
          front ++ (lead ++ (text ++ (trail ++ (mid ++ overlay (text ++ 0 ∷ []) xs)))),
        )
  unfolding copy_trimmed_to_buf copy_to_buf around
  copy_trimmed_to_buf-text start stop out spaces blanks na nz es et eo room =
      let start' = length front + length lead in
      let stop' = length front + length lead + length text in
      let span : stop' - start' ≡ length text = omega arith in
      let end : out + stop' - start' ≡ out + length text = omega arith in
      let copied : copy_bytes (length text) (around xs) start' out
          ≡ ret (around (overlay text xs)) =
        ap (λ b. copy_bytes (length text) b start' out) (sym (from_text xs))
        ∙ copy_bytes-overlay text (front ++ lead) (trail ++ mid) xs start' out
            (omega (arith, length-append front lead))
            (omega (arith, length-append front lead, length-append trail mid)) (omega arith)
        ∙ ap (λ b. ret b) (from_text (overlay text xs)) in
      let ended : put (around (overlay text xs)) (out + length text) 0
          ≡ ret (around (overlay (text ++ 0 ∷ []) xs)) =
        ap (λ b. put b (out + length text) 0) (sym (from_area (overlay text xs)))
        ∙ end_written before text xs out 0 (omega (arith, length-before)) room
        ∙ ap (λ b. ret b) (from_area (overlay (text ++ 0 ∷ []) xs)) in
      rw
        (
          trimmed start stop spaces blanks na nz es et,
          not_lt→ltb out out (omega arith),
          span,
          copied,
          not_lt→ltb (out + stop') start' (omega arith),
          end,
          ended,
        )
        refl
