-- ===== src/Memory/Place.antt =====
-- Reads and writes behind a prefix `pre` of a buffer.
use dpatch.Prelude.{
  ℕ, zero, suc, ◌+◌, ◌/◌, ◌%◌, ◌^◌, ◌<◌, ◌≤◌, ◌≡◌, ◌≢◌, refl, sym, ap, ◌∙◌, List, [], ◌∷◌, ◌++◌,
  length, set, drop, overlay, append_assoc, length-append, length-drop, drop-drop, arith,
}
use dpatch.Exec.{fault, ret, load, put}
use dpatch.Memory.{Bytes, read_int, write_int, string_at, put_string, wipe}

module _ {ℓ} {A : Type ℓ} where
  pub load-append :
      (pre xs : List A) (at k : ℕ) → at ≡ length pre + k → load (pre ++ xs) at ≡ load xs k
  load-append [] xs at k e = let e' : at ≡ k = omega arith in rw e'
  load-append (p ∷ pre) xs zero k e = absurd (omega arith)
  load-append (p ∷ pre) xs (suc at) k e = load-append pre xs at k (omega arith)

  pub set-append :
      (pre xs : List A) (at k : ℕ) (v : A)
      → at ≡ length pre + k
      → set (pre ++ xs) at v ≡ pre ++ set xs k v
  set-append [] xs at k v e = let e' : at ≡ k = omega arith in rw e'
  set-append (p ∷ pre) xs zero k v e = absurd (omega arith)
  set-append (p ∷ pre) xs (suc at) k v e = ap (◌∷◌ p) (set-append pre xs at k v (omega arith))

  pub put-append :
      (pre xs : List A) (at k : ℕ) (v : A)
      → at ≡ length pre + k
      → k < length xs
      → put (pre ++ xs) at v ≡ ret (pre ++ set xs k v)
  put-append pre xs at k v e h = ground (arith, set-append pre xs at k v e, length-append pre xs)

  pub put_outside :
      (pre xs : List A) (at k : ℕ) (v : A)
      → at ≡ length pre + k
      → length xs ≤ k
      → put (pre ++ xs) at v ≡ fault
  put_outside pre xs at k v e h = ground (arith, length-append pre xs)

  pub wipe-overlay :
      (blank : A) (n : ℕ) (xs : List A)
      → n ≤ length xs
      → (ys : List A) × (wipe blank n xs ≡ ret ys)
        × (length ys ≡ length xs)
        × (drop n ys ≡ drop n xs)
  unfolding wipe
  wipe-overlay blank zero xs h = (xs, refl, refl, refl)
  wipe-overlay blank (suc n) [] h = absurd (omega arith)
  wipe-overlay blank (suc n) (x ∷ xs) h =
      let (ys, e, l, d) = wipe-overlay blank n xs (omega arith) in (blank ∷ ys, rw e, ap suc l, d)

abbrev pub int_bytes : ℕ → Bytes
int_bytes n =
    (n % 0x100) ∷ (n / 0x100 % 0x100) ∷ (n / 0x10000 % 0x100) ∷ (n / 0x1000000 % 0x100) ∷ []

pub read_int-int_bytes :
    (pre post : Bytes) (at n : ℕ)
    → at ≡ length pre
    → n < 2 ^ 32
    → read_int (pre ++ (int_bytes n ++ post)) at ≡ ret n
unfolding read_int
read_int-int_bytes pre post at n e h = ground (
  arith,
  load-append pre (int_bytes n ++ post) at 0 (omega arith),
  load-append pre (int_bytes n ++ post) (at + 1) 1 (omega arith),
  load-append pre (int_bytes n ++ post) (at + 2) 2 (omega arith),
  load-append pre (int_bytes n ++ post) (at + 3) 3 (omega arith),
)

pub write_int-overlay :
    (pre xs : Bytes) (at n : ℕ)
    → at ≡ length pre
    → 4 ≤ length xs
    → write_int (pre ++ xs) at n ≡ ret (pre ++ overlay (int_bytes n) xs)
unfolding write_int
write_int-overlay pre [] at n e h = absurd (omega arith)
write_int-overlay pre (a ∷ []) at n e h = absurd (omega arith)
write_int-overlay pre (a ∷ b ∷ []) at n e h = absurd (omega arith)
write_int-overlay pre (a ∷ b ∷ c ∷ []) at n e h = absurd (omega arith)
write_int-overlay pre (a ∷ b ∷ c ∷ d ∷ xs) at n e h =
    let n0 = n % 0x100 in
    let n1 = n / 0x100 % 0x100 in
    let n2 = n / 0x10000 % 0x100 in
    let n3 = n / 0x1000000 % 0x100 in
    rw (put-append pre (a ∷ b ∷ c ∷ d ∷ xs) at 0 n0 (omega arith) (omega arith)) (
      rw (put-append pre (n0 ∷ b ∷ c ∷ d ∷ xs) (at + 1) 1 n1 (omega arith) (omega arith)) (
        rw (put-append pre (n0 ∷ n1 ∷ c ∷ d ∷ xs) (at + 2) 2 n2 (omega arith) (omega arith))
          (put-append pre (n0 ∷ n1 ∷ n2 ∷ d ∷ xs) (at + 3) 3 n3 (omega arith) (omega arith))))

-- No byte of a C string is zero.
abbrev pub IsText : Bytes → Type 0
IsText [] = Unit
IsText (b ∷ bs) = (b ≢ 0) × IsText bs

string_at_front : (v post : Bytes) → IsText v → string_at (v ++ 0 ∷ post) 0 ≡ ret v
unfolding string_at
string_at_front [] post t = refl
string_at_front (b ∷ bs) post (nz, t) = ground (arith, string_at_front bs post t, nz)

string_at_behind :
    (pre xs : Bytes) (at : ℕ) → at ≡ length pre → string_at (pre ++ xs) at ≡ string_at xs 0
unfolding string_at
string_at_behind [] xs at e = let e' : at ≡ 0 = omega arith in rw e'
string_at_behind (p ∷ pre) xs zero e = absurd (omega arith)
string_at_behind (p ∷ pre) xs (suc at) e = string_at_behind pre xs at (omega arith)

-- A string behind a prefix is read back whole.
pub string_at-append :
    (pre v post : Bytes) (at : ℕ)
    → at ≡ length pre
    → IsText v
    → string_at (pre ++ (v ++ 0 ∷ post)) at ≡ ret v
string_at-append pre v post at e t =
    string_at_behind pre (v ++ 0 ∷ post) at e ∙ string_at_front v post t

pub put_string-overlay :
    (pre v xs : Bytes) (at : ℕ)
    → at ≡ length pre
    → length v < length xs
    → put_string (pre ++ xs) at v ≡ ret (pre ++ overlay (v ++ 0 ∷ []) xs)
unfolding put_string
put_string-overlay pre v [] at e h = absurd (omega arith)
put_string-overlay pre [] (x ∷ xs) at e h =
    put-append pre (x ∷ xs) at 0 0 (omega arith) (omega arith)
put_string-overlay pre (b ∷ bs) (x ∷ xs) at e h =
    rw (put-append pre (x ∷ xs) at 0 b (omega arith) (omega arith)) (
      rw (sym (append_assoc pre (b ∷ []) xs)) (
        put_string-overlay (pre ++ b ∷ []) bs xs (at + 1)
          (omega (arith, length-append pre (b ∷ []))) (omega arith)
        ∙ ap ret (append_assoc pre (b ∷ []) (overlay (bs ++ 0 ∷ []) xs))))

-- A string that does not fit is written outside the buffer.
pub put_string-fault :
    (pre v xs : Bytes) (at : ℕ)
    → at ≡ length pre
    → length xs ≤ length v
    → put_string (pre ++ xs) at v ≡ fault
unfolding put_string
put_string-fault pre [] xs at e h = put_outside pre xs at 0 0 (omega arith) h
put_string-fault pre (b ∷ bs) [] at e h = rw (put_outside pre [] at 0 b (omega arith) (omega arith))
put_string-fault pre (b ∷ bs) (x ∷ xs) at e h =
    rw (put-append pre (x ∷ xs) at 0 b (omega arith) (omega arith)) (
      rw (sym (append_assoc pre (b ∷ []) xs)) (
        put_string-fault (pre ++ b ∷ []) bs xs (at + 1) (omega (arith, length-append pre (b ∷ [])))
          (omega arith)))

pub write_int-fault :
    (pre xs : Bytes) (at n : ℕ)
    → at ≡ length pre
    → length xs < 4
    → write_int (pre ++ xs) at n ≡ fault
unfolding write_int
write_int-fault pre [] at n e h =
    rw (put_outside pre [] at 0 (n % 0x100) (omega arith) (omega arith))
write_int-fault pre (a ∷ []) at n e h =
    rw (put-append pre (a ∷ []) at 0 (n % 0x100) (omega arith) (omega arith)) (
      rw (
        put_outside pre ((n % 0x100) ∷ []) (at + 1) 1 (n / 0x100 % 0x100) (omega arith)
          (omega arith)))
write_int-fault pre (a ∷ b ∷ []) at n e h =
    let n0 = n % 0x100 in
    let n1 = n / 0x100 % 0x100 in
    rw (put-append pre (a ∷ b ∷ []) at 0 n0 (omega arith) (omega arith)) (
      rw (put-append pre (n0 ∷ b ∷ []) (at + 1) 1 n1 (omega arith) (omega arith)) (
        rw (
          put_outside pre (n0 ∷ n1 ∷ []) (at + 2) 2 (n / 0x10000 % 0x100) (omega arith)
            (omega arith))))
write_int-fault pre (a ∷ b ∷ c ∷ []) at n e h =
    let n0 = n % 0x100 in
    let n1 = n / 0x100 % 0x100 in
    let n2 = n / 0x10000 % 0x100 in
    rw (put-append pre (a ∷ b ∷ c ∷ []) at 0 n0 (omega arith) (omega arith)) (
      rw (put-append pre (n0 ∷ b ∷ c ∷ []) (at + 1) 1 n1 (omega arith) (omega arith)) (
        rw (put-append pre (n0 ∷ n1 ∷ c ∷ []) (at + 2) 2 n2 (omega arith) (omega arith)) (
          rw (
            put_outside pre (n0 ∷ n1 ∷ n2 ∷ []) (at + 3) 3 (n / 0x1000000 % 0x100) (omega arith)
              (omega arith)))))
write_int-fault pre (a ∷ b ∷ c ∷ d ∷ xs) at n e h = absurd (omega arith)

set_first : (xs : Bytes) (c : ℕ) → 0 < length xs → set xs 0 c ≡ c ∷ drop 1 xs
set_first [] c h = absurd (omega arith)
set_first (x ∷ xs) c h = refl

-- The byte behind a text that has been written.
pub end_written :
    (pre v xs : Bytes) (at c : ℕ)
    → at ≡ length pre
    → length v < length xs
    → put (pre ++ overlay v xs) (at + length v) c ≡ ret (pre ++ overlay (v ++ c ∷ []) xs)
end_written pre v xs at c e h =
    let behind : 0 < length (drop (length v) xs) = omega (arith, length-drop (length v) xs) in
    let written =
      put-append (pre ++ v) (drop (length v) xs) (at + length v) 0 c
        (omega (arith, length-append pre v)) behind in
    let one : length (v ++ c ∷ []) ≡ length v + 1 = length-append v (c ∷ []) in
    let shape : (pre ++ v) ++ set (drop (length v) xs) 0 c ≡ pre ++ overlay (v ++ c ∷ []) xs =
      append_assoc pre v (set (drop (length v) xs) 0 c)
      ∙ ap (λ t. pre ++ t)
          (ap (λ t. v ++ t)
              (set_first (drop (length v) xs) c behind
                ∙ ap (λ t. c ∷ t) (drop-drop 1 (length v) xs ∙ ap (λ n. drop n xs) (sym one)))
            ∙ sym (append_assoc v (c ∷ []) (drop (length (v ++ c ∷ [])) xs))) in
    ap (λ b. put b (at + length v) c) (sym (append_assoc pre v (drop (length v) xs)))
    ∙ written
    ∙ ap (λ b. ret b) shape
