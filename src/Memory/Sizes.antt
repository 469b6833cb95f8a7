-- ===== src/Memory/Sizes.antt =====
-- No write changes the size of what is written to.
use dpatch.Prelude.{
  ℕ, zero, suc, ◌+◌, ◌/◌, ◌%◌, ◌≡◌, ◌∙◌, ap, sym, List, [], ◌∷◌, length, length-set, set, ltb,
}
use dpatch.Exec.{ret, put, bind_elim, if_elim}
use dpatch.Memory.{Bytes, write_int, put_string, wipe}

-- Two arrays of one size.
abbrev pub SameSize {ℓ} : {A : Type ℓ} → List A → List A → Type 0
SameSize xs ys = length ys ≡ length xs

module _ {ℓ} {A : Type ℓ} where
  pub put-SameSize :
      (xs : List A) (i : ℕ) (v : A) {ys : List A} → put xs i v ≡ ret ys → SameSize xs ys
  put-SameSize xs i v {ys} h =
      if_elim (ltb i (length xs)) _ _ h
        (λ _ e. (let same : set xs i v ≡ ys = cc e in ap length (sym same) ∙ length-set xs i v))
        (λ _ e. absurd (cc e))

  pub wipe-SameSize :
      (blank : A) (n : ℕ) (xs : List A) {ys : List A} → wipe blank n xs ≡ ret ys → SameSize xs ys
  unfolding wipe
  wipe-SameSize blank zero xs {ys} h = let same : xs ≡ ys = cc h in ap length (sym same)
  wipe-SameSize blank (suc n) [] h = absurd (cc h)
  wipe-SameSize blank (suc n) (x ∷ xs) {ys} h = bind_elim (wipe blank n xs) _ h λ rest e h1.
      let same : blank ∷ rest ≡ ys = cc h1 in
      ap length (sym same) ∙ ap suc (wipe-SameSize blank n xs e)

pub write_int-SameSize :
    (buf : Bytes) (at n : ℕ) {buf' : Bytes} → write_int buf at n ≡ ret buf' → SameSize buf buf'
unfolding write_int
write_int-SameSize buf at n h = bind_elim (put buf at (n % 0x100)) _ h λ b1 e1 h1.
    bind_elim (put b1 (at + 1) (n / 0x100 % 0x100)) _ h1 λ b2 e2 h2.
      bind_elim (put b2 (at + 2) (n / 0x10000 % 0x100)) _ h2 λ b3 e3 h3.
        put-SameSize b3 (at + 3) (n / 0x1000000 % 0x100) h3
        ∙ put-SameSize b2 (at + 2) (n / 0x10000 % 0x100) e3
        ∙ put-SameSize b1 (at + 1) (n / 0x100 % 0x100) e2
        ∙ put-SameSize buf at (n % 0x100) e1

pub put_string-SameSize :
    (buf : Bytes) (at : ℕ) (text : Bytes) {buf' : Bytes}
    → put_string buf at text ≡ ret buf'
    → SameSize buf buf'
unfolding put_string
put_string-SameSize buf at [] h = put-SameSize buf at 0 h
put_string-SameSize buf at (b ∷ text) h =
    bind_elim (put buf at b) _ h
      λ next e h1. put_string-SameSize next (at + 1) text h1 ∙ put-SameSize buf at b e
