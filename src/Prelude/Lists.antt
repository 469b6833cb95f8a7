-- ===== src/Prelude/Lists.antt =====
-- C arrays as lists with native indices.
use Prim.Native.Nat.{ℕ, zero, suc, ◌+◌, ◌-◌, ◌≤◌, ◌<◌, min}
use mathlib.Core.Path.{◌≡◌, refl, ap}
use mathlib.Core.List.{List, [], ◌∷◌, ◌++◌, append_assoc}
use mathlib.Core.Option.{Option, none, some}
use native.Mathlib.Omega.{arith}
use dpatch.Prelude.Tests.{◌==◌, if◌then◌else◌}

module _ {ℓ} {A : Type ℓ} where
  abbrev pub length : List A → ℕ
  length [] = 0
  length (x ∷ xs) = suc (length xs)

  abbrev pub get_elem? : List A → ℕ → Option A
  get_elem? [] i = none
  get_elem? (x ∷ xs) zero = some x
  get_elem? (x ∷ xs) (suc i) = get_elem? xs i

  -- A write out of bounds changes nothing.
  abbrev pub set : List A → ℕ → A → List A
  set [] i v = []
  set (x ∷ xs) zero v = v ∷ xs
  set (x ∷ xs) (suc i) v = x ∷ set xs i v

  abbrev pub take : ℕ → List A → List A
  take zero xs = []
  take (suc n) [] = []
  take (suc n) (x ∷ xs) = x ∷ take n xs

  abbrev pub replicate : ℕ → A → List A
  replicate zero a = []
  replicate (suc n) a = a ∷ replicate n a

  pub length-append : (xs ys : List A) → length (xs ++ ys) ≡ length xs + length ys
  length-append [] ys = omega arith
  length-append (x ∷ xs) ys = omega (arith, length-append xs ys)

  pub length-set : (xs : List A) (i : ℕ) (v : A) → length (set xs i v) ≡ length xs
  length-set [] i v = refl
  length-set (x ∷ xs) zero v = refl
  length-set (x ∷ xs) (suc i) v = ap suc (length-set xs i v)

  pub length-replicate : (n : ℕ) (a : A) → length (replicate n a) ≡ n
  length-replicate zero a = refl
  length-replicate (suc n) a = ap suc (length-replicate n a)

  pub length-take : (n : ℕ) (xs : List A) → length (take n xs) ≡ min n (length xs)
  length-take zero xs = omega arith
  length-take (suc n) [] = omega arith
  length-take (suc n) (x ∷ xs) = omega (arith, length-take n xs)

  pub get_elem?_in : (xs : List A) (i : ℕ) → i < length xs → (a : A) × (get_elem? xs i ≡ some a)
  get_elem?_in [] i h = absurd (omega arith)
  get_elem?_in (x ∷ xs) zero h = (x, refl)
  get_elem?_in (x ∷ xs) (suc i) h = get_elem?_in xs i (omega arith)

  pub get_elem?_out : (xs : List A) (i : ℕ) → length xs ≤ i → get_elem? xs i ≡ none
  get_elem?_out [] i h = refl
  get_elem?_out (x ∷ xs) zero h = absurd (omega arith)
  get_elem?_out (x ∷ xs) (suc i) h = get_elem?_out xs i (omega arith)

  pub lt_of_get_elem? : (xs : List A) (i : ℕ) {a : A} → get_elem? xs i ≡ some a → i < length xs
  lt_of_get_elem? [] i h = absurd (ground arith)
  lt_of_get_elem? (x ∷ xs) zero h = omega arith
  lt_of_get_elem? (x ∷ xs) (suc i) h = omega (arith, lt_of_get_elem? xs i h)

  -- A write is seen at its own index only.
  pub get_elem?-set :
      (xs : List A) (i j : ℕ) (v : A)
      → i < length xs
      → get_elem? (set xs i v) j ≡ (if j == i then some v else get_elem? xs j)
  get_elem?-set [] i j v h = absurd (omega arith)
  get_elem?-set (x ∷ xs) zero zero v h = ground arith
  get_elem?-set (x ∷ xs) zero (suc j) v h = ground arith
  get_elem?-set (x ∷ xs) (suc i) zero v h = ground arith
  get_elem?-set (x ∷ xs) (suc i) (suc j) v h = ground (arith, get_elem?-set xs i j v)

  pub set-set : (xs : List A) (i : ℕ) (v w : A) → set (set xs i v) i w ≡ set xs i w
  set-set [] i v w = refl
  set-set (x ∷ xs) zero v w = refl
  set-set (x ∷ xs) (suc i) v w = ap (◌∷◌ x) (set-set xs i v w)

  -- A prefix does not see a write behind it.
  pub take-set : (n : ℕ) (xs : List A) (v : A) → take n (set xs n v) ≡ take n xs
  take-set zero xs v = refl
  take-set (suc n) [] v = refl
  take-set (suc n) (x ∷ xs) v = ap (◌∷◌ x) (take-set n xs v)

  pub take-suc :
      (n : ℕ) (xs : List A) {a : A}
      → get_elem? xs n ≡ some a
      → take (suc n) xs ≡ take n xs ++ a ∷ []
  take-suc n [] h = absurd (ground arith)
  take-suc zero (x ∷ xs) h = ground arith
  take-suc (suc n) (x ∷ xs) h = ap (◌∷◌ x) (take-suc n xs h)

-- How many entries of a list are `j`.
abbrev pub occurrences : ℕ → List ℕ → ℕ
occurrences j [] = 0
occurrences j (i ∷ slots) = (if i == j then 1 else 0) + occurrences j slots

pub occurrences-append :
    (j : ℕ) (xs ys : List ℕ) → occurrences j (xs ++ ys) ≡ occurrences j xs + occurrences j ys
occurrences-append j [] ys = ground arith
occurrences-append j (i ∷ xs) ys = let rest = occurrences-append j xs ys in ground (arith, rest)

module _ {ℓ} {A : Type ℓ} where
  pub list_ext :
      (xs ys : List A)
      → length xs ≡ length ys
      → ((j : ℕ) → j < length xs → get_elem? xs j ≡ get_elem? ys j)
      → xs ≡ ys
  list_ext [] [] l h = refl
  list_ext [] (y ∷ ys) l h = absurd (omega arith)
  list_ext (x ∷ xs) [] l h = absurd (omega arith)
  list_ext (x ∷ xs) (y ∷ ys) l h =
      cc (h 0 (omega arith), list_ext xs ys (omega arith) (λ j k. h (suc j) (omega arith)))

  pub take_length : (n : ℕ) (xs : List A) → length xs ≡ n → take n xs ≡ xs
  take_length zero [] l = refl
  take_length zero (x ∷ xs) l = absurd (omega arith)
  take_length (suc n) [] l = refl
  take_length (suc n) (x ∷ xs) l = ap (◌∷◌ x) (take_length n xs (omega arith))

module _ {ℓ} {A : Type ℓ} where
  abbrev pub drop : ℕ → List A → List A
  drop zero xs = xs
  drop (suc n) [] = []
  drop (suc n) (x ∷ xs) = drop n xs

  pub length-drop : (n : ℕ) (xs : List A) → length (drop n xs) ≡ length xs - n
  length-drop zero xs = omega arith
  length-drop (suc n) [] = omega arith
  length-drop (suc n) (x ∷ xs) = omega (arith, length-drop n xs)

  pub drop-nil : (n : ℕ) → drop n [] ≡ []
  drop-nil zero = refl
  drop-nil (suc n) = refl

  pub drop-drop : (n m : ℕ) (xs : List A) → drop n (drop m xs) ≡ drop (m + n) xs
  drop-drop n zero xs = let e : 0 + n ≡ n = omega arith in rw e
  drop-drop n (suc m) [] = let e : suc m + n ≡ suc (m + n) = omega arith in rw (e, drop-nil n)
  drop-drop n (suc m) (x ∷ xs) =
      let e : suc m + n ≡ suc (m + n) = omega arith in rw e (drop-drop n m xs)

  pub drop-append : (xs ys : List A) → drop (length xs) (xs ++ ys) ≡ ys
  drop-append [] ys = refl
  drop-append (x ∷ xs) ys = drop-append xs ys

  pub take-append-drop : (n : ℕ) (xs : List A) → take n xs ++ drop n xs ≡ xs
  take-append-drop zero xs = refl
  take-append-drop (suc n) [] = refl
  take-append-drop (suc n) (x ∷ xs) = ap (◌∷◌ x) (take-append-drop n xs)

  pub take-append : (xs ys : List A) → take (length xs) (xs ++ ys) ≡ xs
  take-append [] ys = refl
  take-append (x ∷ xs) ys = ap (◌∷◌ x) (take-append xs ys)

  -- `xs` written over the front of `ys`.
  abbrev pub overlay : List A → List A → List A
  overlay xs ys = xs ++ drop (length xs) ys

  pub overlay-append :
      (xs ys zs : List A) → overlay (xs ++ ys) zs ≡ xs ++ overlay ys (drop (length xs) zs)
  overlay-append xs ys zs = rw (length-append xs ys, drop-drop, append_assoc)

module _ {ℓ} {A : Type ℓ} where
  pub replicate-add : (m n : ℕ) (a : A) → replicate (m + n) a ≡ replicate m a ++ replicate n a
  replicate-add zero n a = let e : 0 + n ≡ n = omega arith in rw e
  replicate-add (suc m) n a =
      let e : suc m + n ≡ suc (m + n) = omega arith in rw e (ap (◌∷◌ a) (replicate-add m n a))

  pub drop-replicate : (m n : ℕ) (a : A) → drop m (replicate n a) ≡ replicate (n - m) a
  drop-replicate zero n a = let e : n - 0 ≡ n = omega arith in rw e
  drop-replicate (suc m) zero a = let e : 0 - suc m ≡ 0 = omega arith in rw e
  drop-replicate (suc m) (suc n) a =
      let e : suc n - suc m ≡ n - m = omega arith in rw e (drop-replicate m n a)

  pub get_elem?-replicate : (n j : ℕ) (a : A) → j < n → get_elem? (replicate n a) j ≡ some a
  get_elem?-replicate zero j a h = absurd (omega arith)
  get_elem?-replicate (suc n) zero a h = refl
  get_elem?-replicate (suc n) (suc j) a h = get_elem?-replicate n j a (omega arith)

module _ {ℓ} {A : Type ℓ} where
  pub take-nil : (n : ℕ) → take {A = A} n [] ≡ []
  take-nil zero = refl
  take-nil (suc n) = refl

  pub take-add : (m n : ℕ) (xs : List A) → take (m + n) xs ≡ take m xs ++ take n (drop m xs)
  take-add zero n xs = let e : 0 + n ≡ n = omega arith in rw e
  take-add (suc m) n [] = let e : suc m + n ≡ suc (m + n) = omega arith in rw (e, take-nil n)
  take-add (suc m) n (x ∷ xs) =
      let e : suc m + n ≡ suc (m + n) = omega arith in rw e (ap (◌∷◌ x) (take-add m n xs))

  pub take-take : (m n : ℕ) (xs : List A) → m ≤ n → take m (take n xs) ≡ take m xs
  take-take zero n xs h = refl
  take-take (suc m) zero xs h = absurd (omega arith)
  take-take (suc m) (suc n) [] h = refl
  take-take (suc m) (suc n) (x ∷ xs) h = ap (◌∷◌ x) (take-take m n xs (omega arith))

  pub take-replicate : (m n : ℕ) (a : A) → m ≤ n → take m (replicate n a) ≡ replicate m a
  take-replicate zero n a h = refl
  take-replicate (suc m) zero a h = absurd (omega arith)
  take-replicate (suc m) (suc n) a h = ap (◌∷◌ a) (take-replicate m n a (omega arith))

  pub take-whole : (n : ℕ) (xs : List A) → length xs ≤ n → take n xs ≡ xs
  take-whole zero [] h = refl
  take-whole zero (x ∷ xs) h = absurd (omega arith)
  take-whole (suc n) [] h = refl
  take-whole (suc n) (x ∷ xs) h = ap (◌∷◌ x) (take-whole n xs (omega arith))
