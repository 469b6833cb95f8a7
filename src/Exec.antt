-- ===== src/Exec.antt =====
-- Undefined behaviour of the C code as a value: an access outside an object is a `fault`.
use dpatch.Prelude.{
  ℕ, ◌<◌, ◌≡◌, refl, ◌⊎◌, inl, inr, Option, none, some, List, get_elem?, set, ltb, length,
  if◌then◌else◌, Bool, true, false, arith,
}

pub data Exec {ℓ} (A : Type ℓ) : Type ℓ where
  fault : Exec A
  ret : A → Exec A

infixl 5 ◌>>=◌ ◌>>◌
abbrev pub ◌>>=◌ {ℓ κ} : {A : Type ℓ} {B : Type κ} → Exec A → (A → Exec B) → Exec B
fault >>= f = fault
ret a >>= f = f a

abbrev pub ◌>>◌ {ℓ} : {B : Type ℓ} → Exec (Unit {0}) → Exec B → Exec B
m >> k = m >>= λ _. k

-- To split on a computation and keep the equation.
pub Exec-cases {ℓ} : {A : Type ℓ} (m : Exec A) → (m ≡ fault) ⊎ ((a : A) × (m ≡ ret a))
Exec-cases fault = inl refl
Exec-cases (ret a) = inr (a, refl)

-- Inversion of a bind that does not fault.
pub >>=-eq-ret {ℓ κ} :
    {A : Type ℓ} {B : Type κ} (m : Exec A) (f : A → Exec B) {b : B}
    → (m >>= f) ≡ ret b
    → (a : A) × (m ≡ ret a) × (f a ≡ ret b)
>>=-eq-ret fault f h = cc
>>=-eq-ret (ret a) f h = (a, refl, h)

-- The same for a proof that goes on with what the first part returns.
pub bind_elim {ℓ κ ι} :
    {A : Type ℓ} {B : Type κ} {P : Type ι} (m : Exec A) (f : A → Exec B) {b : B}
    → (m >>= f) ≡ ret b
    → ((a : A) → m ≡ ret a → f a ≡ ret b → P)
    → P
bind_elim fault f h k = absurd (cc h)
bind_elim (ret a) f h k = k a refl h

-- Inversion of a test in front of two computations.
pub if_elim {ℓ ι} :
    {A : Type ℓ} {P : Type ι} (b : Bool) (x y : Exec A) {a : A}
    → (if b then x else y) ≡ ret a
    → (b ≡ true → x ≡ ret a → P)
    → (b ≡ false → y ≡ ret a → P)
    → P
if_elim true x y h on_true on_false = on_true refl h
if_elim false x y h on_true on_false = on_false refl h

-- Inversion of a case distinction on an option.
pub option_elim {ℓ κ ι} :
    {A : Type ℓ} {B : Type κ} {P : Type ι} (o : Option A) (x : Exec B) (f : A → Exec B) {b : B}
    → elim o [ none ↦ x | some a ↦ f a ] ≡ ret b
    → (o ≡ none → x ≡ ret b → P)
    → ((a : A) → o ≡ some a → f a ≡ ret b → P)
    → P
option_elim none x f h on_none on_some = on_none refl h
option_elim (some a) x f h on_none on_some = on_some a refl h

module _ {ℓ} {A : Type ℓ} where
  -- `p[i]`
  abbrev pub load : List A → ℕ → Exec A
  load xs i = elim (get_elem? xs i) [ none ↦ fault | some a ↦ ret a ]

  -- `p[i] = v`
  abbrev pub put : List A → ℕ → A → Exec (List A)
  put xs i v = if ltb i (length xs) then ret (set xs i v) else fault

  pub put-ret : (xs : List A) (i : ℕ) (v : A) → i < length xs → put xs i v ≡ ret (set xs i v)
  put-ret xs i v h = ground arith
