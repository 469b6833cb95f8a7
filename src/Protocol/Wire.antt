-- ===== src/Protocol/Wire.antt =====
-- The byte format of a token stream, stated without a buffer.
use dpatch.Prelude.{
  sym, inl, inr, Bool-cases, ℕ, zero, suc, ◌+◌, ◌≡◌, ◌==◌, refl, ap, List, [], ◌∷◌, ◌++◌,
  if◌then◌else◌, append_assoc, arith, none, some, Option, replicate,
}
use dpatch.Memory.{Bytes}
use dpatch.Memory.Place.{IsText}
use dpatch.Protocol.{Token, token_none}

-- A token on the wire: its type, its text and a zero.
abbrev pub wire : Token → Bytes
wire t = elim t.value [ none ↦ [] | some value ↦ t.type ∷ (value ++ 0 ∷ []) ]

abbrev pub wires : List Token → Bytes
wires [] = []
wires (t ∷ ts) = wire t ++ wires ts

-- A value, or a NULL, without zero bytes.
abbrev pub IsTextOrNull : Option Bytes → Type 0
IsTextOrNull none = Unit
IsTextOrNull (some v) = IsText v

abbrev pub HasText : Option Bytes → Type 0
HasText none = ⊥
HasText (some v) = IsText v

abbrev pub live_cons : ℕ → Option Bytes → List Token → List Token
live_cons type none kept = kept
live_cons type (some v) kept =
    if type == token_none then kept else record { type = type; value = some v } ∷ kept

-- The tokens that are sent: those with a type and a value.
abbrev pub live : List Token → List Token
live [] = []
live (t ∷ ts) = live_cons t.type t.value (live ts)

-- Every token has a value, and no byte of it is zero.
abbrev pub AllText : List Token → Type 0
AllText [] = Unit
AllText (t ∷ ts) = HasText t.value × AllText ts

-- The values that there are hold no zero byte.
abbrev pub TextOrNull : List Token → Type 0
TextOrNull [] = Unit
TextOrNull (t ∷ ts) = IsTextOrNull t.value × TextOrNull ts

AllText-cons :
    (type : ℕ) (value : Option Bytes) (kept : List Token)
    → IsTextOrNull value
    → AllText kept
    → AllText (live_cons type value kept)
AllText-cons type none kept h hs = hs
AllText-cons type (some v) kept h hs = elim (Bool-cases (type == token_none)) [
  | inl e ↦ rw e hs
  | inr e ↦ rw e (h, hs)
]

pub live-AllText : (ts : List Token) → TextOrNull ts → AllText (live ts)
live-AllText [] h = tt
live-AllText (t ∷ ts) (h, hs) = AllText-cons t.type t.value (live ts) h (live-AllText ts hs)

-- What two zero bytes are read as: a token of type NONE with the empty text.
abbrev pub padding : Token
padding = record { type = 0; value = some [] }

pub wires-append : (xs ys : List Token) → wires (xs ++ ys) ≡ wires xs ++ wires ys
wires-append [] ys = refl
wires-append (x ∷ xs) ys =
    rw (wires-append xs ys) (sym (append_assoc (wire x) (wires xs) (wires ys)))

pub wires-padding : (n : ℕ) → wires (replicate n padding) ≡ replicate (n + n) 0
wires-padding zero = refl
wires-padding (suc n) =
    let e : suc n + suc n ≡ suc (suc (n + n)) = omega arith in
    rw e (ap (λ (zs : Bytes). 0 ∷ 0 ∷ zs) (wires-padding n))

pub AllText-padding : (n : ℕ) → AllText (replicate n padding)
AllText-padding zero = tt
AllText-padding (suc n) = (tt, AllText-padding n)

pub AllText-append : (xs ys : List Token) → AllText xs → AllText ys → AllText (xs ++ ys)
AllText-append [] ys h k = k
AllText-append (x ∷ xs) ys (h, hs) k = (h, AllText-append xs ys hs k)
