-- ===== src/Config/Kinds.antt =====
-- The kinds of arguments, and what one round of `config_collect_args` does with each.
use dpatch.Prelude.{
  ℕ, ◌+◌, ◌<◌, ◌≡◌, ◌≢◌, ◌⊎◌, inl, inr, refl, ℤ, true, List, [], ◌∷◌, ◌++◌, map, Option, none, some,
  if◌then◌else◌, length, set, arith, Bool-cases,
}
use dpatch.Exec.{ret, load, put-ret}
use dpatch.Memory.{Bytes}
use dpatch.Config.{Args, is_option, collect_arg}

-- What an argument is: an option, an option that takes the next argument as its value, the port,
-- which also does, or a word of the command.
pub data Kind : Type 0 where
  flag valued port word : Kind

abbrev pub kind : Bytes → Kind
kind arg =
    if is_option b'd' arg
    then flag
    else if is_option b'q' arg
    then flag
    else if is_option b'p' arg
    then port
    else if is_option b'w' arg
    then valued
    else if is_option b'f' arg
    then valued
    else if is_option b'l' arg
    then valued
    else if is_option b'h' arg
    then flag
    else word

-- The two states have collected the same words, and have the same run mode.
abbrev pub SameWords : Args → Args → Type 0
SameWords args args' =
    (args'.arg_indices ≡ args.arg_indices)
    × (args'.arg_count ≡ args.arg_count)
    × (args'.run_mode ≡ args.run_mode)

module _ (atoi : Bytes → ℤ) (argv : List (Option Bytes)) (i : ℕ) (arg : Bytes) (args : Args) where
  pub collect_arg-flag :
      kind arg ≡ flag
      → (args' : Args) × (collect_arg atoi argv i arg args ≡ ret (i, args')) × SameWords args args'
  unfolding collect_arg
  collect_arg-flag k = elim (Bool-cases (is_option b'd' arg)) [
    | inl d ↦ (record args { mode_detached = true }, ground arith, (refl, refl, refl))
    | inr d ↦ elim (Bool-cases (is_option b'q' arg)) [
      | inl q ↦ (record args { quiet = true }, ground arith, (refl, refl, refl))
      | inr q ↦ (record args { help = true }, ground arith, (refl, refl, refl))
    ]
  ]

  pub collect_arg-port :
      (text : Bytes)
      → kind arg ≡ port
      → load argv (i + 1) ≡ ret (some text)
      → (args' : Args) × (collect_arg atoi argv i arg args ≡ ret (i + 1, args'))
        × SameWords args args'
  unfolding collect_arg
  collect_arg-port text k e = (record args { port = atoi text }, ground arith, (refl, refl, refl))

  pub collect_arg-word :
      kind arg ≡ word
      → args.arg_count < length args.arg_indices
      → collect_arg atoi argv i arg args
        ≡ ret (
          i,
          record args {
            arg_indices = set args.arg_indices args.arg_count i;
            arg_count = args.arg_count + 1;
          },
        )
  unfolding collect_arg
  collect_arg-word k room = ground (arith, put-ret args.arg_indices args.arg_count i room)

  pub collect_arg-valued :
      (text : Option Bytes)
      → kind arg ≡ valued
      → load argv (i + 1) ≡ ret text
      → (args' : Args) × (collect_arg atoi argv i arg args ≡ ret (i + 1, args'))
        × SameWords args args'
  unfolding collect_arg
  collect_arg-valued text k e = elim (Bool-cases (is_option b'w' arg)) [
    | inl w ↦ (record args { watch_path = text }, ground arith, (refl, refl, refl))
    | inr w ↦ elim (Bool-cases (is_option b'f' arg)) [
      | inl f ↦ (record args { ws_file = text }, ground arith, (refl, refl, refl))
      | inr f ↦ (record args { log_file = text }, ground arith, (refl, refl, refl))
    ]
  ]

pub Kind-cases : (k : Kind) → (k ≡ flag) ⊎ (k ≡ valued) ⊎ (k ≡ port) ⊎ (k ≡ word)
Kind-cases flag = inl refl
Kind-cases valued = inr (inl refl)
Kind-cases port = inr (inr (inl refl))
Kind-cases word = inr (inr (inr refl))

-- Argument `i` joins the places behind it, if it is a word; if it takes a value, these start behind
-- the value.
abbrev pub join_place : Kind → ℕ → List ℕ → List ℕ → List ℕ
join_place flag i kept skipped = kept
join_place valued i kept skipped = skipped
join_place port i kept skipped = skipped
join_place word i kept skipped = i ∷ kept

-- The places of the words among the arguments from place `i` on.
abbrev pub word_places : ℕ → List Bytes → List ℕ
word_places i [] = []
word_places i (a ∷ []) = join_place (kind a) i [] []
word_places i (a ∷ b ∷ rest) =
    join_place (kind a) i (word_places (i + 1) (b ∷ rest)) (word_places (i + 2) rest)

-- The last argument is not the option for the port, which would have no value.
abbrev pub PortHasValue : List Bytes → Type 0
PortHasValue [] = Unit
PortHasValue (a ∷ []) = kind a ≢ port
PortHasValue (a ∷ b ∷ rest) = PortHasValue (b ∷ rest)

pub PortHasValue-rest :
    (b : Bytes) (rest : List Bytes) → PortHasValue (b ∷ rest) → PortHasValue rest
PortHasValue-rest b [] h = tt
PortHasValue-rest b (c ∷ rest) h = h

-- `argv` from some place on: the arguments and the NULL behind them.
abbrev pub vector : List Bytes → List (Option Bytes)
vector rest = map some rest ++ none ∷ []
