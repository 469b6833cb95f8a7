-- ===== src/Protocol/Parse.antt =====
-- `protocol_parse_token_stream` sorts the token values into the two arrays, each with a NULL behind
-- it, and overruns an array that has no room for its NULL.
use dpatch.Prelude.{
  ℕ_discrete, ℕ, zero, suc, ◌+◌, ◌%◌, ◌<◌, ◌≤◌, ◌≡◌, ◌≢◌, ◌==◌, refl, sym, ap, ap₂, ◌∙◌, List, [],
  ◌∷◌, ◌++◌, if◌then◌else◌, length, append_assoc, append-nil, length-append, arith, none, Option,
  drop, overlay, length-drop, leb, ltb, take, length-take, dec_lt, Bool, set, ◌&&◌,
  take-append-drop,
}
use dpatch.Exec.{Exec, fault, ret, ◌>>=◌, put}
use dpatch.Memory.{Bytes}
use dpatch.Memory.Place.{load-append, put-append, put_outside}
use dpatch.Protocol.{
  Token, TokenStream, Split, token_arg, token_var, split_token, split_tokens, parse_token_stream,
}

-- The values of the tokens of one type, in order.
abbrev pub values_of : ℕ → List Token → List (Option Bytes)
values_of type [] = []
values_of type (t ∷ ts) = if t.type == type then t.value ∷ values_of type ts else values_of type ts

abbrev fits : List Token → List (Option Bytes) → List (Option Bytes) → Bool
fits ts args vars =
    leb (length (values_of token_arg ts)) (length args)
    && leb (length (values_of token_var ts)) (length vars)

-- The arrays with `a` and `v` filled in, and what is free behind them.
abbrev filled :
    List (Option Bytes) → List (Option Bytes) → List (Option Bytes) → List (Option Bytes) → Split
filled a args v vars = record {
  argc = length a;
  varc = length v;
  args = a ++ args;
  vars = v ++ vars;
}

put-next :
    (a args : List (Option Bytes)) (x : Option Bytes)
    → put (a ++ args) (length a) x
      ≡ (elim args [ [] ↦ fault | _ ∷ rest ↦ ret ((a ++ x ∷ []) ++ rest) ])
put-next a [] x = put_outside a [] (length a) 0 x (omega arith) (omega arith)
put-next a (s ∷ args) x =
    put-append a (s ∷ args) (length a) 0 x (omega arith) (omega arith)
    ∙ ap ret (sym (append_assoc a (x ∷ []) args))

module _ (t : Token) (a v vars : List (Option Bytes)) (is_arg : t.type ≡ token_arg) where
  split_token-arg :
      (s : Option Bytes) (args : List (Option Bytes))
      → split_token t (filled a (s ∷ args) v vars) ≡ ret (filled (a ++ t.value ∷ []) args v vars)
  unfolding split_token
  split_token-arg s args =
      ground (arith, put-next a (s ∷ args) t.value, length-append a (t.value ∷ []))

  split_token-arg_full : split_token t (filled a [] v vars) ≡ fault
  unfolding split_token
  split_token-arg_full = ground (arith, put-next a [] t.value)

module _ (t : Token) (a v args : List (Option Bytes)) (is_var : t.type ≡ token_var) where
  split_token-var :
      (s : Option Bytes) (vars : List (Option Bytes))
      → split_token t (filled a args v (s ∷ vars)) ≡ ret (filled a args (v ++ t.value ∷ []) vars)
  unfolding split_token
  split_token-var s vars =
      ground (arith, put-next v (s ∷ vars) t.value, length-append v (t.value ∷ []))

  split_token-var_full : split_token t (filled a args v []) ≡ fault
  unfolding split_token
  split_token-var_full = ground (arith, put-next v [] t.value)

split_token-other :
    (t : Token) (s : Split) → t.type ≢ token_arg → t.type ≢ token_var → split_token t s ≡ ret s
unfolding split_token
split_token-other t s h k = ground arith

-- What the loop over `ts` makes of the arrays.
abbrev sorted :
    List Token
    → List (Option Bytes)
    → List (Option Bytes)
    → List (Option Bytes)
    → List (Option Bytes)
    → Exec Split
sorted ts a args v vars =
    if fits ts args vars
    then ret (
        filled (a ++ values_of token_arg ts) (drop (length (values_of token_arg ts)) args)
          (v ++ values_of token_var ts) (drop (length (values_of token_var ts)) vars))
    else fault

sorted-arg :
    (t : Token) (ts : List Token) (a args v vars : List (Option Bytes)) (s : Option Bytes)
    → t.type ≡ token_arg
    → sorted ts (a ++ t.value ∷ []) args v vars ≡ sorted (t ∷ ts) a (s ∷ args) v vars
sorted-arg t ts a args v vars s e =
    ground (arith, append_assoc a (t.value ∷ []) (values_of token_arg ts))

sorted-var :
    (t : Token) (ts : List Token) (a args v vars : List (Option Bytes)) (s : Option Bytes)
    → t.type ≡ token_var
    → sorted ts a args (v ++ t.value ∷ []) vars ≡ sorted (t ∷ ts) a args v (s ∷ vars)
sorted-var t ts a args v vars s e =
    ground (arith, append_assoc v (t.value ∷ []) (values_of token_var ts))

-- One round on an argument, on a variable, and on any other token, from the rounds after it.
module _ (t : Token) (ts : List Token) (later : Split → Exec Split) where
  arg_round :
      (a args v vars : List (Option Bytes))
      → t.type ≡ token_arg
      → ((a' args' : List (Option Bytes))
          → later (filled a' args' v vars) ≡ sorted ts a' args' v vars)
      → (split_token t (filled a args v vars) >>= later) ≡ sorted (t ∷ ts) a args v vars
  arg_round a [] v vars e ih = rw (split_token-arg_full t a v vars e) (ground arith)
  arg_round a (s ∷ args) v vars e ih =
      rw (split_token-arg t a v vars e s args)
        (ih (a ++ t.value ∷ []) args ∙ sorted-arg t ts a args v vars s e)

  var_round :
      (a args v vars : List (Option Bytes))
      → t.type ≡ token_var
      → ((v' vars' : List (Option Bytes))
          → later (filled a args v' vars') ≡ sorted ts a args v' vars')
      → (split_token t (filled a args v vars) >>= later) ≡ sorted (t ∷ ts) a args v vars
  var_round a args v [] e ih = rw (split_token-var_full t a v args e) (ground arith)
  var_round a args v (s ∷ vars) e ih =
      rw (split_token-var t a v args e s vars)
        (ih (v ++ t.value ∷ []) vars ∙ sorted-var t ts a args v vars s e)

split_tokens-sorted :
    (ts done more : List Token) (a args v vars : List (Option Bytes)) (i : ℕ)
    → i ≡ length done
    → split_tokens (length ts) i (done ++ (ts ++ more)) (filled a args v vars)
      ≡ sorted ts a args v vars
unfolding split_tokens
split_tokens-sorted [] done more a args v vars i e = ground (arith, append-nil a, append-nil v)
split_tokens-sorted (t ∷ ts) done more a args v vars i e =
    let next : (a' args' v' vars' : List (Option Bytes))
        → split_tokens (length ts) (i + 1) ((done ++ t ∷ []) ++ (ts ++ more))
            (filled a' args' v' vars')
          ≡ sorted ts a' args' v' vars' =
      λ a' args' v' vars'.
        split_tokens-sorted ts (done ++ t ∷ []) more a' args' v' vars' (i + 1)
          (omega (arith, length-append done (t ∷ []))) in
    rw (load-append done (t ∷ (ts ++ more)) i 0 (omega arith)) (
      rw (sym (append_assoc done (t ∷ []) (ts ++ more))) (elim (ℕ_discrete t.type token_arg) [
        | yes arg ↦ arg_round t ts _ a args v vars arg (λ a' args'. next a' args' v vars)
        | no not_arg ↦ elim (ℕ_discrete t.type token_var) [
          | yes var ↦ var_round t ts _ a args v vars var (λ v' vars'. next a args v' vars')
          | no not_var ↦
              rw (split_token-other t (filled a args v vars) not_arg not_var)
                (next a args v vars ∙ ground arith)
        ]
      ]))

set-drop :
    (n : ℕ) (slots : List (Option Bytes))
    → n < length slots
    → set (drop n slots) 0 none ≡ none ∷ drop (n + 1) slots
set-drop zero [] h = absurd (omega arith)
set-drop zero (s ∷ slots) h = refl
set-drop (suc n) [] h = absurd (omega arith)
set-drop (suc n) (s ∷ slots) h =
    let e : suc n + 1 ≡ suc (n + 1) = omega arith in rw e (set-drop n slots (omega arith))

-- The NULL behind the values.
put-end :
    (xs slots : List (Option Bytes))
    → length xs ≤ length slots
    → put (xs ++ drop (length xs) slots) (length xs) none
      ≡ (if ltb (length xs) (length slots) then ret (overlay (xs ++ none ∷ []) slots) else fault)
put-end xs slots h =
    let behind = drop (length xs) slots in
    elim (dec_lt (length xs) (length slots)) [
      | no full ↦ ground (
        arith,
        put_outside xs behind (length xs) 0 none (omega arith)
            (omega (arith, length-drop (length xs) slots)),
      )
      | yes room ↦ ground (
        arith,
        put-append xs behind (length xs) 0 none (omega arith)
            (omega (arith, length-drop (length xs) slots)),
        set-drop (length xs) slots room,
        append_assoc xs (none ∷ []) (drop (length xs + 1) slots),
        length-append xs (none ∷ []),
      )
    ]

module _ (ts : TokenStream) (within : ts.length ≤ length ts.tokens) where
  -- The values that `protocol_parse_token_stream` sorts out of a stream.
  abbrev pub arg_values : List (Option Bytes)
  arg_values = values_of token_arg (take ts.length ts.tokens)

  abbrev pub var_values : List (Option Bytes)
  var_values = values_of token_var (take ts.length ts.tokens)

  whole :
      (args vars : List (Option Bytes))
      → split_tokens ts.length 0 ts.tokens (record { argc = 0; varc = 0; args = args; vars = vars })
        ≡ sorted (take ts.length ts.tokens) [] args [] vars
  whole args vars =
      let count : length (take ts.length ts.tokens) ≡ ts.length =
        omega (arith, length-take ts.length ts.tokens) in
      ap₂ (λ n l. split_tokens n 0 l (record { argc = 0; varc = 0; args = args; vars = vars }))
        (sym count) (sym (take-append-drop ts.length ts.tokens))
      ∙ split_tokens-sorted (take ts.length ts.tokens) [] (drop ts.length ts.tokens) [] args [] vars
          0 refl

  -- protocol_parse_token_stream puts the values of the ARG tokens and of the VAR tokens in order
  -- into the two arrays with a NULL behind each, if both arrays have room for that NULL, and
  -- overruns an array otherwise.
  pub parse_token_stream-values :
      (args vars : List (Option Bytes))
      → parse_token_stream ts args vars ≡ (
          if ltb (length arg_values) (length args) && ltb (length var_values) (length vars)
          then ret (
            ts.type % 0x100,
            overlay (arg_values ++ none ∷ []) args,
            overlay (var_values ++ none ∷ []) vars,
          )
          else fault)
  unfolding parse_token_stream
  parse_token_stream-values args vars =
      rw (whole args vars) (ground (arith, put-end arg_values args, put-end var_values vars))
