-- ===== src/Client/Message.antt =====
-- The token stream that `client_eval_cmds` makes of the words of a command.
use dpatch.Prelude.{
  ℕ, zero, suc, ◌+◌, ◌-◌, ◌%◌, ◌≤◌, ◌<◌, ◌^◌, ◌≡◌, inl, inr, refl, sym, ap, ap₂, subst, ◌∙◌, List,
  [], ◌∷◌, ◌++◌, length, overlay, drop, take, append_assoc, length-append, arith, if◌then◌else◌,
  Bool-cases, true, false, Option, some, get_elem?, le→leb, not_le→leb, not_lt→ltb,
  take-append-drop, length-take, length-drop,
}
use dpatch.Exec.{ret}
use dpatch.Memory.{Bytes}
use dpatch.Memory.Place.{put-append}
use dpatch.Config.{Args}
use dpatch.Protocol.{Token, TokenStream, token_arg, token_var, tokenstream_add_token}
use dpatch.Client.{command_word, eval_type, add_words, client_eval_cmds, env_flag, same_text}

-- A word is an argument, and `-e` makes a variable of the word behind it.
abbrev pub tokens_of : List Bytes → List Token
tokens_of [] = []
tokens_of (w ∷ []) = record { type = token_arg; value = some w } ∷ []
tokens_of (w ∷ v ∷ rest) =
    let pair = record { type = token_var; value = some v } ∷ tokens_of rest in
    let single = record { type = token_arg; value = some w } ∷ tokens_of (v ∷ rest) in
    if same_text w env_flag then pair else single

-- The last word is not `-e`, which would have no variable behind it.
abbrev pub EnvHasValue : List Bytes → Type 0
EnvHasValue [] = Unit
EnvHasValue (w ∷ []) = same_text w env_flag ≡ false
EnvHasValue (w ∷ v ∷ rest) = EnvHasValue (v ∷ rest)

EnvHasValue-rest : (w : Bytes) (rest : List Bytes) → EnvHasValue (w ∷ rest) → EnvHasValue rest
EnvHasValue-rest w [] h = tt
EnvHasValue-rest w (v ∷ rest) h = h

-- From word `i` on, the collected words of the command line are these.
abbrev pub WordsFrom : List (Option Bytes) → Args → ℕ → List Bytes → Type 0
WordsFrom argv args i words =
    (k : ℕ) (w : Bytes) → get_elem? words k ≡ some w → command_word argv args (i + k) ≡ ret (some w)

add_token-append :
    (type len t : ℕ) (value : Option Bytes) (pre xs : List Token) (x : Token)
    → len ≡ length pre
    → t < 0x100
    → tokenstream_add_token (record { type = type; length = len; tokens = pre ++ x ∷ xs }) t value
      ≡ ret (record {
        type = type;
        length = len + 1;
        tokens = pre ++ record { type = t; value = value } ∷ xs;
      })
unfolding tokenstream_add_token
add_token-append type len t value pre xs x e h =
    let small : t % 0x100 ≡ t = omega arith in
    rw
      (
        small,
        put-append pre (x ∷ xs) len 0 (record { type = t; value = value }) (omega arith)
            (omega arith),
      )
      refl

module _ (argv : List (Option Bytes)) (args : Args) (type : ℕ) where
  stream : ℕ → List Token → TokenStream
  stream len toks = record { type = type; length = len; tokens = toks }

  -- The loop from word `i` on appends the tokens of the words that are left.
  abbrev Appends : ℕ → ℕ → ℕ → List Token → List Token → List Token → List Bytes → Type 0
  Appends n i len toks pre xs words =
      add_words n i argv args (record { type = type; length = len; tokens = toks })
      ≡ ret (record {
        type = type;
        length = len + length (tokens_of words);
        tokens = pre ++ overlay (tokens_of words) xs;
      })

  record Ready (n i len : ℕ) (toks pre xs : List Token) (words : List Bytes) : Type 0 where
    split : toks ≡ pre ++ xs
    place : len ≡ length pre
    room : length (tokens_of words) ≤ length xs
    left : args.arg_count ≡ i + length words
    rounds : length words ≤ n
    found : WordsFrom argv args i words
    values : EnvHasValue words

  ended :
      (n i len : ℕ) (toks pre xs : List Token)
      → Ready n i len toks pre xs []
      → Appends n i len toks pre xs []
  unfolding add_words
  ended zero i len toks pre xs r =
      ap₂ (λ k l. ret (record { type = type; length = k; tokens = l })) (omega arith) r.split
  ended (suc n) i len toks pre xs r =
      rw (le→leb args.arg_count i (omega (arith, r.left)))
        (ap₂ (λ k l. ret (record { type = type; length = k; tokens = l })) (omega arith) r.split)

  module _ (n i len : ℕ) (toks pre : List Token) (x : Token) (xs : List Token) (w : Bytes)
      (rest : List Bytes) (r : Ready (suc n) i len toks pre (x ∷ xs) (w ∷ rest)) where
    here : command_word argv args i ≡ ret (some w)
    here =
        let e : i + 0 ≡ i = omega arith in
        subst (λ k. command_word argv args k ≡ ret (some w)) e (r.found 0 w refl)

    -- The loop goes on behind an argument.
    argument :
        same_text w env_flag ≡ false
        → tokens_of (w ∷ rest) ≡ record { type = token_arg; value = some w } ∷ tokens_of rest
        → EnvHasValue rest
        → ((toks' pre' : List Token)
            → Ready n (i + 1) (len + 1) toks' pre' xs rest
            → Appends n (i + 1) (len + 1) toks' pre' xs rest)
        → Appends (suc n) i len toks pre (x ∷ xs) (w ∷ rest)
    unfolding add_words
    argument plain e values later =
        let tok : Token = record { type = token_arg; value = some w } in
        let toks' = pre ++ tok ∷ xs in
        let ih = later toks' (pre ++ tok ∷ []) (record {
          split = sym (append_assoc pre (tok ∷ []) xs);
          place = omega (arith, r.place, length-append pre (tok ∷ []));
          room = omega (arith, r.room, ap length e);
          left = omega (arith, r.left);
          rounds = omega (arith, r.rounds);
          found = λ k v h.
              (let two : i + suc k ≡ i + 1 + k = omega arith in
                subst (λ j. command_word argv args j ≡ ret (some v)) two (r.found (suc k) v h));
          values = values;
        }) in
        let add = add_token-append type len token_arg (some w) pre xs x r.place (omega arith) in
        rw (not_le→leb args.arg_count i (omega (arith, r.left)), here, plain, r.split, add, e)
          (ih
            ∙ ap₂ (λ k l. ret (record { type = type; length = k; tokens = l })) (omega arith)
                (append_assoc pre (tok ∷ []) (overlay (tokens_of rest) xs)))

  module _ (n i len : ℕ) (toks pre : List Token) (x : Token) (xs : List Token) (w v : Bytes)
      (rest : List Bytes) (r : Ready (suc n) i len toks pre (x ∷ xs) (w ∷ v ∷ rest)) where
    -- The loop goes on behind a variable.
    variable :
        same_text w env_flag ≡ true
        → ((toks' pre' : List Token)
            → Ready n (i + 1 + 1) (len + 1) toks' pre' xs rest
            → Appends n (i + 1 + 1) (len + 1) toks' pre' xs rest)
        → Appends (suc n) i len toks pre (x ∷ xs) (w ∷ v ∷ rest)
    unfolding add_words
    variable flag later =
        let tok : Token = record { type = token_var; value = some v } in
        let e : tokens_of (w ∷ v ∷ rest) ≡ tok ∷ tokens_of rest = rw flag refl in
        let toks' = pre ++ tok ∷ xs in
        let ih = later toks' (pre ++ tok ∷ []) (record {
          split = sym (append_assoc pre (tok ∷ []) xs);
          place = omega (arith, r.place, length-append pre (tok ∷ []));
          room = omega (arith, r.room, ap length e);
          left = omega (arith, r.left);
          rounds = omega (arith, r.rounds);
          found = λ k u h.
              (let two : i + suc (suc k) ≡ i + 1 + 1 + k = omega arith in
                subst (λ j. command_word argv args j ≡ ret (some u)) two
                  (r.found (suc (suc k)) u h));
          values = EnvHasValue-rest v rest r.values;
        }) in
        let add = add_token-append type len token_var (some v) pre xs x r.place (omega arith) in
        rw
          (
            not_le→leb args.arg_count i (omega (arith, r.left)),
            here n i len toks pre x xs w (v ∷ rest) r,
            flag,
            r.found 1 v refl,
            r.split,
            add,
          )
          (ih
            ∙ ap₂ (λ k l. ret (record { type = type; length = k; tokens = l })) (omega arith)
                (append_assoc pre (tok ∷ []) (overlay (tokens_of rest) xs)))

  tokens_of_some :
      (w : Bytes) (rest : List Bytes) → EnvHasValue (w ∷ rest) → 0 < length (tokens_of (w ∷ rest))
  tokens_of_some w [] h = omega arith
  tokens_of_some w (v ∷ rest) h = elim (Bool-cases (same_text w env_flag)) [
    | inl e ↦ rw e (omega arith)
    | inr e ↦ rw e (omega arith)
  ]

  add_words-Appends :
      (n i len : ℕ) (toks pre xs : List Token) (words : List Bytes)
      → Ready n i len toks pre xs words
      → Appends n i len toks pre xs words
  add_words-Appends n i len toks pre xs [] r = ended n i len toks pre xs r
  add_words-Appends zero i len toks pre xs (w ∷ rest) r = absurd (omega (arith, r.rounds))
  add_words-Appends (suc n) i len toks pre [] (w ∷ rest) r =
      absurd (omega (arith, r.room, tokens_of_some w rest r.values))
  add_words-Appends (suc n) i len toks pre (x ∷ xs) (w ∷ []) r =
      argument n i len toks pre x xs w [] r r.values refl tt
        (λ toks' pre'. add_words-Appends n (i + 1) (len + 1) toks' pre' xs [])
  add_words-Appends (suc n) i len toks pre (x ∷ xs) (w ∷ v ∷ rest) r =
      let later = λ (toks' pre' : List Token).
        add_words-Appends n (i + 1) (len + 1) toks' pre' xs (v ∷ rest) in
      let behind =
        λ (toks' pre' : List Token). add_words-Appends n (i + 1 + 1) (len + 1) toks' pre' xs rest in
      elim (Bool-cases (same_text w env_flag)) [
        | inl e ↦ variable n i len toks pre x xs w v rest r e behind
        | inr e ↦ argument n i len toks pre x xs w (v ∷ rest) r e (rw e refl) r.values later
      ]

-- If the first two words give a type, client_eval_cmds returns 0 and makes a message of that type;
-- the words behind the first become argument tokens and -e with the word behind it a variable
-- token, in order, placed behind as many slots as there are such words and counted on top of
-- these, if the line does not end in -e and the stream has room.
pub client_eval_cmds-tokens_of :
    (argv : List (Option Bytes)) (args : Args) (first second : Bytes) (rest : List Bytes)
    (type0 type : ℕ) (msg : TokenStream)
    → args.arg_count ≡ suc (suc (length rest))
    → WordsFrom argv args 0 (first ∷ second ∷ rest)
    → EnvHasValue (second ∷ rest)
    → eval_type (some first) (2 ^ 32 - 1) ≡ ret (true, type0)
    → eval_type (some second) type0 ≡ ret (true, type)
    → suc (length rest) + length (tokens_of (second ∷ rest)) ≤ length msg.tokens
    → let k = suc (length rest) in
      client_eval_cmds argv args msg
      ≡ ret (
        true,
        record {
          type = type;
          length = k + length (tokens_of (second ∷ rest));
          tokens = take k msg.tokens ++ overlay (tokens_of (second ∷ rest)) (drop k msg.tokens);
        },
      )
unfolding client_eval_cmds
client_eval_cmds-tokens_of argv args first second rest type0 type msg count found values t0 t room =
    let k = suc (length rest) in
    let words = second ∷ rest in
    let counted : args.arg_count - 1 ≡ k = omega (arith, count) in
    let added =
      add_words-Appends argv args type args.arg_count 1 k msg.tokens (take k msg.tokens)
        (drop k msg.tokens) words
        (record {
          split = sym (take-append-drop k msg.tokens);
          place = omega (arith, length-take k msg.tokens);
          room = omega (arith, length-drop k msg.tokens);
          left = omega (arith, count);
          rounds = omega (arith, count);
          found = λ j w h.
              (let one : 0 + suc j ≡ 1 + j = omega arith in
                subst (λ m. command_word argv args m ≡ ret (some w)) one (found (suc j) w h));
          values = values;
        }) in
    rw
      (
        not_lt→ltb args.arg_count 1 (omega (arith, count)),
        found 0 first refl,
        t0,
        found 1 second refl,
        t,
        counted,
        added,
      )
      refl
