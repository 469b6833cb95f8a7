-- ===== src/Config/Rounds.antt =====
-- One round of the loop of `config_collect_args`, for each kind of argument.
use dpatch.Prelude.{
  ℕ, zero, suc, ◌+◌, ◌≤◌, ◌<◌, ◌≡◌, refl, sym, ap, ap₂, ◌∙◌, ℤ, List, [], ◌∷◌, ◌++◌, Option, some,
  le→leb, not_le→leb, length, set, take, take-suc, take-set, get_elem?-set, length-set,
  length-append, arith, append_assoc, append-nil,
}
use dpatch.Exec.{ret, load}
use dpatch.Memory.{Bytes}
use dpatch.Memory.Place.{load-append}
use dpatch.Config.{Args, collect_arg, collect_from}
use dpatch.Config.Kinds.{
  flag, valued, port, word, kind, SameWords, collect_arg-flag, collect_arg-port, collect_arg-word,
  collect_arg-valued, join_place, word_places, PortHasValue, PortHasValue-rest, vector,
}

module _ (atoi : Bytes → ℤ) (argc : ℕ) (argv : List (Option Bytes)) where
  -- From place `i` on, the loop returns, and appends the places of the words to those in use.
  abbrev pub Collects : ℕ → ℕ → List Bytes → Args → Type 0
  Collects n i rest args =
      (args' : Args) × (collect_from atoi n i argc argv args ≡ ret args')
      × (take args'.arg_count args'.arg_indices
          ≡ take args.arg_count args.arg_indices ++ word_places i rest)
      × (args'.arg_count ≤ length args'.arg_indices)
      × (args'.run_mode ≡ args.run_mode)

  pub ended :
      (n i : ℕ) (args : Args)
      → argc ≤ i
      → args.arg_count ≤ length args.arg_indices
      → Collects n i [] args
  unfolding collect_from
  ended zero i args h room = (args, refl, sym (append-nil _), room, refl)
  ended (suc n) i args h room = (args, rw (le→leb argc i h) refl, sym (append-nil _), room, refl)

  -- One round on argument `a`, then the rest of the loop from place `next`.
  pub round :
      (n i last : ℕ) (a : Bytes) (rest all : List Bytes) (args args' : Args)
      → i < argc
      → load argv i ≡ ret (some a)
      → collect_arg atoi argv i a args ≡ ret (last, args')
      → take args'.arg_count args'.arg_indices ++ word_places (last + 1) rest
        ≡ take args.arg_count args.arg_indices ++ word_places i all
      → args'.run_mode ≡ args.run_mode
      → Collects n (last + 1) rest args'
      → Collects (suc n) i all args
  unfolding collect_from
  round n i last a rest all args args' h loaded step e mode (final, done, words, room, mode') = (
    final,
    rw (not_le→leb argc i (omega arith), loaded, step) done,
    words ∙ e,
    room,
    mode' ∙ mode,
  )

  pub same_words :
      (args args' : Args)
      → SameWords args args'
      → take args'.arg_count args'.arg_indices ≡ take args.arg_count args.arg_indices
  same_words args args' (ei, ec, em) = cc (ei, ec)

  -- What the loop knows at place `i` of its arguments, of which `rest` are left.
  pub record Ready (n i : ℕ) (pre : List (Option Bytes)) (rest : List Bytes) (args : Args)
      : Type 0 where
    pub split : argv ≡ pre ++ vector rest
    pub place : i ≡ length pre
    pub left : argc ≡ i + length rest
    pub rounds : length rest ≤ n
    pub room : args.arg_count < i
    pub slots : length args.arg_indices ≡ argc
    pub ports : PortHasValue rest

  module _ (n i : ℕ) (pre : List (Option Bytes)) (a : Bytes) (rest : List Bytes) (args : Args)
      (r : Ready (suc n) i pre (a ∷ rest) args) where
    pub loaded : load argv i ≡ ret (some a)
    loaded = rw r.split (load-append pre (vector (a ∷ rest)) i 0 (omega (arith, r.place)))

    -- Behind an argument that is no word and has no value.
    after_flag :
        (args' : Args)
        → SameWords args args'
        → PortHasValue rest
        → Ready n (i + 1) (pre ++ some a ∷ []) rest args'
    after_flag args' (ei, ec, em) ports = record {
      split = r.split ∙ sym (append_assoc pre (some a ∷ []) (vector rest));
      place = omega (arith, r.place, length-append pre (some a ∷ []));
      left = omega (arith, r.left);
      rounds = omega (arith, r.rounds);
      room = omega (arith, r.room, ec);
      slots = ap length ei ∙ r.slots;
      ports = ports;
    }

    after_word : Args
    after_word = record args {
      arg_indices = set args.arg_indices args.arg_count i;
      arg_count = args.arg_count + 1;
    }

    after_word-Ready : PortHasValue rest → Ready n (i + 1) (pre ++ some a ∷ []) rest after_word
    unfolding after_word
    after_word-Ready ports = record {
      split = r.split ∙ sym (append_assoc pre (some a ∷ []) (vector rest));
      place = omega (arith, r.place, length-append pre (some a ∷ []));
      left = omega (arith, r.left);
      rounds = omega (arith, r.rounds);
      room = omega (arith, r.room);
      slots = length-set args.arg_indices args.arg_count i ∙ r.slots;
      ports = ports;
    }

    after_word-words :
        take after_word.arg_count after_word.arg_indices
        ≡ take args.arg_count args.arg_indices ++ i ∷ []
    unfolding after_word
    after_word-words =
        let inside : args.arg_count < length args.arg_indices =
          omega (arith, r.room, r.slots, r.left) in
        let e : args.arg_count + 1 ≡ suc args.arg_count = omega arith in
        let written = get_elem?-set args.arg_indices args.arg_count args.arg_count i inside in
        rw e (
          take-suc args.arg_count (set args.arg_indices args.arg_count i) (ground (arith, written))
          ∙ ap (λ l. l ++ i ∷ []) (take-set args.arg_count args.arg_indices i))

    module _ (ports : PortHasValue rest) (skipped : List ℕ)
        (e : word_places i (a ∷ rest) ≡ join_place (kind a) i (word_places (i + 1) rest) skipped)
        (later : (args' : Args)
          → Ready n (i + 1) (pre ++ some a ∷ []) rest args'
          → Collects n (i + 1) rest args') where
      pub flag_step : kind a ≡ flag → Collects (suc n) i (a ∷ rest) args
      flag_step k =
          let (args', step, same) = collect_arg-flag atoi argv i a args k in
          let places : word_places i (a ∷ rest) ≡ word_places (i + 1) rest =
            e ∙ ap (λ c. join_place c i (word_places (i + 1) rest) skipped) k in
          round n i i a rest (a ∷ rest) args args' (omega (arith, r.left)) loaded step
            (ap₂ (λ (l m : List ℕ). l ++ m) (same_words args args' same) (sym places)) same.2
            (later args' (after_flag args' same ports))

      pub word_step : kind a ≡ word → Collects (suc n) i (a ∷ rest) args
      unfolding after_word
      word_step k =
          let places : word_places i (a ∷ rest) ≡ i ∷ word_places (i + 1) rest =
            e ∙ ap (λ c. join_place c i (word_places (i + 1) rest) skipped) k in
          let inside : args.arg_count < length args.arg_indices =
            omega (arith, r.room, r.slots, r.left) in
          round n i i a rest (a ∷ rest) args after_word (omega (arith, r.left)) loaded
            (collect_arg-word atoi argv i a args k inside)
            (ap (λ l. l ++ word_places (i + 1) rest) after_word-words
              ∙ append_assoc (take args.arg_count args.arg_indices) (i ∷ [])
                  (word_places (i + 1) rest)
              ∙ ap (◌++◌ (take args.arg_count args.arg_indices)) (sym places))
            refl (later after_word (after_word-Ready ports))

  module _ (n i : ℕ) (pre : List (Option Bytes)) (a b : Bytes) (rest : List Bytes) (args : Args)
      (r : Ready (suc n) i pre (a ∷ b ∷ rest) args)
      (later : (args' : Args)
        → Ready n (i + 1 + 1) (pre ++ some a ∷ some b ∷ []) rest args'
        → Collects n (i + 1 + 1) rest args') where
    value : load argv (i + 1) ≡ ret (some b)
    value = rw r.split (load-append pre (vector (a ∷ b ∷ rest)) (i + 1) 1 (omega (arith, r.place)))

    -- The argument has used the one behind it.
    value_step :
        (args' : Args)
        → collect_arg atoi argv i a args ≡ ret (i + 1, args')
        → SameWords args args'
        → word_places i (a ∷ b ∷ rest) ≡ word_places (i + 2) rest
        → Collects (suc n) i (a ∷ b ∷ rest) args
    value_step args' step (ei, ec, em) places =
        let two : i + 1 + 1 ≡ i + 2 = omega arith in
        round n i (i + 1) a rest (a ∷ b ∷ rest) args args' (omega (arith, r.left))
          (loaded n i pre a (b ∷ rest) args r) step
          (ap₂ (λ (l m : List ℕ). l ++ m) (same_words args args' (ei, ec, em))
            (ap (λ k. word_places k rest) two ∙ sym places))
          em
          (later args' (record {
            split = r.split ∙ sym (append_assoc pre (some a ∷ some b ∷ []) (vector rest));
            place = omega (arith, r.place, length-append pre (some a ∷ some b ∷ []));
            left = omega (arith, r.left);
            rounds = omega (arith, r.rounds);
            room = omega (arith, r.room, ec);
            slots = ap length ei ∙ r.slots;
            ports = PortHasValue-rest b rest r.ports;
          }))

    pub valued_step : kind a ≡ valued → Collects (suc n) i (a ∷ b ∷ rest) args
    valued_step k =
        let (args', step, same) = collect_arg-valued atoi argv i a args (some b) k value in
        value_step args' step same
          (ap (λ c. join_place c i (word_places (i + 1) (b ∷ rest)) (word_places (i + 2) rest)) k)

    pub port_step : kind a ≡ port → Collects (suc n) i (a ∷ b ∷ rest) args
    port_step k =
        let (args', step, same) = collect_arg-port atoi argv i a args b k value in
        value_step args' step same
          (ap (λ c. join_place c i (word_places (i + 1) (b ∷ rest)) (word_places (i + 2) rest)) k)
