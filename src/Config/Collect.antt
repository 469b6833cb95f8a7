-- ===== src/Config/Collect.antt =====
-- What `config_collect_args` collects: which indices, in which order, and the run mode.
use dpatch.Prelude.{
  ℕ, zero, suc, ◌+◌, ◌<◌, ◌≡◌, inl, inr, refl, sym, ap, ap₂, ◌∙◌, ◌↔◌, ℤ, false, List, [], ◌∷◌,
  ◌++◌, Option, none, some, pos, length-take, lt→ltb, not_lt→ltb, length, take, arith, dec_lt,
}
use dpatch.Exec.{ret, load}
use dpatch.Memory.{Bytes}
use dpatch.Memory.Place.{load-append}
use dpatch.Config.{Args, runmode_cmd, runmode_server, config_collect_args}
use dpatch.Config.Kinds.{
  valued, kind, Kind-cases, collect_arg-valued, join_place, word_places, PortHasValue, vector,
}
use dpatch.Config.Rounds.{
  Collects, ended, round, same_words, Ready, loaded, flag_step, word_step, valued_step, port_step,
}

module _ (atoi : Bytes → ℤ) (argc : ℕ) (argv : List (Option Bytes)) where
  -- An option at the end of the command line takes the NULL as its value.
  last_valued :
      (n i : ℕ) (pre : List (Option Bytes)) (a : Bytes) (args : Args)
      → Ready atoi argc argv (suc n) i pre (a ∷ []) args
      → kind a ≡ valued
      → Collects atoi argc argv (suc n) i (a ∷ []) args
  last_valued n i pre a args r k =
      let value : load argv (i + 1) ≡ ret none =
        rw r.split (load-append pre (vector (a ∷ [])) (i + 1) 1 (omega (arith, r.place))) in
      let (args', step, (ei, ec, em)) = collect_arg-valued atoi argv i a args none k value in
      let slots : length args'.arg_indices ≡ argc = ap length ei ∙ r.slots in
      round atoi argc argv n i (i + 1) a [] (a ∷ []) args args' (omega (arith, r.left))
        (loaded atoi argc argv n i pre a [] args r) step
        (ap₂ (λ (l m : List ℕ). l ++ m) (same_words atoi argc argv args args' (ei, ec, em))
          (sym (ap (λ c. join_place c i [] []) k)))
        em
        (ended atoi argc argv n (i + 1 + 1) args' (omega (arith, r.left))
          (omega (arith, r.room, r.left, ec, slots)))

  collect_from-Collects :
      (n i : ℕ) (pre : List (Option Bytes)) (rest : List Bytes) (args : Args)
      → Ready atoi argc argv n i pre rest args
      → Collects atoi argc argv n i rest args
  collect_from-Collects n i pre [] args r =
      ended atoi argc argv n i args (omega (arith, r.left)) (omega (arith, r.room, r.slots, r.left))
  collect_from-Collects zero i pre (a ∷ rest) args r = absurd (omega (arith, r.rounds))
  collect_from-Collects (suc n) i pre (a ∷ []) args r =
      let later = collect_from-Collects n (i + 1) (pre ++ some a ∷ []) [] in
      elim (Kind-cases (kind a)) [
        | inl k ↦ flag_step atoi argc argv n i pre a [] args r tt [] refl later k
        | inr (inl k) ↦ last_valued n i pre a args r k
        | inr (inr (inl k)) ↦ absurd (r.ports k)
        | inr (inr (inr k)) ↦ word_step atoi argc argv n i pre a [] args r tt [] refl later k
      ]
  collect_from-Collects (suc n) i pre (a ∷ b ∷ rest) args r =
      let later = collect_from-Collects n (i + 1) (pre ++ some a ∷ []) (b ∷ rest) in
      let behind = collect_from-Collects n (i + 1 + 1) (pre ++ some a ∷ some b ∷ []) rest in
      let skipped = word_places (i + 2) rest in
      elim (Kind-cases (kind a)) [
        | inl k ↦ flag_step atoi argc argv n i pre a (b ∷ rest) args r r.ports skipped refl later k
        | inr (inl k) ↦ valued_step atoi argc argv n i pre a b rest args r behind k
        | inr (inr (inl k)) ↦ port_step atoi argc argv n i pre a b rest args r behind k
        | inr (inr (inr k)) ↦
            word_step atoi argc argv n i pre a (b ∷ rest) args r r.ports skipped refl later k
      ]

-- config_collect_args on a program name and arguments of which the last is not -p, over an index
-- array with a slot for each, returns: the indices in use are the places of the words, which are
-- the arguments that are no option and no value of one, in order, and the run mode is CMD exactly
-- if there is a word.
pub config_collect_args-word_places :
    (atoi : Bytes → ℤ) (raw : List ℕ) (program : Bytes) (rest : List Bytes)
    → length raw ≡ suc (length rest)
    → PortHasValue rest
    → (args : Args) × (config_collect_args atoi
          (some raw)
          (suc (length rest))
          (vector (program ∷ rest))
        ≡ ret (some args))
      × (take args.arg_count args.arg_indices ≡ word_places 1 rest)
      × ((args.run_mode ≡ runmode_cmd) ↔ (0 < length (word_places 1 rest)))
unfolding config_collect_args
config_collect_args-word_places atoi raw program rest slots ports =
    let start : Args = record {
      run_mode = runmode_server;
      mode_detached = false;
      help = false;
      quiet = false;
      watch_path = none;
      ws_file = none;
      log_file = none;
      port = pos 9999;
      arg_indices = raw;
      arg_count = 0;
    } in
    let argc = suc (length rest) in
    let (args, done, words, room, mode) =
      collect_from-Collects atoi argc (vector (program ∷ rest)) argc 1 (some program ∷ []) rest
        start
        (record {
          split = refl;
          place = refl;
          left = omega arith;
          rounds = omega arith;
          room = omega arith;
          slots = slots;
          ports = ports;
        }) in
    let count : length (word_places 1 rest) ≡ args.arg_count =
      omega (arith, ap length words, length-take args.arg_count args.arg_indices, room) in
    elim (dec_lt 0 args.arg_count) [
      | yes some_words ↦ (
        record args { run_mode = runmode_cmd },
        rw (done, lt→ltb 0 args.arg_count some_words) refl,
        words,
        ((λ e. omega (arith, count, some_words)), (λ h. refl)),
      )
      | no no_words ↦ (
        args,
        rw (done, not_lt→ltb 0 args.arg_count no_words) refl,
        words,
        ((λ e. absurd (cc (e, mode))), (λ h. absurd (omega (arith, count, no_words)))),
      )
    ]
