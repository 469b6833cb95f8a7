-- ===== src/Config/Tests.antt =====
-- Command lines, and the law at one of them.
use dpatch.Prelude.{
  ◌≡◌, ◌↔◌, ◌<◌, refl, pos, ℤ, List, [], ◌∷◌, none, some, replicate, take, false, true,
}
use dpatch.Exec.{fault, ret}
use dpatch.Memory.{Bytes}
use dpatch.Config.{Args, runmode_cmd, config_collect_args}
use dpatch.Config.Kinds.{word_places, vector}
use dpatch.Config.Collect.{config_collect_args-word_places}

-- `atoi` for a single digit.
abbrev digit : Bytes → ℤ
digit [] = pos 0
digit (d ∷ rest) = pos d

abbrev dpatch_word : Bytes
dpatch_word = b'd' ∷ []

abbrev quiet_run : List Bytes
quiet_run =
    (b'-' ∷ b'q' ∷ [])
    ∷ (b'r' ∷ b'u' ∷ b'n' ∷ [])
    ∷ (b'-' ∷ b'p' ∷ [])
    ∷ (b'7' ∷ [])
    ∷ (b'g' ∷ b'o' ∷ [])
    ∷ []

collected :
    config_collect_args digit (some (replicate 6 0)) 6 (vector (dpatch_word ∷ quiet_run))
    ≡ ret (
        some (record {
          run_mode = runmode_cmd;
          mode_detached = false;
          help = false;
          quiet = true;
          watch_path = none;
          ws_file = none;
          log_file = none;
          port = pos b'7';
          arg_indices = 2 ∷ 5 ∷ 0 ∷ 0 ∷ 0 ∷ 0 ∷ [];
          arg_count = 2;
        }))
unfolding config_collect_args
collected = refl

places : word_places 1 quiet_run ≡ 2 ∷ 5 ∷ []
places = refl

-- Without memory for the indices the process exits.
refused : config_collect_args digit none 2 (vector (dpatch_word ∷ quiet_run)) ≡ ret none
unfolding config_collect_args
refused = refl

-- `-p` as the last argument gives `atoi` the NULL.
bare_port :
    config_collect_args digit
      (some (replicate 2 0))
      2
      (vector (dpatch_word ∷ (b'-' ∷ b'p' ∷ []) ∷ []))
    ≡ fault
unfolding config_collect_args
bare_port = refl

config_collect_args-word_places_example :
    (args : Args) × (config_collect_args digit
        (some (replicate 6 0))
        6
        (vector (dpatch_word ∷ quiet_run))
      ≡ ret (some args))
    × (take args.arg_count args.arg_indices ≡ 2 ∷ 5 ∷ [])
    × ((args.run_mode ≡ runmode_cmd) ↔ (0 < 2))
config_collect_args-word_places_example =
    config_collect_args-word_places digit (replicate 6 0) dpatch_word quiet_run refl (λ h. cc h)
