-- ===== src/Config.antt =====
-- src/config.h: the command line. `argv` has a string for each argument and a NULL behind them.
pub mod Kinds
pub mod Rounds
pub mod Collect
mod Tests
use dpatch.Prelude.{
  ℕ, zero, suc, ◌+◌, ◌==◌, ◌&&◌, ℤ, pos, Bool, true, false, not, List, [], ◌∷◌, Option, none, some,
  ltb, leb, if◌then◌else◌, replicate,
}
use dpatch.Exec.{Exec, fault, ret, ◌>>=◌, load, put}
use dpatch.Memory.{Bytes}

pub data RunMode : Type 0 where
  runmode_cmd runmode_server : RunMode

-- `arg_indices` has a slot for each argument.
pub record Args : Type 0 where
  pub run_mode : RunMode
  pub mode_detached : Bool
  pub help : Bool
  pub quiet : Bool
  pub watch_path : Option Bytes
  pub ws_file : Option Bytes
  pub log_file : Option Bytes
  pub port : ℤ
  pub arg_indices : List ℕ
  pub arg_count : ℕ

-- `strncmp(arg, "-x", 2) == 0`
abbrev pub is_option : ℕ → Bytes → Bool
is_option letter [] = false
is_option letter (a ∷ []) = false
is_option letter (a ∷ b ∷ rest) = a == b'-' && b == letter

-- An argument that is none of the options.
abbrev pub is_command : Bytes → Bool
is_command arg =
    not (is_option b'd' arg)
    && not (is_option b'q' arg)
    && not (is_option b'p' arg)
    && not (is_option b'w' arg)
    && not (is_option b'f' arg)
    && not (is_option b'l' arg)
    && not (is_option b'h' arg)

-- `atoi` on a pointer: NULL is no string.
abbrev pub atoi_of : (Bytes → ℤ) → Option Bytes → Exec ℤ
atoi_of atoi none = fault
atoi_of atoi (some text) = ret (atoi text)

module _ (atoi : Bytes → ℤ) where
  -- The body of the loop at argument `i`, which is `arg`. Returns the last argument it has used.
  unfoldable pub collect_arg : List (Option Bytes) → ℕ → Bytes → Args → Exec (ℕ × Args)
  collect_arg argv i arg args =
      if is_option b'd' arg
      then ret (i, record args { mode_detached = true })
      else if is_option b'q' arg
      then ret (i, record args { quiet = true })
      else if is_option b'p' arg
      then (do
        text ← load argv (i + 1)
        port ← atoi_of atoi text
        ret (i + 1, record args { port = port }))
      else if is_option b'w' arg
      then (do text ← load argv (i + 1); ret (i + 1, record args { watch_path = text }))
      else if is_option b'f' arg
      then (do text ← load argv (i + 1); ret (i + 1, record args { ws_file = text }))
      else if is_option b'l' arg
      then (do text ← load argv (i + 1); ret (i + 1, record args { log_file = text }))
      else if is_option b'h' arg
      then ret (i, record args { help = true })
      else (do
        indices ← put args.arg_indices args.arg_count i
        ret (i, record args { arg_indices = indices; arg_count = args.arg_count + 1 }))

  -- The loop from argument `i` on, for at most `n` arguments.
  unfoldable pub collect_from : ℕ → ℕ → ℕ → List (Option Bytes) → Args → Exec Args
  unfolding collect_arg
  collect_from zero i argc argv args = ret args
  collect_from (suc n) i argc argv args = if leb argc i then ret args else (do
    arg ← load argv i
    elim arg [
      | none ↦ ret args
      | some text ↦ (do
        (last, args') ← collect_arg argv i text args
        collect_from n (last + 1) argc argv args')
    ])

  -- `raw` is what stands in the fresh array of indices, if there is memory for it; `none` is
  -- `exit(EXIT_FAILURE)`.
  unfoldable pub config_collect_args :
      Option (List ℕ) → ℕ → List (Option Bytes) → Exec (Option Args)
  unfolding collect_from
  config_collect_args none argc argv = ret none
  config_collect_args (some raw) argc argv = do
    args ← collect_from argc 1 argc argv (record {
      run_mode = runmode_server;
      mode_detached = false;
      help = false;
      quiet = false;
      watch_path = none;
      ws_file = none;
      log_file = none;
      port = pos 9999;
      arg_indices = raw;
      arg_count = 0;
    })
    ret (some (if ltb 0 args.arg_count then record args { run_mode = runmode_cmd } else args))

pub record Settings : Type 0 where
  pub process_store_count : ℕ
  pub task_store_count : ℕ
  pub protocol_token_count : ℕ
  pub workspace_buf_size : ℕ
  pub cmd_bin_path : Bytes
  pub task_buf_size : ℕ
  pub task_var_max_count : ℕ
  pub task_name_size : ℕ
  pub max_clients : ℕ
  pub max_pending_conn : ℕ
  pub client_timeout_ms : ℕ
  pub sock_timeout_sec : ℕ
  pub select_timeout_sec : ℕ
  pub select_timeout_usec : ℕ
  pub inotify_timeout_ms : ℕ
  pub buffer_size : ℕ

abbrev pub config_default_settings : Settings
config_default_settings = record {
  process_store_count = 5;
  task_store_count = 5;
  protocol_token_count = 30;
  workspace_buf_size = 256;
  cmd_bin_path = b'/' ∷ b'b' ∷ b'i' ∷ b'n' ∷ b'/' ∷ b's' ∷ b'h' ∷ [];
  task_buf_size = 1024;
  task_var_max_count = 30;
  task_name_size = 256;
  max_clients = 30;
  max_pending_conn = 3;
  client_timeout_ms = 5000;
  sock_timeout_sec = 5;
  select_timeout_sec = 0;
  select_timeout_usec = 66666;
  inotify_timeout_ms = 1000;
  buffer_size = 1024;
}

pub record Config : Type 0 where
  pub args : Args
  pub settings : Settings

-- `granted` says whether there is memory for the `Config`; `none` is `exit(EXIT_FAILURE)`.
unfoldable pub config_init :
    (Bytes → ℤ) → Bool → Option (List ℕ) → ℕ → List (Option Bytes) → Exec (Option Config)
unfolding config_collect_args
config_init atoi granted raw argc argv = if not granted then ret none else (do
  collected ← config_collect_args atoi raw argc argv
  elim collected [
    | none ↦ ret none
    | some args ↦ ret (some (record { args = args; settings = config_default_settings }))
  ])
