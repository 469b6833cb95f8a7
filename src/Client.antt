-- ===== src/Client.antt =====
-- src/client.h: the message that a client makes of its command line.
pub mod Message
pub mod Carried
pub mod Deliver
pub mod Run
pub mod Reply
pub mod Once
mod Tests
use dpatch.Prelude.{
  ℕ, zero, suc, ◌+◌, ◌-◌, ◌^◌, ◌==◌, ◌&&◌, Bool, true, false, not, List, [], ◌∷◌, Option, none,
  some, ltb, leb, if◌then◌else◌,
}
use dpatch.Exec.{Exec, fault, ret, ◌>>=◌, load}
use dpatch.Memory.{Bytes}
use dpatch.Protocol.{
  TokenStream, tokenstream_add_token, token_arg, token_var, msg_task_run, msg_workspace_set,
  msg_workspace_info, msg_task_info, msg_proc_info,
}
use dpatch.Config.{Args}

-- `strcmp(a, b) == 0`
abbrev pub same_text : Bytes → Bytes → Bool
same_text [] [] = true
same_text [] (b ∷ t) = false
same_text (a ∷ s) [] = false
same_text (a ∷ s) (b ∷ t) = a == b && same_text s t

unfoldable pub is_cmd : Bytes → List Bytes → Bool
is_cmd cmd [] = false
is_cmd cmd (word ∷ words) = if same_text cmd word then true else is_cmd cmd words

abbrev pub run_words : List Bytes
run_words = (b'r' ∷ b'u' ∷ b'n' ∷ []) ∷ (b'r' ∷ []) ∷ []

abbrev pub set_words : List Bytes
set_words = (b's' ∷ b'e' ∷ b't' ∷ []) ∷ (b's' ∷ []) ∷ []

abbrev pub workspace_words : List Bytes
workspace_words =
    (b'w' ∷ b'o' ∷ b'r' ∷ b'k' ∷ b's' ∷ b'p' ∷ b'a' ∷ b'c' ∷ b'e' ∷ [])
    ∷ (b'w' ∷ b's' ∷ [])
    ∷ (b'w' ∷ [])
    ∷ []

abbrev pub task_words : List Bytes
task_words = (b't' ∷ b'a' ∷ b's' ∷ b'k' ∷ []) ∷ (b't' ∷ []) ∷ []

abbrev pub process_words : List Bytes
process_words =
    (b'p' ∷ b'r' ∷ b'o' ∷ b'c' ∷ b'e' ∷ b's' ∷ b's' ∷ [])
    ∷ (b'p' ∷ b'r' ∷ b'o' ∷ b'c' ∷ [])
    ∷ (b'p' ∷ [])
    ∷ []

-- `argv[config->args.arg_indices[i]]`
unfoldable pub command_word : List (Option Bytes) → Args → ℕ → Exec (Option Bytes)
command_word argv args i = do at ← load args.arg_indices i; load argv at

-- One round of the loop that finds the type, on a type and a word; `false` is the return of -1.
-- `strcmp` on NULL is a fault.
unfoldable pub eval_type : Option Bytes → ℕ → Exec (Bool × ℕ)
unfolding is_cmd
eval_type none type = fault
eval_type (some cmd) type =
    if is_cmd cmd run_words
    then ret (true, msg_task_run)
    else if is_cmd cmd set_words
    then ret (true, msg_workspace_set)
    else if is_cmd cmd workspace_words
    then ret (false, msg_workspace_info)
    else if is_cmd cmd task_words
    then ret (false, msg_task_info)
    else if is_cmd cmd process_words
    then ret (false, msg_proc_info)
    else ret (true, type)

abbrev pub env_flag : Bytes
env_flag = b'-' ∷ b'e' ∷ []

-- The second loop from word `i` on, for at most `n` words.
unfoldable pub add_words : ℕ → ℕ → List (Option Bytes) → Args → TokenStream → Exec TokenStream
unfolding command_word tokenstream_add_token
add_words zero i argv args msg = ret msg
add_words (suc n) i argv args msg = if leb args.arg_count i then ret msg else (do
  cmd ← command_word argv args i
  elim cmd [
    | none ↦ ret msg
    | some word ↦ (do
      (i', msg') ←
          if same_text word env_flag
          then (do
            value ← command_word argv args (i + 1)
            msg' ← tokenstream_add_token msg token_var value
            ret (i + 1, msg'))
          else (do msg' ← tokenstream_add_token msg token_arg (some word); ret (i, msg'))
      add_words n (i' + 1) argv args msg')
  ])

-- `false` is -1. The type is unsigned, so the test `msg->type < 0` never holds.
unfoldable pub client_eval_cmds :
    List (Option Bytes) → Args → TokenStream → Exec (Bool × TokenStream)
unfolding command_word eval_type add_words
client_eval_cmds argv args msg = if ltb args.arg_count 1 then ret (false, msg) else (do
  first ← command_word argv args 0
  (known, type) ← eval_type first (2 ^ 32 - 1)
  if not known then ret (false, record msg { type = type }) else (do
    second ← command_word argv args 1
    (known', type') ← eval_type second type
    if not known' then ret (false, record msg { type = type' }) else (do
      msg' ←
          add_words args.arg_count 1 argv args
            (record msg { type = type'; length = args.arg_count - 1 })
      ret (true, msg'))))
