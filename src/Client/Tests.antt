-- ===== src/Client/Tests.antt =====
-- `dpatch run go -e A=1`, and the laws at it.
use dpatch.Prelude.{
  ℕ, ℤ, length, zero, suc, ◌≡◌, refl, true, false, List, [], ◌∷◌, ◌++◌, Option, none, some, arith,
  replicate, pos,
}
use dpatch.Exec.{ret, ◌>>=◌}
use dpatch.Memory.{Bytes}
use dpatch.Config.{Args, runmode_cmd}
use dpatch.Protocol.{TokenStream, blank}
use dpatch.Client.{command_word, client_eval_cmds, env_flag, eval_type}
use dpatch.Client.Message.{tokens_of, WordsFrom, client_eval_cmds-tokens_of}
use dpatch.Client.Deliver.{hear-client_eval_cmds}
use dpatch.Client.Carried.{hear}
use dpatch.Net.Transfer.{Takes, Progresses}
use dpatch.Protocol.Send.{protocol_send}

abbrev dpatch_word : Bytes
dpatch_word = b'd' ∷ b'p' ∷ []

abbrev run : Bytes
run = b'r' ∷ b'u' ∷ b'n' ∷ []

abbrev go : Bytes
go = b'g' ∷ b'o' ∷ []

abbrev env : Bytes
env = b'A' ∷ b'=' ∷ b'1' ∷ []

abbrev argv : List (Option Bytes)
argv = some dpatch_word ∷ some run ∷ some go ∷ some env_flag ∷ some env ∷ none ∷ []

abbrev opts : Args
opts = record {
  run_mode = runmode_cmd;
  mode_detached = false;
  help = false;
  quiet = false;
  watch_path = none;
  ws_file = none;
  log_file = none;
  port = pos 9999;
  arg_indices = 1 ∷ 2 ∷ 3 ∷ 4 ∷ 0 ∷ [];
  arg_count = 4;
}

found : WordsFrom argv opts 0 (run ∷ go ∷ env_flag ∷ env ∷ [])
unfolding command_word
found zero w h = cc h
found (suc zero) w h = cc h
found (suc (suc zero)) w h = cc h
found (suc (suc (suc zero))) w h = cc h
found (suc (suc (suc (suc k)))) w h = absurd (cc h)

abbrev fresh : TokenStream
fresh = record { type = 0; length = 0; tokens = replicate 8 blank }

run_type : eval_type (some run) 0xffffffff ≡ ret (true, 2)
unfolding eval_type
run_type = refl

go_type : eval_type (some go) 2 ≡ ret (true, 2)
unfolding eval_type
go_type = refl

client_eval_cmds-tokens_of_example :
    client_eval_cmds argv opts fresh
    ≡ ret (
      true,
      record {
        type = 2;
        length = 5;
        tokens = replicate 3 blank ++ (tokens_of (go ∷ env_flag ∷ env ∷ []) ++ replicate 3 blank);
      },
    )
client_eval_cmds-tokens_of_example =
    client_eval_cmds-tokens_of argv opts run go (env_flag ∷ env ∷ []) 2 2 fresh refl found refl
      run_type go_type (omega arith)

abbrev take_all : ℕ → Bytes → ℤ
take_all k bytes = pos (length bytes)

take_all-Takes : Takes take_all
take_all-Takes k bytes s h = let e : length bytes ≡ s = cc h in omega arith

take_all-Progresses : Progresses take_all
take_all-Progresses k [] h = absurd (omega arith)
take_all-Progresses k (b ∷ bytes) h = (length bytes, refl)

hear-client_eval_cmds_example :
    (client_eval_cmds argv opts fresh >>= λ made.
    protocol_send take_all (replicate 48 0) 0 made.1 >>= λ sent.
    hear 64 fresh (replicate 4 none) (replicate 4 none) sent.1)
    ≡ ret (some (2, some go ∷ none ∷ none ∷ none ∷ [], some env ∷ none ∷ none ∷ none ∷ []))
hear-client_eval_cmds_example =
    hear-client_eval_cmds argv opts run go (env_flag ∷ env ∷ []) 2 2 0 0 8 take_all fresh 48 64 0
      (replicate 4 none) (replicate 4 none) refl found refl (omega arith) run_type go_type
      (omega arith) (omega arith) (omega arith) (omega arith) take_all-Takes take_all-Progresses
      (omega arith) (omega arith) (omega arith) (omega arith) (omega arith) (omega arith)

-- A task that is called like a command: `dpatch run set` sends the type of `set`.
set_task : eval_type (some (b's' ∷ b'e' ∷ b't' ∷ [])) 2 ≡ ret (true, 4)
unfolding eval_type
set_task = refl

-- No word is a command: the type that is sent is -1, and the call returns 0.
unknown :
    client_eval_cmds
      (some go ∷ some go ∷ some env ∷ none ∷ [])
      (record opts { arg_count = 2 })
      fresh
    ≡ ret (
      true,
      record {
        type = 0xffffffff;
        length = 2;
        tokens = blank ∷ record { type = 1; value = some env } ∷ replicate 6 blank;
      },
    )
unfolding client_eval_cmds
unknown = refl
