-- ===== src/Agent/Scenarios.antt =====
-- `dpatch set /w` at a small agent, from end to end.
use dpatch.Prelude.{
  zero, suc, ◌≡◌, refl, pos, true, List, [], ◌∷◌, Option, none, some, arith, replicate,
}
use dpatch.Exec.{ret}
use dpatch.Memory.{Bytes}
use dpatch.Config.{Config, runmode_cmd}
use dpatch.Net.Connect.{Network, bytes}
use dpatch.Net.Opened.{opened}
use dpatch.Protocol.{blank}
use dpatch.Protocol.Request.{request, request_bytes}
use dpatch.Protocol.Reply.{reply_bytes}
use dpatch.Client.{command_word, eval_type}
use dpatch.Client.Run.{run_once}
use dpatch.Client.Reply.{ready}
use dpatch.Client.Once.{has_sent, has_printed, has_closed}
use dpatch.Client.Message.{WordsFrom}
use dpatch.Agent.{Server}
use dpatch.Agent.Loops.{take_received}
use dpatch.Agent.Workspace.{set_text, WorkspaceSet, CanSet}
use dpatch.Agent.EndToEnd.{Asks, run_once-WorkspaceSet}
use dpatch.Agent.Tests.{
  settings, config, net, take_all, all-Takes, all-Progresses, joins, asked, asked-IsSound, listener,
}

abbrev set_word : Bytes
set_word = b's' ∷ b'e' ∷ b't' ∷ []

abbrev file : Bytes
file = b'/' ∷ b'w' ∷ []

abbrev argv : List (Option Bytes)
argv = some (b'd' ∷ []) ∷ some set_word ∷ some file ∷ none ∷ []

abbrev client_config : Config
client_config = record config {
  args = record (config.args) { run_mode = runmode_cmd; arg_indices = 1 ∷ 2 ∷ []; arg_count = 2 };
}

abbrev client_net : Network
client_net = record net { connect = pos 0 }

found : WordsFrom argv client_config.args 0 (set_word ∷ file ∷ [])
unfolding command_word
found zero w h = cc h
found (suc zero) w h = cc h
found (suc (suc k)) w h = absurd (cc h)

set_type : eval_type (some set_word) 0xffffffff ≡ ret (true, 4)
unfolding eval_type
set_type = refl

file_type : eval_type (some file) 4 ≡ ret (true, 4)
unfolding eval_type
file_type = refl

request_ready : Asks client_config client_net argv 48 (replicate 48 0) file
request_ready = record {
  loud = refl;
  commands = record {
    name = set_word;
    first_type = 4;
    two = refl;
    found = found;
    plain = refl;
    named = set_type;
    typed = file_type;
  };
  linked = refl;
  in_given = refl;
  out_given = refl;
  can_ask = omega arith;
  can_hear = omega arith;
  small = omega arith;
}

can_set : CanSet joins settings asked 7 file
can_set = record {
  is_text = ground arith;
  readable = refl;
  fits = omega arith;
  told = omega arith;
  enough = omega arith;
  takes = all-Takes;
  progresses = all-Progresses;
  clients = asked-IsSound.clients;
}

run_once-IsSet_example :
    (tail : Bytes) × (s' : Server) × (take_received joins settings
        (7, 7 ∷ [])
        (record asked { in_buf = replicate 48 0 })
        0
        7
        (bytes (request_bytes 4 file))
      ≡ ret s')
    × WorkspaceSet asked s' 7 file tail
    × (run_once client_config argv
          (ready client_net take_all 0 (reply_bytes 7 (set_text file) tail))
          listener
        ≡ ret (
          true,
          has_closed (opened client_net) (
              has_printed 7 (set_text file) (
                has_sent client_config
                  (request_bytes 4 file)
                  (record listener { token_stream = request 4 file (blank ∷ []) }))),
        ))
run_once-IsSet_example =
    run_once-WorkspaceSet client_config client_net take_all 0 argv 0 0 1 48 (replicate 48 0)
      listener joins settings (7, 7 ∷ []) asked 0 7 48 file all-Takes all-Progresses request_ready
      can_set (omega arith) (omega arith)
