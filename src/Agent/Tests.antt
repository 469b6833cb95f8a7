-- ===== src/Agent/Tests.antt =====
-- A small agent that is asked to use the workspace file `/w`, and the laws at it.
use dpatch.Prelude.{
  ℕ, zero, suc, ◌≡◌, refl, ℤ, pos, negsuc, true, false, [], ◌∷◌, ◌++◌, none, some, arith, replicate,
  length, ascii, occurrences,
}
use dpatch.Exec.{fault, ret}
use dpatch.Memory.{Bytes, read_int}
use dpatch.Memory.Place.{IsText}
use dpatch.Net.Transfer.{Takes, Progresses}
use dpatch.Protocol.Reply.{reply, reply_bytes}
use dpatch.Store.{Store}
use dpatch.Config.{Config, Settings, config_default_settings, runmode_server}
use dpatch.Net.Connect.{Network, failed, bytes}
use dpatch.Protocol.{blank, buf_to_tokenstream}
use dpatch.Server.{Task, TaskProcess, refused, zeroed_process}
use dpatch.Server.Load.{zeroed_task}
use dpatch.Agent.{Server, System, ClientPacket, sent, closed, workspace_used, incoming_failed}
use dpatch.Store.Valid.{IsValid, free_at}
use dpatch.Client.Run.{Client, poll_response}
use dpatch.Agent.Respond.{server_respond}
use dpatch.Agent.Printed.{CanSend, Answer, server_respond-printed}
use dpatch.Client.Reply.{ready, reply_line}
use dpatch.Agent.Sockets.{Watched, server_check_activity}
use dpatch.Agent.Start.{Tables, run_as_server}
use dpatch.Agent.Kept.{IsSound}
use dpatch.Agent.Running.{Fits, IsServer, run_as_server-IsServer}
use dpatch.Agent.Watch.{Watches, server_check_activity-Watches}

abbrev pub settings : Settings
settings = record config_default_settings {
  process_store_count = 1;
  task_store_count = 1;
  protocol_token_count = 3;
  workspace_buf_size = 4;
  task_buf_size = 4;
  task_var_max_count = 1;
  task_name_size = 2;
  max_clients = 2;
  buffer_size = 48;
}

abbrev pub config : Config
config = record {
  args = record {
    run_mode = runmode_server;
    mode_detached = false;
    help = false;
    quiet = false;
    watch_path = none;
    ws_file = none;
    log_file = none;
    port = pos 9999;
    arg_indices = [];
    arg_count = 0;
  };
  settings = settings;
}

abbrev pub net : Network
net = record {
  in_granted = some (replicate 48 0);
  out_granted = some (replicate 48 0);
  socket = pos 3;
  reuse_address = pos 0;
  receive_timeout = pos 0;
  send_timeout = pos 0;
  bind = pos 0;
  listen = pos 0;
  connect = negsuc 0;
}

abbrev tables : Tables
tables = record {
  workspace = some (0 ∷ 0 ∷ 0 ∷ 0 ∷ []);
  stream_granted = true;
  stream_type = 0;
  clients_granted = true;
  clients = 0 ∷ 0 ∷ [];
  processes_granted = true;
  open_processes = 0 ∷ [];
  tasks_granted = true;
  open_tasks = 0 ∷ [];
}

-- `dpatch set /w` on the wire, without the four bytes behind it.
abbrev request : Bytes
request = 20 ∷ 0 ∷ 0 ∷ 0 ∷ 4 ∷ 0 ∷ 0 ∷ 0 ∷ 2 ∷ 0 ∷ 0 ∷ 0 ∷ 1 ∷ b'/' ∷ b'w' ∷ 0 ∷ []

abbrev pub take_all : ℕ → Bytes → ℤ
take_all k offered = pos (length offered)

-- A client connects on 7.
abbrev pub joins : System
joins = record {
  ready = λ fd. true;
  accepted = pos 7;
  nonblock_set = true;
  timeouts_set = true;
  send = λ fd. take_all;
  receive = λ fd. failed;
  waited = λ pid. pos 0;
  spawn = λ i. refused;
  spawn_queued = λ i. refused;
  files = λ path. none;
  may_read = λ path. true;
}

-- The client's request comes, and nobody connects.
abbrev asks : System
asks = record joins { accepted = negsuc 0; receive = λ fd. bytes request }

abbrev told : Bytes
told = ascii "Workspace '/w' set as active"

-- The reply, with the four bytes that go out behind it.
abbrev answer : Bytes
answer = 46 ∷ 0 ∷ 0 ∷ 0 ∷ 7 ∷ 0 ∷ 0 ∷ 0 ∷ 1 ∷ 0 ∷ 0 ∷ 0 ∷ 1 ∷ (told ++ 0 ∷ 0 ∷ 0 ∷ 0 ∷ 0 ∷ [])

abbrev no_processes : Store TaskProcess
no_processes = record {
  capacity = 1;
  open_cnt = 1;
  open_slots = 0 ∷ [];
  slots = record { used = false; value = zeroed_process 2 } ∷ [];
}

abbrev no_tasks : Store Task
no_tasks = record {
  capacity = 1;
  open_cnt = 1;
  open_slots = 0 ∷ [];
  slots = record { used = false; value = zeroed_task 4 1 } ∷ [];
}

-- The agent with the request in its buffer.
abbrev pub asked : Server
asked = record {
  socket = 3;
  in_buf = request ++ replicate 32 0;
  out_buf = replicate 48 0;
  workspace = replicate 4 0;
  token_stream = record { type = 0; length = 0; tokens = replicate 3 blank };
  client_stack = record { count = 1; capacity = 2; items = 7 ∷ 0 ∷ [] };
  process_store = no_processes;
  task_store = no_tasks;
  effects = [];
  log = [];
}

-- The agent that has answered.
abbrev told_so : Server
told_so = record asked {
  out_buf = answer ++ 0 ∷ 0 ∷ [];
  workspace = b'/' ∷ b'w' ∷ 0 ∷ 0 ∷ [];
  token_stream = record {
    type = 7;
    length = 1;
    tokens = record { type = 1; value = some told } ∷ replicate 2 blank;
  };
  client_stack = record { count = 0; capacity = 2; items = 0 ∷ 0 ∷ [] };
  effects = sent 7 answer ∷ closed 7 ∷ [];
  log = workspace_used (b'/' ∷ b'w' ∷ []) ∷ [];
}

abbrev packet : ClientPacket
packet = record { socket = 7; client = 0; len = 16 }

-- In the round of the request no connection comes in.
abbrev served : Server
served = record told_so { log = incoming_failed ∷ workspace_used (b'/' ∷ b'w' ∷ []) ∷ [] }

ran : run_as_server net tables config (joins ∷ asks ∷ []) ≡ ret (some served)
unfolding run_as_server read_int buf_to_tokenstream
ran = refl

fits : Fits net tables settings
fits = record {
  in_size = refl;
  out_size = refl;
  workspace_size = refl;
  clients_size = refl;
  processes_size = refl;
  tasks_size = refl;
}

run_as_server-IsServer_example : IsServer net settings served
run_as_server-IsServer_example =
    run_as_server-IsServer net tables config fits (joins ∷ asks ∷ []) ran

-- A store of one open slot.
one_open :
    {A : Type 0} (a : A)
    → IsValid (record {
      capacity = 1;
      open_cnt = 1;
      open_slots = 0 ∷ [];
      slots = record { used = false; value = a } ∷ [];
    })
one_open {A} a = record { slots_length = refl; open_length = refl; balance = balance; total = refl }
  where
    balance : (j : ℕ) → occurrences j (0 ∷ []) ≡ free_at (record { used = false; value = a } ∷ []) j
    balance zero = refl
    balance (suc j) = ground arith

pub asked-IsSound : IsSound asked
asked-IsSound = record {
  clients = record { within = omega arith; whole = refl };
  processes = one_open (zeroed_process 2);
  tasks = one_open (zeroed_task 4 1);
}

server_check_activity-Watches_example :
    (w : Watched) × (server_check_activity asked ≡ ret w) × Watches asked w
server_check_activity-Watches_example = server_check_activity-Watches asked asked-IsSound

abbrev pub listener : Client
listener = record {
  token_stream = record { type = 0; length = 0; tokens = replicate 3 blank };
  printed = [];
  sent = [];
  closed = [];
}

pub all-Takes : Takes take_all
all-Takes k offered n e = ground (arith, e)

pub all-Progresses : Progresses take_all
all-Progresses k [] h = absurd (omega arith)
all-Progresses k (b ∷ rest) h = (length rest, refl)

can : CanSend asks asked 7 told
can = record {
  takes = all-Takes;
  progresses = all-Progresses;
  stream_fits = omega arith;
  stream_room = omega arith;
  enough = omega arith;
}

told-IsText : IsText told
told-IsText = ground arith

server_respond-printed_example :
    (tail : Bytes) × (s' : Server) × (server_respond asks 48 asked packet 7 told ≡ ret (pos 46, s'))
    × Answer asked s' packet 7 told tail
    × (poll_response config
          (ready net take_all 0 (reply_bytes 7 told tail))
          (replicate 48 9)
          listener
        ≡ ret (
          true,
          record listener {
            token_stream = reply 7 told (replicate 2 blank);
            printed = reply_line 7 told ∷ [];
          },
        ))
server_respond-printed_example =
    server_respond-printed net take_all 0 asks 48 asked packet 7 told config (replicate 48 9)
      listener asked-IsSound.clients can told-IsText (omega arith) (omega arith) refl (omega arith)
      (omega arith)

-- A text of 31 bytes, which `snprintf` lets through, is too long for the reply.
long_reply : server_respond asks 48 asked packet 7 (replicate 31 b'x') ≡ fault
unfolding server_respond
long_reply = refl
