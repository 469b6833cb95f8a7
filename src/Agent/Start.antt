-- ===== src/Agent/Start.antt =====
-- src/server.h: `run_as_server`, from its connection and its tables to the rounds of its loop.
use dpatch.Prelude.{ℕ, zero, suc, ℤ, pos, negsuc, Bool, List, [], Option, none, some}
use dpatch.Exec.{Exec, ret, ◌>>=◌}
use dpatch.Memory.{Bytes}
use dpatch.Stack.{Stack, stack_new}
use dpatch.Store.{Store, store_new}
use dpatch.Config.{Config}
use dpatch.Net.Connect.{Connection, Network, connection_init, buffer}
use dpatch.Protocol.{TokenStream, tokenstream_alloc}
use dpatch.Server.{Task, TaskProcess, zeroed_process}
use dpatch.Server.Load.{zeroed_task}
use dpatch.Agent.{Server, System}
use dpatch.Agent.Loops.{server_rounds}

-- What MMALLOC gives for the agent's tables: whether there is memory, and what stands in it where the
-- code does not clear it.
pub record Tables : Type 0 where
  pub workspace : Option Bytes
  pub stream_granted : Bool
  pub stream_type : ℕ
  pub clients_granted : Bool
  pub clients : List ℕ
  pub processes_granted : Bool
  pub open_processes : List ℕ
  pub tasks_granted : Bool
  pub open_tasks : List ℕ

-- A descriptor that is not negative, as it is behind `connection_init`.
abbrev pub descriptor : ℤ → ℕ
descriptor (pos n) = n
descriptor (negsuc n) = 0

-- The test behind the five allocations, and the agent they make.
unfoldable pub server_of :
    Connection
    → Option Bytes
    → Option TokenStream
    → Option (Stack ℕ)
    → Option (Store TaskProcess)
    → Option (Store Task)
    → Option Server
server_of conn (some workspace) (some token_stream) (some clients) (some processes) (some tasks) =
    some (record {
      socket = descriptor conn.socket;
      in_buf = buffer conn.in_buf;
      out_buf = buffer conn.out_buf;
      workspace = workspace;
      token_stream = token_stream;
      client_stack = clients;
      process_store = processes;
      task_store = tasks;
      effects = [];
      log = [];
    })
server_of conn none token_stream clients processes tasks = none
server_of conn (some w) none clients processes tasks = none
server_of conn (some w) (some t) none processes tasks = none
server_of conn (some w) (some t) (some c) none tasks = none
server_of conn (some w) (some t) (some c) (some p) none = none

-- `run_as_server` up to its loop; `none` is -1.
unfoldable pub server_start : Network → Tables → Config → Exec (Option Server)
unfolding connection_init stack_new store_new tokenstream_alloc server_of
server_start net tables config =
    let (status, conn) = connection_init net config in
    let settings = config.settings in
    elim status [
      | negsuc n ↦ ret none
      | pos zero ↦ ret none
      | pos (suc n) ↦ (do
        processes ←
            store_new (zeroed_process settings.task_name_size) tables.processes_granted
              tables.open_processes settings.process_store_count
        tasks ←
            store_new (zeroed_task settings.task_buf_size settings.task_var_max_count)
              tables.tasks_granted tables.open_tasks settings.task_store_count
        ret (
            server_of conn tables.workspace
              (tokenstream_alloc tables.stream_granted tables.stream_type
                settings.protocol_token_count)
              (stack_new tables.clients_granted tables.clients settings.max_clients) processes
              tasks))
    ]

-- The agent after the rounds that the system has answers for, or `none` for -1.
unfoldable pub run_as_server : Network → Tables → Config → List System → Exec (Option Server)
unfolding server_start server_rounds
run_as_server net tables config systems = do
  started ← server_start net tables config
  elim started [
    | none ↦ ret none
    | some server ↦ (do s ← server_rounds config.settings systems server; ret (some s))
  ]
