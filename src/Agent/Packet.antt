-- ===== src/Agent/Packet.antt =====
-- src/server.h: `server_eval_packet`.
use dpatch.Prelude.{
  ℕ, ◌==◌, pos, Bool, true, false, not, List, Option, none, some, if◌then◌else◌, replicate, ascii,
}
use dpatch.Exec.{Exec, fault, ret, load, ◌>>=◌}
use dpatch.Memory.{Bytes, string_at, put_string}
use dpatch.Store.{KeyValue, store_remove_at}
use dpatch.Config.{Settings}
use dpatch.Protocol.{
  protocol_read, parse_token_stream, msg_task_run, msg_workspace_set, msg_success, msg_err,
}
use dpatch.Server.{Task, server_task_launch, server_task_wait_match}
use dpatch.Server.Load.{get_task}
use dpatch.Agent.{
  Server, System, ClientPacket, note, invalid_message, task_missing, task_queued, task_failed,
  task_started, workspace_refused, workspace_used,
}
use dpatch.Agent.Respond.{server_respond, respond_fmt}

module _ (sys : System) (settings : Settings) (packet : ClientPacket) where
  -- A task that nothing is waited for: launched, answered, and out of the queue if that succeeded.
  unfoldable pub launch_task : Server → ℕ → Task → Option Bytes → Exec (Bool × Server)
  unfolding server_task_launch respond_fmt store_remove_at
  launch_task server key task name = do
    (launched, processes) ←
        server_task_launch settings.task_name_size (sys.spawn packet.client) server.process_store
          task
    if launched
        then (do
          (count, answered) ←
              respond_fmt sys settings.buffer_size (record server { process_store = processes })
                packet msg_success (ascii "Task '") name (ascii "' started succesfully")
          (removed, tasks) ← store_remove_at answered.task_store (pos key)
          ret (true, note (task_started name) (record answered { task_store = tasks })))
        else (do
          (count, answered) ←
              respond_fmt sys settings.buffer_size (record server { process_store = processes })
                packet msg_err (ascii "Failed to run task '") name (ascii "'")
          ret (false, note (task_failed name) answered))

  -- PROTOCOL_MSG_TASK_RUN, once the workspace file has been looked into.
  unfoldable pub run_fetched : Server → KeyValue Task → Option Bytes → Exec (Bool × Server)
  unfolding server_task_wait_match respond_fmt launch_task
  run_fetched server none name = do
    (count, answered) ←
        respond_fmt sys settings.buffer_size server packet msg_err (ascii "Task '") name
          (ascii "' not found")
    ret (false, note (task_missing name) answered)
  run_fetched server (some (key, task)) name = do
    waits ← server_task_wait_match server.process_store task
    if waits
        then (do
          (count, answered) ←
              respond_fmt sys settings.buffer_size server packet msg_success (ascii "Task '") name
                (ascii "' put in queue")
          ret (true, note (task_queued name) answered))
        else launch_task server key task name

  -- PROTOCOL_MSG_TASK_RUN
  unfoldable pub run_task :
      Server → List (Option Bytes) → List (Option Bytes) → Exec (Bool × Server)
  unfolding string_at get_task run_fetched
  run_task server args vars = do
    name ← load args 0
    path ← string_at server.workspace 0
    (res, tasks) ←
        get_task settings.task_buf_size settings.task_var_max_count (sys.files path)
          server.task_store name vars
    run_fetched (record server { task_store = tasks }) res name

  -- PROTOCOL_MSG_WORKSPACE_SET. `access` refuses NULL, but then NULL is formatted for the log.
  unfoldable pub set_workspace : Server → Option Bytes → Exec (Bool × Server)
  unfolding put_string server_respond respond_fmt
  set_workspace server none = fault
  set_workspace server (some path) =
      if not (sys.may_read path)
      then (do
        (count, answered) ←
            server_respond sys settings.buffer_size server packet msg_err
              (ascii "Workspace not found")
        ret (false, note (workspace_refused path) answered))
      else (do
        workspace ← put_string server.workspace 0 path
        (count, answered) ←
            respond_fmt sys settings.buffer_size (record server { workspace = workspace }) packet
              msg_success (ascii "Workspace '") (some path) (ascii "' set as active")
        ret (true, note (workspace_used path) answered))

  -- The `switch` on the type.
  unfoldable pub eval_message :
      Server → ℕ → List (Option Bytes) → List (Option Bytes) → Exec (Bool × Server)
  unfolding run_task set_workspace server_respond
  eval_message server type args vars =
      if type == msg_task_run
      then run_task server args vars
      else if type == msg_workspace_set
      then (do path ← load args 0; set_workspace server path)
      else (do
        (count, answered) ←
            server_respond sys settings.buffer_size server packet msg_err (ascii "Invalid command")
        ret (true, answered))

  -- `false` is -1. What stands in the two fresh arrays is written before it is read.
  unfoldable pub server_eval_packet : Server → Exec (Bool × Server)
  unfolding protocol_read parse_token_stream server_respond eval_message
  server_eval_packet server = do
    read ← protocol_read server.in_buf settings.buffer_size server.token_stream
    elim read [
      | none ↦ (do
        (count, answered) ←
            server_respond sys settings.buffer_size server packet msg_err (ascii "Invalid command")
        ret (false, note invalid_message answered))
      | some ts ↦ (do
        (type, args, vars) ←
            parse_token_stream ts (replicate ts.length none) (replicate ts.length none)
        eval_message (record server { token_stream = ts }) ts.type args vars)
    ]
