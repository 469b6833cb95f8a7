-- ===== src/Agent/Loops.antt =====
-- src/server.h: the two loops of a round, over the clients and over the processes, and the round.
use dpatch.Prelude.{
  ℕ, zero, suc, ◌==◌, ℤ, pos, negsuc, not, List, [], ◌∷◌, ◌++◌, none, some, length, if◌then◌else◌,
}
use dpatch.Exec.{Exec, fault, ret, ◌>>=◌}
use dpatch.Memory.{wipe, string_at}
use dpatch.Stack.{stack_get, stack_remove_at_fast}
use dpatch.Store.{store_get, store_remove_at}
use dpatch.Config.{Settings}
use dpatch.Net.Connect.{Received, failed, bytes}
use dpatch.Server.{TaskProcess, copy_text, server_check_task_queue}
use dpatch.Agent.{Server, System, closed, logged, note, read_failed, incoming_failed}
use dpatch.Agent.Packet.{server_eval_packet}
use dpatch.Agent.Sockets.{
  Watched, is_set, connection_init_set, server_check_activity, server_handle_incoming,
}

module _ (sys : System) (settings : Settings) (watched : Watched) where
  -- What a client's socket gave.
  unfoldable pub take_received : Server → ℕ → ℕ → Received → Exec Server
  unfolding copy_text server_eval_packet stack_remove_at_fast
  take_received server i sock failed = ret (note (read_failed sock) server)
  take_received server i sock (bytes []) = do
    (removed, clients) ← stack_remove_at_fast 0 server.client_stack (pos i)
    ret (record server { client_stack = clients; effects = server.effects ++ closed sock ∷ [] })
  take_received server i sock (bytes (b ∷ bs)) = do
    in_buf ← copy_text server.in_buf 0 (b ∷ bs)
    (status, server') ←
        server_eval_packet sys settings
          (record { socket = sock; client = i; len = length (b ∷ bs) })
          (record server { in_buf = in_buf })
    ret server'

  -- A round of the loop over the clients. A missing item is a NULL that is read.
  unfoldable pub serve_client : Server → ℕ → Exec Server
  unfolding stack_get is_set stack_remove_at_fast take_received
  serve_client server i = do
    got ← stack_get server.client_stack (pos i)
    elim got [
      | none ↦ fault
      | some sock ↦
          if sock == 0
          then (do
            (removed, clients) ← stack_remove_at_fast 0 server.client_stack (pos i)
            ret (record server { client_stack = clients }))
          else if is_set sys watched sock
          then take_received server i sock (sys.receive sock)
          else ret server
    ]

  -- The loop over the clients below `n`.
  unfoldable pub serve_clients : ℕ → Server → Exec Server
  unfolding serve_client
  serve_clients zero server = ret server
  serve_clients (suc i) server = do server' ← serve_client server i; serve_clients i server'

  -- One of the two pipes of a process. What was read is logged as a string.
  unfoldable pub print_pipe : Server → TaskProcess → ℕ → Exec (ℕ × Server)
  unfolding is_set copy_text string_at
  print_pipe server process fd =
      if not (is_set sys watched fd) then ret (0, server) else elim (sys.receive fd) [
        | failed ↦ ret (0, server)
        | bytes [] ↦ ret (0, server)
        | bytes (b ∷ bs) ↦ (do
          in_buf ← copy_text server.in_buf 0 (b ∷ bs)
          text ← string_at in_buf 0
          name ← string_at process.task_name 0
          ret (
            length (b ∷ bs),
            record server { in_buf = in_buf; effects = server.effects ++ logged name text ∷ [] },
          ))
      ]

  unfoldable pub server_process_print : Server → TaskProcess → Exec Server
  unfolding wipe print_pipe
  server_process_print server process = do
    fresh ← wipe 0 settings.buffer_size server.in_buf
    (count, printed) ← print_pipe (record server { in_buf = fresh }) process process.out_fd_r
    cleared ← wipe 0 count printed.in_buf
    (count', printed') ← print_pipe (record printed { in_buf = cleared }) process process.err_fd_r
    ret printed'

  -- A process that has ended, in slot `i`: its pipes are closed and its slot freed, and a task that
  -- waits for it may be launched.
  unfoldable pub end_process : Server → ℕ → TaskProcess → Exec Server
  unfolding string_at store_remove_at server_check_task_queue
  end_process server i process = do
    name ← string_at process.task_name 0
    (removed, processes) ← store_remove_at server.process_store (pos i)
    (launched, processes', tasks) ←
        server_check_task_queue settings.task_name_size (sys.spawn_queued i) processes name
          server.task_store
    ret (record server {
      process_store = processes';
      task_store = tasks;
      effects = server.effects ++ closed process.out_fd_r ∷ closed process.err_fd_r ∷ [];
    })

  -- A round of the loop over the processes.
  unfoldable pub check_process : Server → ℕ → Exec Server
  unfolding store_get server_process_print end_process
  check_process server i = do
    got ← store_get server.process_store (pos i)
    elim got [
      | none ↦ ret server
      | some (key, process) ↦ elim (sys.waited process.pid) [
        | pos zero ↦ server_process_print server process
        | pos (suc n) ↦ end_process server i process
        | negsuc n ↦ end_process server i process
      ]
    ]

  -- The loop over the process slots below `n`.
  unfoldable pub check_processes : ℕ → Server → Exec Server
  unfolding check_process
  check_processes zero server = ret server
  check_processes (suc i) server = do server' ← check_process server i; check_processes i server'

-- The warning about a connection that was not received.
abbrev pub note_incoming : ℤ → Server → Server
note_incoming (pos n) server = server
note_incoming (negsuc n) server = note incoming_failed server

-- One round of `while (server.running)`.
unfoldable pub server_round : Settings → System → Server → Exec Server
unfolding connection_init_set server_check_activity server_handle_incoming serve_clients
    check_processes
server_round settings sys server = do
  fresh ← connection_init_set settings.buffer_size server
  watched ← server_check_activity fresh
  (incoming, joined) ← server_handle_incoming sys settings watched fresh
  served ←
      serve_clients sys settings watched joined.client_stack.count (note_incoming incoming joined)
  check_processes sys settings watched served.process_store.capacity served

-- As many rounds as the system has answers for: `running` is never reset.
unfoldable pub server_rounds : Settings → List System → Server → Exec Server
unfolding server_round
server_rounds settings [] server = ret server
server_rounds settings (sys ∷ later) server = do
  server' ← server_round settings sys server
  server_rounds settings later server'
