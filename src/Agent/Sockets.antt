-- ===== src/Agent/Sockets.antt =====
-- src/server.h and src/net.h: which descriptors are watched, new connections, and the buffers of a
-- round.
use dpatch.Prelude.{
  ℕ, zero, suc, ◌==◌, ℤ, pos, negsuc, Bool, true, false, not, List, [], ◌∷◌, ◌++◌, none, some, ltb,
  leb, if◌then◌else◌,
}
use dpatch.Exec.{Exec, fault, ret, ◌>>=◌}
use dpatch.Memory.{wipe}
use dpatch.Stack.{Stack, stack_get, stack_push, stack_pop}
use dpatch.Store.{Store, store_get}
use dpatch.Config.{Settings}
use dpatch.Server.{TaskProcess}
use dpatch.Agent.{Server, System, closed}

-- The greatest descriptor so far, and those in the set.
abbrev pub Watched : Type 0
Watched = ℕ × List ℕ

unfoldable pub set_sock_desc : ℕ → Watched → Watched
set_sock_desc sock (greatest, set) =
    (if ltb greatest sock then sock else greatest, if ltb 0 sock then sock ∷ set else set)

-- The loop over the clients below `n`. A missing item is a NULL that is read.
unfoldable pub watch_clients : ℕ → Stack ℕ → Watched → Exec Watched
unfolding stack_get set_sock_desc
watch_clients zero clients w = ret w
watch_clients (suc i) clients w = do
  got ← stack_get clients (pos i)
  elim got [ none ↦ fault | some sock ↦ watch_clients i clients (set_sock_desc sock w) ]

-- The loop over the process slots below `n`.
unfoldable pub watch_processes : ℕ → Store TaskProcess → Watched → Exec Watched
unfolding store_get set_sock_desc
watch_processes zero processes w = ret w
watch_processes (suc i) processes w = do
  got ← store_get processes (pos i)
  elim got [
    | none ↦ watch_processes i processes w
    | some (key, process) ↦
        watch_processes i processes
          (set_sock_desc process.err_fd_r (set_sock_desc process.out_fd_r w))
  ]

-- What `select` is called with: its first argument is one more than the greatest descriptor.
unfoldable pub server_check_activity : Server → Exec Watched
unfolding watch_clients watch_processes
server_check_activity server = do
  clients ←
      watch_clients server.client_stack.count server.client_stack
        (server.socket, server.socket ∷ [])
  watch_processes server.process_store.capacity server.process_store clients

-- FD_ISSET behind `select`: a descriptor that was in the set and is ready.
abbrev pub is_member : ℕ → List ℕ → Bool
is_member fd [] = false
is_member fd (x ∷ set) = if fd == x then true else is_member fd set

unfoldable pub is_set : System → Watched → ℕ → Bool
is_set sys (greatest, set) fd = if is_member fd set then sys.ready fd else false

-- `connection_init_set`, which also zeroes the buffers; the set itself is `Watched`.
unfoldable pub connection_init_set : ℕ → Server → Exec Server
unfolding wipe
connection_init_set buffer_size server = do
  in_buf ← wipe 0 buffer_size server.in_buf
  out_buf ← wipe 0 buffer_size server.out_buf
  ret (record server { in_buf = in_buf; out_buf = out_buf })

-- The socket that `accept` gave, once it is known to be one.
unfoldable pub add_client : System → Settings → Server → ℕ → Exec (ℤ × Server)
unfolding stack_push
add_client sys settings server sock =
    if leb settings.max_clients server.client_stack.count
    then ret (pos 0, record server { effects = server.effects ++ closed sock ∷ [] })
    else if not sys.nonblock_set
    then ret (negsuc 0, server)
    else if not sys.timeouts_set
    then ret (negsuc 0, server)
    else (do
      (index, clients) ← stack_push server.client_stack sock
      ret (pos 1, record server { client_stack = clients }))

unfoldable pub server_handle_incoming : System → Settings → Watched → Server → Exec (ℤ × Server)
unfolding is_set add_client
server_handle_incoming sys settings watched server =
    if not (is_set sys watched server.socket) then ret (pos 0, server) else elim sys.accepted [
      | negsuc n ↦ ret (negsuc 0, server)
      | pos zero ↦ ret (negsuc 0, server)
      | pos (suc n) ↦ add_client sys settings server (suc n)
    ]

-- The loop of `server_cleanup` with `n` clients left. `stack_pop` gives NULL on an empty stack.
unfoldable pub cleanup_clients : ℕ → Server → Exec Server
unfolding stack_pop
cleanup_clients zero server = ret server
cleanup_clients (suc n) server = do
  (top, clients) ← stack_pop server.client_stack
  elim top [
    | none ↦ fault
    | some sock ↦
        cleanup_clients n
          (record server { client_stack = clients; effects = server.effects ++ closed sock ∷ [] })
  ]

unfoldable pub server_cleanup : Server → Exec Server
unfolding cleanup_clients
server_cleanup server = cleanup_clients server.client_stack.count server
