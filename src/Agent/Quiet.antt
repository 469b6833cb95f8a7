-- ===== src/Agent/Quiet.antt =====
-- Rounds in which nothing happens: they return.
use dpatch.Prelude.{
  ℕ, zero, suc, ◌<◌, ◌≤◌, ◌≡◌, ◌==◌, refl, inl, inr, pos, false, List, [], ◌∷◌, some, length,
  replicate, length-replicate, arith, get_elem?, get_elem?_in, Bool-cases, Option-cases, not_le→leb,
}
use dpatch.Exec.{ret}
use dpatch.Memory.{Bytes, wipe}
use dpatch.Stack.{Stack}
use dpatch.Stack.Laws
use dpatch.Stack.Laws.{contents, length-contents, stack_get-contents}
use dpatch.Store.Valid.{item_at, IsValid}
use dpatch.Store.Access.{found_at, store_get-found_at}
use dpatch.Config.{Settings}
use dpatch.Server.{TaskProcess}
use dpatch.Agent.{Server, System}
use dpatch.Agent.Sockets.{Watched, is_member, is_set, connection_init_set, server_handle_incoming}
use dpatch.Agent.Loops.{
  serve_client, serve_clients, print_pipe, server_process_print, check_process, check_processes,
  server_round, server_rounds,
}
use dpatch.Agent.Kept.{IsSound}
use dpatch.Agent.Watch.{server_check_activity-Watches}

-- No descriptor is ready, and no process has ended.
pub record IsQuiet (sys : System) : Type 0 where
  pub idle : (fd : ℕ) → sys.ready fd ≡ false
  pub running : (pid : ℕ) → sys.waited pid ≡ pos 0

-- Sockets that `accept` has given are above 0.
abbrev pub AllPositive : Stack ℕ → Type 0
AllPositive clients = (i sock : ℕ) → get_elem? (contents clients) i ≡ some sock → 0 < sock

-- The agent with its two buffers cleared.
abbrev pub cleared : ℕ → Server → Server
cleared n s = record s { in_buf = replicate n 0; out_buf = replicate n 0 }

wipe-all : (xs : Bytes) (n : ℕ) → length xs ≡ n → wipe 0 n xs ≡ ret (replicate n 0)
unfolding wipe
wipe-all [] zero h = refl
wipe-all [] (suc n) h = absurd (omega (arith, h))
wipe-all (x ∷ xs) zero h = absurd (omega (arith, h))
wipe-all (x ∷ xs) (suc n) h = rw (wipe-all xs n (omega (arith, h))) refl

is_set-quiet : (sys : System) → IsQuiet sys → (w : Watched) (fd : ℕ) → is_set sys w fd ≡ false
unfolding is_set
is_set-quiet sys q (greatest, set) fd = elim (Bool-cases (is_member fd set)) [
  | inl e ↦ rw e (q.idle fd)
  | inr e ↦ rw e refl
]

module _ (sys : System) (quiet : IsQuiet sys) (settings : Settings) (watched : Watched) where
  serve_client-quiet :
      (s : Server) (i : ℕ)
      → Laws.IsValid s.client_stack
      → AllPositive s.client_stack
      → i < s.client_stack.count
      → serve_client sys settings watched s i ≡ ret s
  unfolding serve_client
  serve_client-quiet s i v above h =
      let (sock, found) =
        get_elem?_in (contents s.client_stack) i
          (omega (arith, length-contents s.client_stack v)) in
      let nonzero : (sock == 0) ≡ false = ground (arith, above i sock found) in
      rw
        (
          stack_get-contents s.client_stack (pos i) v,
          found,
          nonzero,
          is_set-quiet sys quiet watched sock,
        )
        refl

  serve_clients-quiet :
      (n : ℕ) (s : Server)
      → Laws.IsValid s.client_stack
      → AllPositive s.client_stack
      → n ≤ s.client_stack.count
      → serve_clients sys settings watched n s ≡ ret s
  unfolding serve_clients
  serve_clients-quiet zero s v above h = refl
  serve_clients-quiet (suc n) s v above h =
      rw (serve_client-quiet s n v above (omega arith))
        (serve_clients-quiet n s v above (omega arith))

  -- With a cleared buffer nothing changes.
  server_process_print-quiet :
      (s : Server) (process : TaskProcess)
      → let clean = cleared settings.buffer_size s in
        server_process_print sys settings watched clean process ≡ ret clean
  unfolding server_process_print print_pipe wipe
  server_process_print-quiet s process =
      rw
        (
          wipe-all (replicate settings.buffer_size 0) settings.buffer_size
              (length-replicate {A = ℕ} settings.buffer_size 0),
          is_set-quiet sys quiet watched process.out_fd_r,
          is_set-quiet sys quiet watched process.err_fd_r,
        )
        refl

  check_process-quiet :
      (s : Server) (i : ℕ)
      → IsValid s.process_store
      → i < s.process_store.capacity
      → let clean = cleared settings.buffer_size s in
        check_process sys settings watched clean i ≡ ret clean
  unfolding check_process
  check_process-quiet s i v h =
      let got = store_get-found_at s.process_store i v in
      let inside = not_le→leb s.process_store.capacity i (omega arith) in
      elim (Option-cases (item_at s.process_store i)) [
        | inl free ↦ rw (got, inside, found_at, free) refl
        | inr (p, found) ↦
            rw (got, inside, found_at, found, quiet.running p.pid) (server_process_print-quiet s p)
      ]

  check_processes-quiet :
      (n : ℕ) (s : Server)
      → IsValid s.process_store
      → n ≤ s.process_store.capacity
      → let clean = cleared settings.buffer_size s in
        check_processes sys settings watched n clean ≡ ret clean
  unfolding check_processes
  check_processes-quiet zero s v h = refl
  check_processes-quiet (suc n) s v h =
      rw (check_process-quiet s n v (omega arith)) (check_processes-quiet n s v (omega arith))

-- An agent whose buffers have the size of the settings.
pub record IsReady (settings : Settings) (s : Server) : Type 0 where
  pub sound : IsSound s
  pub in_size : length s.in_buf ≡ settings.buffer_size
  pub out_size : length s.out_buf ≡ settings.buffer_size
  pub above : AllPositive s.client_stack

module _ (settings : Settings) where
  server_round-quiet :
      (sys : System) (s : Server)
      → IsQuiet sys
      → IsReady settings s
      → server_round settings sys s ≡ ret (cleared settings.buffer_size s)
  unfolding server_round connection_init_set server_handle_incoming
  server_round-quiet sys s quiet r =
      let clean = cleared settings.buffer_size s in
      let (w, watched, _) = server_check_activity-Watches clean (record {
        clients = r.sound.clients;
        processes = r.sound.processes;
        tasks = r.sound.tasks;
      }) in
      rw
        (
          wipe-all s.in_buf settings.buffer_size r.in_size,
          wipe-all s.out_buf settings.buffer_size r.out_size,
          watched,
          is_set-quiet sys quiet w s.socket,
          serve_clients-quiet sys quiet settings w s.client_stack.count clean r.sound.clients
              r.above (omega arith),
        )
        (check_processes-quiet sys quiet settings w s.process_store.capacity s r.sound.processes
          (omega arith))

  abbrev pub AllQuiet : List System → Type 0
  AllQuiet [] = Unit
  AllQuiet (sys ∷ later) = IsQuiet sys × AllQuiet later

  -- On an agent with valid tables, buffers of the size of its settings and clients on sockets
  -- above 0, rounds in which no descriptor is ready and no process has ended all return, and leave
  -- everything as it was but the two buffers, which are cleared.
  pub server_rounds-quiet :
      (sys : System) (later : List System) (s : Server)
      → AllQuiet (sys ∷ later)
      → IsReady settings s
      → server_rounds settings (sys ∷ later) s ≡ ret (cleared settings.buffer_size s)
  unfolding server_rounds
  server_rounds-quiet sys [] s (quiet, _) r = rw (server_round-quiet sys s quiet r) refl
  server_rounds-quiet sys (next ∷ later) s (quiet, rest) r =
      let clean = cleared settings.buffer_size s in
      rw (server_round-quiet sys s quiet r) (
        server_rounds-quiet next later clean rest (record {
          sound = record {
            clients = r.sound.clients;
            processes = r.sound.processes;
            tasks = r.sound.tasks;
          };
          in_size = length-replicate {A = ℕ} settings.buffer_size 0;
          out_size = length-replicate {A = ℕ} settings.buffer_size 0;
          above = r.above;
        }))
