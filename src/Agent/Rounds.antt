-- ===== src/Agent/Rounds.antt =====
-- The invariant of the agent through the rounds of its loop.
use dpatch.Prelude.{ℕ, zero, suc, ◌≡◌, ℤ, pos, negsuc, List, [], ◌∷◌, ◌++◌}
use dpatch.Exec.{ret, bind_elim, option_elim}
use dpatch.Memory.{string_at, wipe}
use dpatch.Memory.Sizes.{wipe-SameSize}
use dpatch.Store.{store_get, store_remove_at}
use dpatch.Config.{Settings}
use dpatch.Server.{TaskProcess, server_check_task_queue}
use dpatch.Server.Keep.{Keeps-trans, store_remove_at-Keeps, server_check_task_queue-Keeps}
use dpatch.Agent.{Server, System, closed, incoming_failed}
use dpatch.Agent.Sockets.{
  Watched, connection_init_set, server_check_activity, server_handle_incoming,
}
use dpatch.Agent.Loops.{
  serve_clients, print_pipe, server_process_print, end_process, check_process, check_processes,
  server_round, server_rounds, note_incoming,
}
use dpatch.Agent.Kept.{IsSound, Kept, Kept-refl, Kept-trans, with_stores, with_effects, with_log}
use dpatch.Agent.Serve.{
  became, with_input, connection_init_set-Kept, server_handle_incoming-Kept, serve_clients-Kept,
  print_pipe-Kept,
}

module _ (sys : System) (settings : Settings) (watched : Watched) where
  server_process_print-Kept :
      (s : Server) (process : TaskProcess) {s' : Server}
      → IsSound s
      → server_process_print sys settings watched s process ≡ ret s'
      → Kept s s'
  unfolding server_process_print
  server_process_print-Kept s process {s'} v h =
      bind_elim (wipe 0 settings.buffer_size s.in_buf) _ h λ fresh e h1.
        let s0 : Server = record s { in_buf = fresh } in
        let k0 : Kept s s0 =
          with_input s v fresh (wipe-SameSize 0 settings.buffer_size s.in_buf e) in
        bind_elim (print_pipe sys settings watched s0 process process.out_fd_r) _ h1
          λ (count, s1) e1 h2.
            let k1 = print_pipe-Kept sys settings watched s0 process process.out_fd_r k0.sound e1 in
            bind_elim (wipe 0 count s1.in_buf) _ h2 λ cleared e2 h3.
              let s2 : Server = record s1 { in_buf = cleared } in
              let k2 : Kept s1 s2 =
                with_input s1 k1.sound cleared (wipe-SameSize 0 count s1.in_buf e2) in
              bind_elim (print_pipe sys settings watched s2 process process.err_fd_r) _ h3
                λ (count', s3) e3 h4.
                  let k3 =
                    print_pipe-Kept sys settings watched s2 process process.err_fd_r k2.sound e3 in
                  became s s3 s'
                    (Kept-trans s s0 s3 k0 (Kept-trans s0 s1 s3 k1 (Kept-trans s1 s2 s3 k2 k3))) h4

  end_process-Kept :
      (s : Server) (i : ℕ) (process : TaskProcess) {s' : Server}
      → IsSound s
      → end_process sys settings watched s i process ≡ ret s'
      → Kept s s'
  unfolding end_process
  end_process-Kept s i process {s'} v h = bind_elim (string_at process.task_name 0) _ h λ name _ h1.
      bind_elim (store_remove_at s.process_store (pos i)) _ h1 λ (removed, processes) e h2.
        let k0 = store_remove_at-Keeps s.process_store i v.processes e in
        bind_elim
          (server_check_task_queue settings.task_name_size (sys.spawn_queued i) processes name
            s.task_store)
          _ h2
          λ (launched, processes', tasks) e2 h3.
            let (k1, k2) =
              server_check_task_queue-Keeps settings.task_name_size (sys.spawn_queued i) processes
                name k0.valid s.task_store v.tasks e2 in
            let s1 : Server = record s { process_store = processes'; task_store = tasks } in
            let k3 : Kept s s1 =
              with_stores s v processes' tasks
                (Keeps-trans s.process_store processes processes' k0 k1) k2 in
            became s _ s'
              (Kept-trans s s1 _ k3
                (with_effects s1 k3.sound (closed process.out_fd_r ∷ closed process.err_fd_r ∷ [])))
              h3

  check_process-Kept :
      (s : Server) (i : ℕ) {s' : Server}
      → IsSound s
      → check_process sys settings watched s i ≡ ret s'
      → Kept s s'
  unfolding check_process
  check_process-Kept s i {s'} v h = bind_elim (store_get s.process_store (pos i)) _ h λ got _ h1.
      option_elim got _ _ h1 (λ _ h2. became s s s' (Kept-refl s v) h2)
        λ (key, process) _ h2. waited process (sys.waited process.pid) h2
    where
      waited :
          (process : TaskProcess) (w : ℤ)
          → elim w [
            | pos zero ↦ server_process_print sys settings watched s process
            | pos (suc n) ↦ end_process sys settings watched s i process
            | negsuc n ↦ end_process sys settings watched s i process
          ]
            ≡ ret s'
          → Kept s s'
      waited process (pos zero) e = server_process_print-Kept s process v e
      waited process (pos (suc n)) e = end_process-Kept s i process v e
      waited process (negsuc n) e = end_process-Kept s i process v e

  check_processes-Kept :
      (n : ℕ) (s : Server) {s' : Server}
      → IsSound s
      → check_processes sys settings watched n s ≡ ret s'
      → Kept s s'
  unfolding check_processes
  check_processes-Kept zero s {s'} v h = became s s s' (Kept-refl s v) h
  check_processes-Kept (suc i) s {s'} v h =
      bind_elim (check_process sys settings watched s i) _ h λ s1 e h1.
        let k = check_process-Kept s i v e in
        Kept-trans s s1 s' k (check_processes-Kept i s1 k.sound h1)

module _ (settings : Settings) where
  note_incoming-Kept : (incoming : ℤ) (s : Server) → IsSound s → Kept s (note_incoming incoming s)
  note_incoming-Kept (pos n) s v = Kept-refl s v
  note_incoming-Kept (negsuc n) s v = with_log s v (s.log ++ incoming_failed ∷ [])

  server_round-Kept :
      (sys : System) (s : Server) {s' : Server}
      → IsSound s
      → server_round settings sys s ≡ ret s'
      → Kept s s'
  unfolding server_round
  server_round-Kept sys s {s'} v h =
      bind_elim (connection_init_set settings.buffer_size s) _ h λ s0 e0 h0.
        bind_elim (server_check_activity s0) _ h0 λ watched _ h1.
          bind_elim (server_handle_incoming sys settings watched s0) _ h1 λ (incoming, s1) e1 h2.
            bind_elim
              (serve_clients sys settings watched s1.client_stack.count (note_incoming incoming s1))
              _ h2
              λ s2 e2 h3.
                let s1' = note_incoming incoming s1 in
                let k0 = connection_init_set-Kept settings.buffer_size s v e0 in
                let k1 = server_handle_incoming-Kept sys settings watched s0 k0.sound e1 in
                let k1' = note_incoming-Kept incoming s1 k1.sound in
                let k2 =
                  serve_clients-Kept sys settings watched s1.client_stack.count s1' k1'.sound e2 in
                let k3 =
                  check_processes-Kept sys settings watched s2.process_store.capacity s2 k2.sound
                    h3 in
                Kept-trans s s0 s' k0
                  (Kept-trans s0 s1 s' k1 (Kept-trans s1 s1' s' k1' (Kept-trans s1' s2 s' k2 k3)))

  -- The rounds keep the invariant.
  pub server_rounds-Kept :
      (systems : List System) (s : Server) {s' : Server}
      → IsSound s
      → server_rounds settings systems s ≡ ret s'
      → Kept s s'
  unfolding server_rounds
  server_rounds-Kept [] s {s'} v h = became s s s' (Kept-refl s v) h
  server_rounds-Kept (sys ∷ later) s {s'} v h =
      bind_elim (server_round settings sys s) _ h λ s1 e h1.
        let k = server_round-Kept sys s v e in
        Kept-trans s s1 s' k (server_rounds-Kept later s1 k.sound h1)
