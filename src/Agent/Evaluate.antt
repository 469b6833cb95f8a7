-- ===== src/Agent/Evaluate.antt =====
-- The invariant of the agent through the evaluation of a packet.
use dpatch.Prelude.{
  ℕ, ◌≡◌, ◌==◌, ◌∙◌, refl, ap, ℤ, pos, Bool, true, false, not, List, [], ◌∷◌, ◌++◌, Option, none,
  some, replicate, ascii,
}
use dpatch.Exec.{Exec, ret, load, ◌>>=◌, bind_elim, if_elim, option_elim}
use dpatch.Memory.{Bytes, string_at, put_string}
use dpatch.Memory.Sizes.{put_string-SameSize}
use dpatch.Store.{KeyValue, store_remove_at}
use dpatch.Config.{Settings}
use dpatch.Protocol.{
  protocol_read, parse_token_stream, msg_success, msg_err, msg_task_run, msg_workspace_set,
}
use dpatch.Protocol.Sizes.{protocol_read-SameSize}
use dpatch.Server.{Task, server_task_launch, server_task_wait_match}
use dpatch.Server.Load.{get_task}
use dpatch.Server.Keep.{Keeps-refl, store_remove_at-Keeps, server_task_launch-Keeps, get_task-Keeps}
use dpatch.Agent.{
  Server, System, ClientPacket, Report, note, invalid_message, task_missing, task_queued,
  task_failed, task_started, workspace_refused, workspace_used,
}
use dpatch.Agent.Respond.{server_respond, respond_fmt}
use dpatch.Agent.Packet.{
  launch_task, run_fetched, run_task, set_workspace, eval_message, server_eval_packet,
}
use dpatch.Agent.Kept.{
  IsSound, Kept, Kept-refl, Kept-trans, with_stores, with_buffers, with_stream, with_log,
}
use dpatch.Agent.Replies.{returned, server_respond-Kept, respond_fmt-Kept}

module _ (sys : System) (settings : Settings) (packet : ClientPacket) where
  -- An answer from `s0` is the last thing that happens.
  answered :
      (s s0 : Server) (m : Exec (ℤ × Server)) (status : Bool) (line : Report) {r : Bool × Server}
      → ((q : ℤ × Server) → m ≡ ret q → Kept s0 q.1)
      → Kept s s0
      → (m >>= λ q. ret (status, note line q.1)) ≡ ret r
      → Kept s r.1
  answered s s0 m status line last k h = bind_elim m _ h λ q e h1.
      let kept = last q e in
      let logged = with_log q.1 kept.sound (q.1.log ++ line ∷ []) in
      returned s (note line q.1) status
        (Kept-trans s s0 (note line q.1) k (Kept-trans s0 q.1 (note line q.1) kept logged)) h1

  launch_task-Kept :
      (s : Server) (key : ℕ) (task : Task) (name : Option Bytes) {r : Bool × Server}
      → IsSound s
      → launch_task sys settings packet s key task name ≡ ret r
      → Kept s r.1
  unfolding launch_task
  launch_task-Kept s key task name {r} v h =
      bind_elim
        (server_task_launch settings.task_name_size (sys.spawn packet.client) s.process_store task)
        _ h
        λ (launched, processes) e1 h1.
          let s0 : Server = record s { process_store = processes } in
          let k0 : Kept s s0 =
            with_stores s v processes s.task_store
              (server_task_launch-Keeps settings.task_name_size (sys.spawn packet.client)
                s.process_store task v.processes e1)
              (Keeps-refl s.task_store v.tasks) in
          if_elim launched _ _ h1
            (λ _ h2.
              bind_elim
                (respond_fmt sys settings.buffer_size s0 packet msg_success (ascii "Task '") name
                  (ascii "' started succesfully"))
                _ h2
                λ (count, s1) e3 h3.
                  bind_elim (store_remove_at s1.task_store (pos key)) _ h3 λ (removed, tasks) e4 h4.
                    let k1 =
                      respond_fmt-Kept sys settings.buffer_size s0 packet msg_success
                        (ascii "Task '") name (ascii "' started succesfully") k0.sound e3 in
                    let k2 =
                      with_stores s1 k1.sound s1.process_store tasks
                        (Keeps-refl s1.process_store k1.sound.processes)
                        (store_remove_at-Keeps s1.task_store key k1.sound.tasks e4) in
                    let s2 : Server = record s1 { task_store = tasks } in
                    let s3 = note (task_started name) s2 in
                    let k3 = with_log s2 k2.sound (s2.log ++ task_started name ∷ []) in
                    returned s s3 true
                      (Kept-trans s s0 s3 k0 (Kept-trans s0 s1 s3 k1 (Kept-trans s1 s2 s3 k2 k3)))
                      h4)
            (λ _ h2.
              answered s s0 _ false (task_failed name)
                (λ _ e.
                  respond_fmt-Kept sys settings.buffer_size s0 packet msg_err
                    (ascii "Failed to run task '") name (ascii "'") k0.sound e)
                k0 h2)

  formatted-Kept :
      (s : Server) (type : ℕ) (front : Bytes) (name : Option Bytes) (behind : Bytes) (status : Bool)
      (line : Report) {r : Bool × Server}
      → IsSound s
      → (respond_fmt sys settings.buffer_size s packet type front name behind >>= λ q.
          ret (status, note line q.1))
        ≡ ret r
      → Kept s r.1
  formatted-Kept s type front name behind status line v h =
      answered s s _ status line
        (λ _ e. respond_fmt-Kept sys settings.buffer_size s packet type front name behind v e)
        (Kept-refl s v) h

  refused-Kept :
      (s : Server) (text : Bytes) (status : Bool) (line : Report) {r : Bool × Server}
      → IsSound s
      → (server_respond sys settings.buffer_size s packet msg_err text >>= λ q.
          ret (status, note line q.1))
        ≡ ret r
      → Kept s r.1
  refused-Kept s text status line v h =
      answered s s _ status line
        (λ _ e. server_respond-Kept sys settings.buffer_size s packet msg_err text v e)
        (Kept-refl s v) h

  run_fetched-Kept :
      (s : Server) (res : KeyValue Task) (name : Option Bytes) {r : Bool × Server}
      → IsSound s
      → run_fetched sys settings packet s res name ≡ ret r
      → Kept s r.1
  unfolding run_fetched
  run_fetched-Kept s none name v h =
      formatted-Kept s msg_err (ascii "Task '") name (ascii "' not found") false (task_missing name)
        v h
  run_fetched-Kept s (some (key, task)) name v h =
      bind_elim (server_task_wait_match s.process_store task) _ h λ waits _ h1.
        if_elim waits _ _ h1
          (λ _ h2.
            formatted-Kept s msg_success (ascii "Task '") name (ascii "' put in queue") true
              (task_queued name) v h2)
          (λ _ h2. launch_task-Kept s key task name v h2)

  run_task-Kept :
      (s : Server) (args vars : List (Option Bytes)) {r : Bool × Server}
      → IsSound s
      → run_task sys settings packet s args vars ≡ ret r
      → Kept s r.1
  unfolding run_task
  run_task-Kept s args vars {r} v h = bind_elim (load args 0) _ h λ name _ h1.
      bind_elim (string_at s.workspace 0) _ h1 λ path _ h2.
        bind_elim
          (get_task settings.task_buf_size settings.task_var_max_count (sys.files path) s.task_store
            name vars)
          _ h2
          λ (res, tasks) e h3.
            let s0 : Server = record s { task_store = tasks } in
            let k0 : Kept s s0 =
              with_stores s v s.process_store tasks (Keeps-refl s.process_store v.processes) (
                get_task-Keeps settings.task_buf_size settings.task_var_max_count (sys.files path)
                  s.task_store name vars v.tasks e) in
            Kept-trans s s0 r.1 k0 (run_fetched-Kept s0 res name k0.sound h3)

  set_workspace-Kept :
      (s : Server) (path : Option Bytes) {r : Bool × Server}
      → IsSound s
      → set_workspace sys settings packet s path ≡ ret r
      → Kept s r.1
  unfolding set_workspace
  set_workspace-Kept s none v h = absurd (cc h)
  set_workspace-Kept s (some path) {r} v h =
      if_elim (not (sys.may_read path)) _ _ h
        (λ _ h1. refused-Kept s (ascii "Workspace not found") false (workspace_refused path) v h1)
        (λ _ h1. bind_elim (put_string s.workspace 0 path) _ h1 λ workspace e h2.
          let s0 : Server = record s { workspace = workspace } in
          let k0 : Kept s s0 =
            with_buffers s v s.in_buf s.out_buf workspace refl refl
              (put_string-SameSize s.workspace 0 path e) in
          Kept-trans s s0 r.1 k0 (
            formatted-Kept s0 msg_success (ascii "Workspace '") (some path)
              (ascii "' set as active") true (workspace_used path) k0.sound h2))

  eval_message-Kept :
      (s : Server) (type : ℕ) (args vars : List (Option Bytes)) {r : Bool × Server}
      → IsSound s
      → eval_message sys settings packet s type args vars ≡ ret r
      → Kept s r.1
  unfolding eval_message
  eval_message-Kept s type args vars v h =
      if_elim (type == msg_task_run) _ _ h (λ _ h1. run_task-Kept s args vars v h1)
        (λ _ h1.
          if_elim (type == msg_workspace_set) _ _ h1
            (λ _ h2. bind_elim (load args 0) _ h2 λ path _ h3. set_workspace-Kept s path v h3)
            (λ _ h2.
              bind_elim
                (server_respond sys settings.buffer_size s packet msg_err (ascii "Invalid command"))
                _ h2
                λ q e h3.
                  returned s q.1 true
                    (server_respond-Kept sys settings.buffer_size s packet msg_err
                      (ascii "Invalid command") v e)
                    h3))

  pub server_eval_packet-Kept :
      (s : Server) {r : Bool × Server}
      → IsSound s
      → server_eval_packet sys settings packet s ≡ ret r
      → Kept s r.1
  unfolding server_eval_packet
  server_eval_packet-Kept s {r} v h =
      bind_elim (protocol_read s.in_buf settings.buffer_size s.token_stream) _ h λ read e h1.
        option_elim read _ _ h1
          (λ _ h2. refused-Kept s (ascii "Invalid command") false invalid_message v h2)
          λ ts e2 h2.
            bind_elim (parse_token_stream ts (replicate ts.length none) (replicate ts.length none))
              _ h2
              λ (type, args, vars) _ h3.
                let s0 : Server = record s { token_stream = ts } in
                let k0 : Kept s s0 = with_stream s v ts (
                  protocol_read-SameSize s.in_buf settings.buffer_size s.token_stream
                    (e ∙ ap (λ o. ret o) e2)) in
                Kept-trans s s0 r.1 k0 (eval_message-Kept s0 ts.type args vars k0.sound h3)
