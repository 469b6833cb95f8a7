-- ===== src/Server/Tests.antt =====
-- A queue with a task that waits, and the laws at it.
use dpatch.Prelude.{
  ℕ, zero, suc, ◌≡◌, ◌≢◌, ◌⊎◌, refl, subst, Bool, true, false, [], ◌∷◌, none, some, arith, take,
  occurrences,
}
use dpatch.Exec.{ret}
use dpatch.Memory.{Bytes, string_at, put_string}
use dpatch.Store.{Store}
use dpatch.Store.Valid.{free_at, item_at, IsValid}
use dpatch.Store.Access.{Changed}
use dpatch.Server.{
  Task, TaskProcess, spawned, is_due, server_task_launch, server_task_wait_match,
  server_check_task_queue,
}
use dpatch.Server.Wait.{AllNamed, server_task_wait_match-cases}
use dpatch.Server.Queue.{Due, AllReadable, NoneDue, server_check_task_queue-cases}
use dpatch.Server.Load.{get_task, task_write}
use dpatch.Server.Write.{task_write-overlay}
use dpatch.Server.Fetch.{Outcome, get_task-Outcome}
use dpatch.Server.Launch.{Started, server_task_launch-Started}

-- The task `b`, which waits for `a`.
abbrev task_b : Task
task_b = record {
  buf_loc = 4;
  var_count = 0;
  cmd = none;
  dir = none;
  wait = some 2;
  name = 0;
  buf = b'b' ∷ 0 ∷ b'a' ∷ 0 ∷ [];
  vars = [];
}

abbrev queue : Store Task
queue = record {
  capacity = 2;
  open_cnt = 1;
  open_slots = 1 ∷ 0 ∷ [];
  slots = record { used = true; value = task_b } ∷ record { used = false; value = task_b } ∷ [];
}

abbrev running : TaskProcess
running = record {
  start_time = 1;
  pid = 77;
  task_name = b'a' ∷ 0 ∷ 0 ∷ 0 ∷ [];
  out_fd_r = 5;
  err_fd_r = 6;
}

abbrev processes : Store TaskProcess
processes = record {
  capacity = 2;
  open_cnt = 1;
  open_slots = 1 ∷ 0 ∷ [];
  slots = record { used = true; value = running } ∷ record { used = false; value = running } ∷ [];
}

queue-balance :
    (j : ℕ) → occurrences j (take queue.open_cnt queue.open_slots) ≡ free_at queue.slots j
queue-balance zero = refl
queue-balance (suc zero) = refl
queue-balance (suc (suc j)) = ground arith

queue-IsValid : IsValid queue
queue-IsValid = record {
  slots_length = refl;
  open_length = refl;
  balance = queue-balance;
  total = refl;
}

processes-balance :
    (j : ℕ)
    → occurrences j (take processes.open_cnt processes.open_slots) ≡ free_at processes.slots j
processes-balance zero = refl
processes-balance (suc zero) = refl
processes-balance (suc (suc j)) = ground arith

processes-IsValid : IsValid processes
processes-IsValid = record {
  slots_length = refl;
  open_length = refl;
  balance = processes-balance;
  total = refl;
}

named : AllNamed processes
unfolding string_at
named zero p e =
    let same : running ≡ p = cc e in
    subst (λ (q : TaskProcess). (name : Bytes) × (string_at q.task_name 0 ≡ ret name)) same
      (b'a' ∷ [], refl)
named (suc zero) p e = absurd (cc e)
named (suc (suc j)) p e = absurd (cc e)

readable : AllReadable 4 (spawned 0 9 5 6) processes (b'a' ∷ []) queue queue-IsValid
unfolding is_due
readable zero t e =
    let same : task_b ≡ t = cc e in
    subst (λ (q : Task). (b : Bool) × (is_due q (b'a' ∷ []) ≡ ret b)) same (true, refl)
readable (suc zero) t e = absurd (cc e)
readable (suc (suc j)) t e = absurd (cc e)

wait_read : string_at task_b.buf 2 ≡ ret (b'a' ∷ [])
unfolding string_at
wait_read = refl

name_read : string_at task_b.buf 0 ≡ ret (b'b' ∷ [])
unfolding string_at
name_read = refl

-- A task that waits for `ab` is due when `a` has finished.
prefix_due :
    is_due (record task_b { wait = some 0; buf = b'a' ∷ b'b' ∷ 0 ∷ [] }) (b'a' ∷ []) ≡ ret true
unfolding is_due
prefix_due = refl

server_task_wait_match-cases_example :
    ((server_task_wait_match processes task_b ≡ ret true)
      × (j : ℕ) × (p : TaskProcess) × (item_at processes j ≡ some p)
      × (string_at p.task_name 0 ≡ ret (b'a' ∷ [])))
    ⊎ ((server_task_wait_match processes task_b ≡ ret false)
        × ((j : ℕ) (p : TaskProcess)
            → item_at processes j ≡ some p
            → string_at p.task_name 0 ≢ ret (b'a' ∷ [])))
server_task_wait_match-cases_example =
    server_task_wait_match-cases processes task_b 2 (b'a' ∷ []) processes-IsValid named refl
      wait_read

server_check_task_queue-cases_example :
    ((server_check_task_queue 4 (spawned 0 9 5 6) processes (b'a' ∷ []) queue
        ≡ ret (false, processes, queue))
      × NoneDue 4 (spawned 0 9 5 6) processes (b'a' ∷ []) queue queue-IsValid 2)
    ⊎ ((k : ℕ) × (task : Task) × Due 4
          (spawned 0 9 5 6)
          processes
          (b'a' ∷ [])
          queue
          queue-IsValid
          2
          k
          task
        × ((processes' : Store TaskProcess)
            → server_task_launch 4 (spawned 0 9 5 6) processes task ≡ ret (true, processes')
            → (tasks' : Store Task) × (server_check_task_queue 4
                  (spawned 0 9 5 6)
                  processes
                  (b'a' ∷ [])
                  queue
                ≡ ret (true, processes', tasks'))
              × Changed queue k none tasks')
        × ((processes' : Store TaskProcess)
            → server_task_launch 4 (spawned 0 9 5 6) processes task ≡ ret (false, processes')
            → server_check_task_queue 4 (spawned 0 9 5 6) processes (b'a' ∷ []) queue
              ≡ ret (false, processes', queue)))
server_check_task_queue-cases_example =
    server_check_task_queue-cases 4 (spawned 0 9 5 6) processes (b'a' ∷ []) queue queue-IsValid
      readable (omega arith)

server_task_launch-Started_example :
    (k : ℕ) × (p : TaskProcess) × (processes' : Store TaskProcess) × (server_task_launch 4
        (spawned 0 9 5 6)
        processes
        task_b
      ≡ ret (true, processes'))
    × (item_at processes k ≡ none)
    × Started 0 9 5 6 (b'b' ∷ []) p
    × Changed processes k (some p) processes'
server_task_launch-Started_example =
    server_task_launch-Started 4 0 9 5 6 processes task_b (b'b' ∷ []) processes-IsValid
      (omega arith) name_read (omega arith) (omega arith)

-- [b]
-- cmd=x
abbrev workspace : Bytes
workspace = b'[' ∷ b'b' ∷ b']' ∷ b'\n' ∷ b'c' ∷ b'm' ∷ b'd' ∷ b'=' ∷ b'x' ∷ b'\n' ∷ []

abbrev fetched : Task
fetched = record {
  buf_loc = 4;
  var_count = 0;
  cmd = some 2;
  dir = none;
  wait = none;
  name = 0;
  buf = b'b' ∷ 0 ∷ b'x' ∷ 0 ∷ 0 ∷ 0 ∷ [];
  vars = none ∷ [];
}

abbrev with_fetched : Store Task
with_fetched = record queue {
  open_cnt = 0;
  slots = record { used = true; value = task_b } ∷ record { used = true; value = fetched } ∷ [];
}

fetch :
    get_task 6 1 (some workspace) queue (some (b'b' ∷ [])) (none ∷ [])
    ≡ ret (some (1, fetched), with_fetched)
unfolding get_task put_string string_at
fetch = refl

get_task-Outcome_example : Outcome queue (some (1, fetched)) with_fetched
get_task-Outcome_example =
    get_task-Outcome 6 1 (some workspace) queue (some (b'b' ∷ [])) (none ∷ []) queue-IsValid fetch

-- The name of a variable behind what `fetched` holds.
task_write-overlay_example :
    task_write fetched (b'A' ∷ []) b'='
    ≡ ret (4, record fetched { buf = b'b' ∷ 0 ∷ b'x' ∷ 0 ∷ b'A' ∷ b'=' ∷ []; buf_loc = 6 })
task_write-overlay_example =
    task_write-overlay fetched (b'b' ∷ 0 ∷ b'x' ∷ 0 ∷ []) (0 ∷ 0 ∷ []) (b'A' ∷ []) b'=' refl refl
