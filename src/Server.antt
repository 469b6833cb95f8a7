-- ===== src/Server.antt =====
-- src/server.h: the agent's queue of tasks and its running processes. The two stores are those of
-- `Server`. What the system does when a process is to be started is an argument.
pub mod Wait
pub mod Queue
pub mod Launch
pub mod Load
pub mod Fetch
pub mod Write
pub mod Keep
mod Tests
use dpatch.Prelude.{
  ℕ, zero, suc, ◌+◌, ◌==◌, ◌&&◌, pos, Bool, true, false, List, [], ◌∷◌, Option, none, some, ltb,
  if◌then◌else◌, replicate,
}
use dpatch.Exec.{Exec, fault, ret, ◌>>=◌, put}
use dpatch.Memory.{Bytes, string_at}
use dpatch.Store.{Slot, Store, KeyValue, store_push_empty, store_get, store_remove_at}
use dpatch.Client.{same_text}

-- A pointer into `buf` is an offset, `none` for NULL.
pub record Task : Type 0 where
  pub buf_loc : ℕ
  pub var_count : ℕ
  pub cmd : Option ℕ
  pub dir : Option ℕ
  pub wait : Option ℕ
  pub name : ℕ
  pub buf : Bytes
  pub vars : List (Option ℕ)

-- `task_name` is the memory behind the record.
pub record TaskProcess : Type 0 where
  pub start_time : ℕ
  pub pid : ℕ
  pub task_name : Bytes
  pub out_fd_r : ℕ
  pub err_fd_r : ℕ

-- What the system answers: no pipes or no child, or the time, the pid and the ends of the pipes.
pub data Spawn : Type 0 where
  refused : Spawn
  spawned : ℕ → ℕ → ℕ → ℕ → Spawn

-- `memcpy(buf + at, text, strlen(text))`
unfoldable pub copy_text : Bytes → ℕ → Bytes → Exec Bytes
copy_text buf at [] = ret buf
copy_text buf at (b ∷ text) = do next ← put buf at b; copy_text next (at + 1) text

abbrev pub zeroed_process : ℕ → TaskProcess
zeroed_process task_name_size = record {
  start_time = 0;
  pid = 0;
  task_name = replicate task_name_size 0;
  out_fd_r = 0;
  err_fd_r = 0;
}

-- The parent's side of `server_task_launch`; `false` is -1.
unfoldable pub server_task_launch :
    ℕ → Spawn → Store TaskProcess → Task → Exec (Bool × Store TaskProcess)
unfolding store_push_empty copy_text string_at
server_task_launch task_name_size refused processes task = ret (false, processes)
server_task_launch task_name_size (spawned time pid out_fd err_fd) processes task =
    if ltb processes.open_cnt 1 then ret (false, processes) else (do
      (res, processes') ← store_push_empty (zeroed_process task_name_size) processes
      elim res [
        | none ↦ ret (false, processes')
        | some (key, process) ↦ (do
          name ← string_at task.buf task.name
          copied ← copy_text process.task_name 0 name
          slots ← put processes'.slots key (record {
            used = true;
            value = record {
              start_time = time;
              pid = pid;
              task_name = copied;
              out_fd_r = out_fd;
              err_fd_r = err_fd;
            };
          })
          ret (true, record processes' { slots = slots }))
      ])

-- The loop of `server_task_wait_match` over the slots below `n`.
unfoldable pub wait_match_below : ℕ → Store TaskProcess → Bytes → ℕ → Exec Bool
unfolding store_get string_at
wait_match_below zero processes buf wait = ret false
wait_match_below (suc i) processes buf wait = do
  res ← store_get processes (pos i)
  elim res [
    | none ↦ wait_match_below i processes buf wait
    | some (key, process) ↦ (do
      name ← string_at process.task_name 0
      awaited ← string_at buf wait
      if same_text name awaited then ret true else wait_match_below i processes buf wait)
  ]

unfoldable pub server_task_wait_match : Store TaskProcess → Task → Exec Bool
unfolding wait_match_below
server_task_wait_match processes task = elim task.wait [
  | none ↦ ret false
  | some wait ↦ wait_match_below processes.capacity processes task.buf wait
]

-- `strncmp(text, start, strlen(start)) == 0`
abbrev pub starts_with : Bytes → Bytes → Bool
starts_with text [] = true
starts_with [] (b ∷ start) = false
starts_with (a ∷ text) (b ∷ start) = a == b && starts_with text start

-- `task->wait == NULL || strncmp(task->wait, completed_task_name, name_len) == 0`
unfoldable pub is_due : Task → Bytes → Exec Bool
unfolding string_at
is_due task completed = elim task.wait [
  | none ↦ ret true
  | some wait ↦ (do text ← string_at task.buf wait; ret (starts_with text completed))
]

module _ (task_name_size : ℕ) (spawn : Spawn) (processes : Store TaskProcess)
    (completed : Bytes) where
  -- What follows when the task at `key` is due.
  unfoldable pub launch_queued :
      Store Task → ℕ → Task → Exec (Bool × Store TaskProcess × Store Task)
  unfolding server_task_launch store_remove_at
  launch_queued tasks key task = do
    (launched, processes') ← server_task_launch task_name_size spawn processes task
    if launched
        then (do (found, tasks') ← store_remove_at tasks (pos key); ret (true, processes', tasks'))
        else ret (false, processes', tasks)

  -- The loop of `server_check_task_queue` over the slots below `n`. Its LOG_DEBUG, which would print a
  -- NULL for a task that waits for none, is compiled out at the Makefile's LOG_LEVEL of 3.
  unfoldable pub check_below : ℕ → Store Task → Exec (Bool × Store TaskProcess × Store Task)
  unfolding store_get is_due launch_queued
  check_below zero tasks = ret (false, processes, tasks)
  check_below (suc i) tasks = do
    res ← store_get tasks (pos i)
    elim res [
      | none ↦ check_below i tasks
      | some (key, task) ↦ (do
        due ← is_due task completed
        if due then launch_queued tasks key task else check_below i tasks)
    ]

  -- `false` is -1.
  unfoldable pub server_check_task_queue : Store Task → Exec (Bool × Store TaskProcess × Store Task)
  unfolding check_below
  server_check_task_queue tasks =
      if ltb processes.open_cnt 1
      then ret (false, processes, tasks)
      else check_below tasks.capacity tasks
