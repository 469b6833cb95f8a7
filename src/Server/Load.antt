-- ===== src/Server/Load.antt =====
-- src/server.h: how a task is read from the workspace file into the queue. The parser is that of
-- src/ini.h, with `workspace_task_get` as its handler and the task as its data.
use dpatch.Prelude.{
  ℕ, ◌+◌, pos, true, not, List, [], ◌∷◌, Option, none, some, if◌then◌else◌, replicate, length,
}
use dpatch.Exec.{Exec, fault, ret, ◌>>=◌, put}
use dpatch.Memory.{Bytes, string_at}
use dpatch.Store.{Store, KeyValue, store_push_empty, store_remove_at}
use dpatch.Client.{same_text}
use dpatch.Ini.{IniRetCode, ini_ok, ini_null, ini_invalid, ini_parse}
use dpatch.Server.{Task, copy_text}

-- `buf` is the memory of `task_buf_size` bytes. Returns where the value stands, and the task.
unfoldable pub task_write : Task → Bytes → ℕ → Exec (ℕ × Task)
unfolding copy_text
task_write task value end_char = do
  copied ← copy_text task.buf task.buf_loc value
  ended ← put copied (task.buf_loc + length value) end_char
  ret (task.buf_loc, record task { buf = ended; buf_loc = task.buf_loc + (length value + 1) })

abbrev pub cmd_key : Bytes
cmd_key = b'c' ∷ b'm' ∷ b'd' ∷ []

abbrev pub dir_key : Bytes
dir_key = b'd' ∷ b'i' ∷ b'r' ∷ []

abbrev pub wait_key : Bytes
wait_key = b'w' ∷ b'a' ∷ b'i' ∷ b't' ∷ []

-- Points the field of a key to where its value will stand; any other key is the front of a variable.
unfoldable pub point_key : Task → Bytes → Exec Task
unfolding task_write
point_key task name =
    if same_text name cmd_key
    then ret (record task { cmd = some task.buf_loc })
    else if same_text name dir_key
    then ret (record task { dir = some task.buf_loc })
    else if same_text name wait_key
    then ret (record task { wait = some task.buf_loc })
    else (do
      (at, written) ← task_write task name b'='
      vars ← put written.vars written.var_count (some at)
      ret (record written { vars = vars; var_count = written.var_count + 1 }))

unfoldable pub workspace_task_get : Task → Bytes → Bytes → Bytes → Exec Task
unfolding point_key task_write string_at
workspace_task_get task section name value = do
  task_name ← string_at task.buf task.name
  if not (same_text section task_name) then ret task else (do
    pointed ← point_key task name
    (at, written) ← task_write pointed value 0
    ret written)

-- The loop over `envs` at place `e`, up to the NULL.
unfoldable pub apply_envs : List (Option Bytes) → ℕ → Task → Exec Task
unfolding task_write
apply_envs [] e task = fault
apply_envs (none ∷ envs) e task = ret task
apply_envs (some env ∷ envs) e task = do
  (at, written) ← task_write task env 0
  vars ← put written.vars (e + written.var_count) (some at)
  apply_envs envs (e + 1) (record written { vars = vars })

-- A write to the task behind the pointer that the store has given out.
unfoldable pub write_task : Store Task → ℕ → Task → Exec (Store Task)
write_task tasks key task = do
  slots ← put tasks.slots key (record { used = true; value = task })
  ret (record tasks { slots = slots })

unfoldable pub discard_task : Store Task → ℕ → Exec (KeyValue Task × Store Task)
unfolding store_remove_at
discard_task tasks key = do (found, tasks') ← store_remove_at tasks (pos key); ret (none, tasks')

-- What follows the parse of the workspace. `envs` is the array of the message, never NULL.
unfoldable pub keep_task :
    IniRetCode → Store Task → ℕ → Task → List (Option Bytes) → Exec (KeyValue Task × Store Task)
unfolding write_task discard_task apply_envs
keep_task ini_null pushed key task envs = do
  tasks ← write_task pushed key task
  discard_task tasks key
keep_task ini_invalid pushed key task envs = do
  tasks ← write_task pushed key task
  discard_task tasks key
keep_task ini_ok pushed key task envs = elim task.cmd [
  | none ↦ (do tasks ← write_task pushed key task; discard_task tasks key)
  | some cmd ↦ (do
    ready ← apply_envs envs 0 task
    tasks ← write_task pushed key ready
    ret (some (key, ready), tasks))
]

abbrev pub zeroed_task : ℕ → ℕ → Task
zeroed_task task_buf_size task_var_max_count = record {
  buf_loc = 0;
  var_count = 0;
  cmd = none;
  dir = none;
  wait = none;
  name = 0;
  buf = replicate task_buf_size 0;
  vars = replicate task_var_max_count none;
}

-- `workspace` is what the workspace file holds, `none` if it cannot be opened.
unfoldable pub get_task :
    ℕ
    → ℕ
    → Option Bytes
    → Store Task
    → Option Bytes
    → List (Option Bytes)
    → Exec (KeyValue Task × Store Task)
unfolding store_push_empty task_write ini_parse workspace_task_get keep_task
get_task buf_size var_max workspace tasks none envs = ret (none, tasks)
get_task buf_size var_max workspace tasks (some task_name) envs = do
  (res, pushed) ← store_push_empty (zeroed_task buf_size var_max) tasks
  elim res [
    | none ↦ ret (none, pushed)
    | some (key, fresh) ↦ (do
      (at, named) ← task_write fresh task_name 0
      (code, task) ← ini_parse workspace_task_get workspace (record named { name = at })
      keep_task code pushed key task envs)
  ]
