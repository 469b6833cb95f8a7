-- ===== src/Server/Fetch.antt =====
-- `get_task` against the map of the queue.
use dpatch.Prelude.{
  ℕ, ◌+◌, ◌≡◌, ◌≢◌, inl, inr, refl, sym, ap, ◌∙◌, subst, true, List, [], ◌∷◌, Option, none, some,
  arith, Option-cases, length,
}
use dpatch.Exec.{ret, ◌>>=◌, >>=-eq-ret, put, put-ret}
use dpatch.Memory.{Bytes}
use dpatch.Store.{Store, KeyValue, store_push_empty}
use dpatch.Store.Valid.{item_at, IsValid}
use dpatch.Store.Access.{Changed, replaced}
use dpatch.Store.Push.{Pushed, store_push-cases, store_push_empty_lem}
use dpatch.Store.Remove.{store_remove_at-cases}
use dpatch.Ini.{IniRetCode, ini_ok, ini_null, ini_invalid, ini_parse}
use dpatch.Server.{Task, copy_text}
use dpatch.Server.Launch.{Pushed-Changed}
use dpatch.Server.Load.{
  task_write, workspace_task_get, apply_envs, write_task, discard_task, keep_task, zeroed_task,
  get_task,
}

-- The queue is valid and holds what it held.
pub record Same (s s' : Store Task) : Type 0 where
  pub valid : IsValid s'
  pub same_capacity : s'.capacity ≡ s.capacity
  pub view : (j : ℕ) → item_at s' j ≡ item_at s j

-- What `get_task` leaves: KEYVALUE_NONE and the queue as it was, or a task with a command at a key
-- that was free, with every other key as it was.
abbrev pub Outcome : Store Task → KeyValue Task → Store Task → Type 0
Outcome s none s' = Same s s'
Outcome s (some (k, task)) s' =
    (item_at s k ≡ none) × (task.cmd ≢ none) × Changed s k (some task) s'

task_write-cmd :
    (task : Task) (value : Bytes) (end_char : ℕ) {r : ℕ × Task}
    → task_write task value end_char ≡ ret r
    → r.1.cmd ≡ task.cmd
unfolding task_write
task_write-cmd task value end_char {r} h =
    let (copied, ec, h') = >>=-eq-ret (copy_text task.buf task.buf_loc value) _ h in
    let (ended, ee, h'') = >>=-eq-ret (put copied (task.buf_loc + length value) end_char) _ h' in
    let same : (
      task.buf_loc,
      record task { buf = ended; buf_loc = task.buf_loc + (length value + 1) },
    )
        ≡ r =
      cc h'' in
    sym (ap (λ (q : ℕ × Task). q.1.cmd) same)

-- The environment variables leave the command as it is.
apply_envs-cmd :
    (envs : List (Option Bytes)) (e : ℕ) (task : Task) {task' : Task}
    → apply_envs envs e task ≡ ret task'
    → task'.cmd ≡ task.cmd
unfolding apply_envs
apply_envs-cmd [] e task h = absurd (cc h)
apply_envs-cmd (none ∷ envs) e task {task'} h =
    let same : task ≡ task' = cc h in sym (ap (λ (t : Task). t.cmd) same)
apply_envs-cmd (some env ∷ envs) e task h =
    let ((at, written), ew, h') = >>=-eq-ret (task_write task env 0) _ h in
    let (vars, ev, h'') = >>=-eq-ret (put written.vars (e + written.var_count) (some at)) _ h' in
    apply_envs-cmd envs (e + 1) (record written { vars = vars }) h'' ∙ task_write-cmd task env 0 ew

module _ (s pushed : Store Task) (k : ℕ) (zeroed : Task) (p : Pushed s zeroed k pushed) where
  written : (task : Task) → write_task pushed k task ≡ ret (replaced pushed k task)
  unfolding write_task replaced
  written task =
      let inside = (Pushed-Changed s pushed k zeroed task p).0 in
      rw (put-ret pushed.slots k (record { used = true; value = task }) inside) refl

  discarded :
      (task : Task)
      → (s' : Store Task) × (discard_task (replaced pushed k task) k ≡ ret (none, s')) × Same s s'
  unfolding discard_task
  discarded task =
      let changed = (Pushed-Changed s pushed k zeroed task p).1 in
      elim (store_remove_at-cases (replaced pushed k task) k changed.valid) [
        | inl (gone, e) ↦ absurd (ground (arith, gone, changed.view k))
        | inr (old, s', found, e, now) ↦ (
          s',
          rw e refl,
          record {
            valid = now.valid;
            same_capacity = now.same_capacity ∙ changed.same_capacity;
            view = λ j. ground (arith, now.view j, changed.view j, p.was_free);
          },
        )
      ]

  dropped :
      (task : Task) {r : KeyValue Task × Store Task}
      → (write_task pushed k task >>= λ tasks. discard_task tasks k) ≡ ret r
      → Outcome s r.0 r.1
  dropped task {r} h =
      let (s', e, same) = discarded task in
      let result : (none, s') ≡ r = cc (h, written task, e) in
      subst (λ (q : KeyValue Task × Store Task). Outcome s q.0 q.1) result same

  -- Each way `keep_task` can end.
  keep_task-Outcome :
      (code : IniRetCode) (task : Task) (envs : List (Option Bytes))
      {r : KeyValue Task × Store Task}
      → keep_task code pushed k task envs ≡ ret r
      → Outcome s r.0 r.1
  unfolding keep_task
  keep_task-Outcome ini_null task envs h = dropped task h
  keep_task-Outcome ini_invalid task envs h = dropped task h
  keep_task-Outcome ini_ok task envs {r} h = elim (Option-cases task.cmd) [
    | inl e ↦ dropped task (sym (rw e refl) ∙ h)
    | inr (cmd, e) ↦
        let filled : (apply_envs envs 0 task >>= λ ready.
        write_task pushed k ready >>= λ tasks. ret (some (k, ready), tasks))
            ≡ ret r =
          sym (rw e refl) ∙ h in
        let (ready, applied, stored) = >>=-eq-ret (apply_envs envs 0 task) _ filled in
        let kept : (some (k, ready), replaced pushed k ready) ≡ r = cc (stored, written ready) in
        let runs : ready.cmd ≡ some cmd = apply_envs-cmd envs 0 task applied ∙ e in
        subst (λ (q : KeyValue Task × Store Task). Outcome s q.0 q.1) kept
          (
            p.was_free,
            λ gone. absurd (cc (gone, runs)),
            (Pushed-Changed s pushed k zeroed ready p).1,
          )
  ]

get_task_filled :
    (buf_size var_max : ℕ) (workspace : Option Bytes) (s pushed : Store Task) (task_name : Bytes)
    (envs : List (Option Bytes)) (k : ℕ) {r : KeyValue Task × Store Task}
    → store_push_empty (zeroed_task buf_size var_max) s
      ≡ ret (some (k, zeroed_task buf_size var_max), pushed)
    → Pushed s (zeroed_task buf_size var_max) k pushed
    → get_task buf_size var_max workspace s (some task_name) envs ≡ ret r
    → Outcome s r.0 r.1
unfolding get_task
get_task_filled buf_size var_max workspace s pushed task_name envs k {r} push p h =
    let zeroed = zeroed_task buf_size var_max in
    let rest : (task_write zeroed task_name 0 >>= λ w.
    ini_parse workspace_task_get workspace (record (w.1) { name = w.0 }) >>= λ c.
    keep_task c.0 pushed k c.1 envs)
        ≡ ret r =
      sym (rw push refl) ∙ h in
    let (w, ew, h1) = >>=-eq-ret (task_write zeroed task_name 0) _ rest in
    let (c, ec, h2) =
      >>=-eq-ret (ini_parse workspace_task_get workspace (record (w.1) { name = w.0 })) _ h1 in
    keep_task-Outcome s pushed k zeroed p c.0 c.1 envs h2

-- Whatever the workspace file holds, a return of get_task on a valid queue either is
-- KEYVALUE_NONE, and the queue is valid and holds what it held, or is a task with a command at a
-- key that was free, and the queue is valid and holds that task and else what it held.
pub get_task-Outcome :
    (buf_size var_max : ℕ) (workspace : Option Bytes) (s : Store Task) (task_name : Option Bytes)
    (envs : List (Option Bytes)) {r : KeyValue Task × Store Task}
    → IsValid s
    → get_task buf_size var_max workspace s task_name envs ≡ ret r
    → Outcome s r.0 r.1
unfolding get_task
get_task-Outcome buf_size var_max workspace s none envs {r} v h =
    let same : (none, s) ≡ r = cc h in
    subst (λ (q : KeyValue Task × Store Task). Outcome s q.0 q.1) same
      (record { valid = v; same_capacity = refl; view = λ j. refl })
get_task-Outcome buf_size var_max workspace s (some task_name) envs {r} v h =
    let zeroed = zeroed_task buf_size var_max in
    let empty = store_push_empty_lem zeroed s in
    elim (store_push-cases s zeroed v) [
      | inl (full, taken) ↦
          let result : (none, s) ≡ r = cc (rw (empty, full) at h) in
          subst (λ (q : KeyValue Task × Store Task). Outcome s q.0 q.1) result
            (record { valid = v; same_capacity = refl; view = λ j. refl })
      | inr (k, pushed, push, p) ↦
          get_task_filled buf_size var_max workspace s pushed task_name envs k (empty ∙ push) p h
    ]
