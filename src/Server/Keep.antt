-- ===== src/Server/Keep.antt =====
-- The operations on the two stores keep them valid, whatever the system answers.
use dpatch.Prelude.{
  ℕ, zero, suc, ◌≡◌, inl, inr, refl, ◌∙◌, subst, pos, Bool, true, false, Option, none, some, ltb,
  set,
}
use dpatch.Exec.{ret, put, put-ret, bind_elim, if_elim, option_elim}
use dpatch.Memory.{Bytes, string_at}
use dpatch.Store.{Store, KeyValue, store_get, store_remove_at}
use dpatch.Store.Valid.{IsValid}
use dpatch.Store.Access.{replaced}
use dpatch.Store.Push.{Pushed, store_push-cases, store_push_empty_lem}
use dpatch.Store.Remove.{store_remove_at-cases}
use dpatch.Server.{
  Task, TaskProcess, Spawn, refused, spawned, copy_text, zeroed_process, server_task_launch, is_due,
  launch_queued, check_below, server_check_task_queue,
}
use dpatch.Server.Launch.{Pushed-Changed}
use dpatch.Server.Load.{get_task}
use dpatch.Server.Fetch.{Outcome, get_task-Outcome}

module _ {ℓ} {A : Type ℓ} where
  -- A valid store of the same capacity.
  pub record Keeps (s s' : Store A) : Type ℓ where
    pub valid : IsValid s'
    pub same_capacity : s'.capacity ≡ s.capacity

  pub Keeps-refl : (s : Store A) → IsValid s → Keeps s s
  Keeps-refl s v = record { valid = v; same_capacity = refl }

  pub Keeps-trans : (s t u : Store A) → Keeps s t → Keeps t u → Keeps s u
  Keeps-trans s t u h k = record {
    valid = k.valid;
    same_capacity = k.same_capacity ∙ h.same_capacity;
  }

  pub store_remove_at-Keeps :
      (s : Store A) (i : ℕ) {r : Bool × Store A}
      → IsValid s
      → store_remove_at s (pos i) ≡ ret r
      → Keeps s r.1
  store_remove_at-Keeps s i {r} v h = elim (store_remove_at-cases s i v) [
    | inl (gone, e) ↦
        let same : (false, s) ≡ r = cc (e, h) in
        subst (λ (q : Bool × Store A). Keeps s q.1) same (Keeps-refl s v)
    | inr (old, s', found, e, c) ↦
        let same : (true, s') ≡ r = cc (e, h) in
        subst (λ (q : Bool × Store A). Keeps s q.1) same
          (record { valid = c.valid; same_capacity = c.same_capacity })
  ]

-- A process that is pushed and then filled in.
filled-Keeps :
    (s pushed : Store TaskProcess) (k : ℕ) (zeroed p : TaskProcess) {slots : _}
    → Pushed s zeroed k pushed
    → put pushed.slots k (record { used = true; value = p }) ≡ ret slots
    → Keeps s (record pushed { slots = slots })
unfolding replaced
filled-Keeps s pushed k zeroed p {slots} pu h =
    let (inside, changed) = Pushed-Changed s pushed k zeroed p pu in
    let write = put-ret pushed.slots k (record { used = true; value = p }) inside in
    let same : set pushed.slots k (record { used = true; value = p }) ≡ slots = cc (write, h) in
    subst (λ l. Keeps s (record pushed { slots = l })) same
      (record { valid = changed.valid; same_capacity = changed.same_capacity })

pub server_task_launch-Keeps :
    (size : ℕ) (spawn : Spawn) (s : Store TaskProcess) (task : Task) {r : Bool × Store TaskProcess}
    → IsValid s
    → server_task_launch size spawn s task ≡ ret r
    → Keeps s r.1
unfolding server_task_launch
server_task_launch-Keeps size refused s task {r} v h =
    let same : (false, s) ≡ r = cc h in
    subst (λ (q : Bool × Store TaskProcess). Keeps s q.1) same (Keeps-refl s v)
server_task_launch-Keeps size (spawned time pid out_fd err_fd) s task {r} v h =
    if_elim (ltb s.open_cnt 1) _ _ h
      (λ _ h1.
        let same : (false, s) ≡ r = cc h1 in
        subst (λ (q : Bool × Store TaskProcess). Keeps s q.1) same (Keeps-refl s v))
      λ _ h1. elim (store_push-cases s (zeroed_process size) v) [
        | inl (full, taken) ↦
            let h2 = rw (store_push_empty_lem (zeroed_process size) s, full) at h1 in
            let same : (false, s) ≡ r = cc h2 in
            subst (λ (q : Bool × Store TaskProcess). Keeps s q.1) same (Keeps-refl s v)
        | inr (k, pushed, push, p) ↦
            let h2 = rw (store_push_empty_lem (zeroed_process size) s, push) at h1 in
            bind_elim (string_at task.buf task.name) _ h2 λ name _ h3.
              bind_elim (copy_text (zeroed_process size).task_name 0 name) _ h3 λ copied _ h4.
                let process : TaskProcess = record {
                  start_time = time;
                  pid = pid;
                  task_name = copied;
                  out_fd_r = out_fd;
                  err_fd_r = err_fd;
                } in
                bind_elim (put pushed.slots k (record { used = true; value = process })) _ h4
                  λ slots e5 h5.
                    let same : (true, record pushed { slots = slots }) ≡ r = cc h5 in
                    subst (λ (q : Bool × Store TaskProcess). Keeps s q.1) same
                      (filled-Keeps s pushed k (zeroed_process size) process p e5)
      ]

module _ (size : ℕ) (spawn : Spawn) (processes : Store TaskProcess) (completed : Bytes)
    (vp : IsValid processes) where
  BothKept : Store Task → Bool × Store TaskProcess × Store Task → Type 0
  BothKept tasks r = Keeps processes r.1 × Keeps tasks r.2

  unchanged : (tasks : Store Task) → IsValid tasks → BothKept tasks (false, processes, tasks)
  unfolding BothKept
  unchanged tasks vt = (Keeps-refl processes vp, Keeps-refl tasks vt)

  launch_queued-BothKept :
      (tasks : Store Task) (key : ℕ) (task : Task) {r : Bool × Store TaskProcess × Store Task}
      → IsValid tasks
      → launch_queued size spawn processes completed tasks key task ≡ ret r
      → BothKept tasks r
  unfolding launch_queued BothKept
  launch_queued-BothKept tasks key task {r} vt h =
      bind_elim (server_task_launch size spawn processes task) _ h λ (launched, p') e h1.
        let kp = server_task_launch-Keeps size spawn processes task vp e in
        if_elim launched _ _ h1
          (λ _ h2. bind_elim (store_remove_at tasks (pos key)) _ h2 λ (found, t') e3 h3.
            let same : (true, p', t') ≡ r = cc h3 in
            subst (BothKept tasks) same (kp, store_remove_at-Keeps tasks key vt e3))
          λ _ h2.
            let same : (false, p', tasks) ≡ r = cc h2 in
            subst (BothKept tasks) same (kp, Keeps-refl tasks vt)

  check_below-BothKept :
      (n : ℕ) (tasks : Store Task) {r : Bool × Store TaskProcess × Store Task}
      → IsValid tasks
      → check_below size spawn processes completed n tasks ≡ ret r
      → BothKept tasks r
  unfolding check_below
  check_below-BothKept zero tasks {r} vt h =
      let same : (false, processes, tasks) ≡ r = cc h in
      subst (BothKept tasks) same (unchanged tasks vt)
  check_below-BothKept (suc n) tasks vt h = bind_elim (store_get tasks (pos n)) _ h λ res _ h1.
      option_elim res _ _ h1 (λ _ h2. check_below-BothKept n tasks vt h2)
        λ (key, task) _ h2. bind_elim (is_due task completed) _ h2 λ due _ h3.
          if_elim due _ _ h3 (λ _ h4. launch_queued-BothKept tasks key task vt h4)
            (λ _ h4. check_below-BothKept n tasks vt h4)

  pub server_check_task_queue-Keeps :
      (tasks : Store Task) {r : Bool × Store TaskProcess × Store Task}
      → IsValid tasks
      → server_check_task_queue size spawn processes completed tasks ≡ ret r
      → Keeps processes r.1 × Keeps tasks r.2
  unfolding server_check_task_queue BothKept
  server_check_task_queue-Keeps tasks {r} vt h =
      if_elim (ltb processes.open_cnt 1) _ _ h
        (λ _ h1.
          let same : (false, processes, tasks) ≡ r = cc h1 in
          subst (BothKept tasks) same (unchanged tasks vt))
        (λ _ h1. check_below-BothKept tasks.capacity tasks vt h1)

pub get_task-Keeps :
    (buf_size var_max : ℕ) (workspace : Option Bytes) (s : Store Task) (name : Option Bytes)
    (envs : _) {r : KeyValue Task × Store Task}
    → IsValid s
    → get_task buf_size var_max workspace s name envs ≡ ret r
    → Keeps s r.1
get_task-Keeps buf_size var_max workspace s name envs {r} v h =
    kept r.0 (get_task-Outcome buf_size var_max workspace s name envs v h)
  where
    kept : (res : KeyValue Task) → Outcome s res r.1 → Keeps s r.1
    kept none o = record { valid = o.valid; same_capacity = o.same_capacity }
    kept (some (k, t)) (free, cmd, c) = record { valid = c.valid; same_capacity = c.same_capacity }
