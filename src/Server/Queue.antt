-- ===== src/Server/Queue.antt =====
-- `server_check_task_queue`: which queued task is launched when another has finished.
use dpatch.Prelude.{
  ℕ, zero, suc, ◌≤◌, ◌<◌, ◌≡◌, ◌⊎◌, inl, inr, refl, sym, ap, ◌∙◌, Bool, true, false, none, some,
  arith, Bool-cases, Option-cases, dec_lt, not_lt→ltb, ltb,
}
use dpatch.Exec.{ret}
use dpatch.Memory.{Bytes}
use dpatch.Store.{Store}
use dpatch.Store.Valid.{item_at, IsValid}
use dpatch.Store.Access.{Changed}
use dpatch.Store.Remove.{store_remove_at-cases}
use dpatch.Server.{
  Task, TaskProcess, Spawn, server_task_launch, is_due, launch_queued, check_below,
  server_check_task_queue,
}
use dpatch.Server.Wait.{get_none, get_some}

module _ (size : ℕ) (spawn : Spawn) (processes : Store TaskProcess) (completed : Bytes)
    (tasks : Store Task) (v : IsValid tasks) where
  -- Of the tasks in slots below `n`, the one in slot `k` is due, and none above it is.
  pub record Due (n k : ℕ) (task : Task) : Type 0 where
    pub below : k < n
    pub queued : item_at tasks k ≡ some task
    pub due : is_due task completed ≡ ret true
    pub highest :
        (j : ℕ) (t : Task)
        → k < j
        → j < n
        → item_at tasks j ≡ some t
        → is_due t completed ≡ ret false

  abbrev pub NoneDue : ℕ → Type 0
  NoneDue n = (j : ℕ) (t : Task) → j < n → item_at tasks j ≡ some t → is_due t completed ≡ ret false

  -- What a task waits for can be read.
  abbrev pub AllReadable : Type 0
  AllReadable =
      (j : ℕ) (t : Task) → item_at tasks j ≡ some t → (b : Bool) × (is_due t completed ≡ ret b)

  abbrev Answer : ℕ → Type 0
  Answer n =
      ((check_below size spawn processes completed n tasks ≡ ret (false, processes, tasks))
        × NoneDue n)
      ⊎ ((k : ℕ) × (task : Task) × Due n k task
          × (check_below size spawn processes completed n tasks
              ≡ launch_queued size spawn processes completed tasks k task))

  -- A slot on top that is empty, or whose task is not due.
  skip :
      (n : ℕ)
      → ((t : Task) → item_at tasks n ≡ some t → is_due t completed ≡ ret false)
      → check_below size spawn processes completed (suc n) tasks
        ≡ check_below size spawn processes completed n tasks
      → Answer n
      → Answer (suc n)
  skip n here step (inl (e, no_due)) = inl (
    step ∙ e,
    λ j t h q. elim (dec_lt j n) [
      | yes lt ↦ no_due j t lt q
      | no ge ↦ let j' : j ≡ n = omega arith in here t (sym (ap (item_at tasks) j') ∙ q)
    ],
  )
  skip n here step (inr (k, task, d, e)) = inr (
    k,
    task,
    record {
      below = omega (arith, d.below);
      queued = d.queued;
      due = d.due;
      highest = λ j t a h q. elim (dec_lt j n) [
        | yes lt ↦ d.highest j t a lt q
        | no ge ↦ let j' : j ≡ n = omega arith in here t (sym (ap (item_at tasks) j') ∙ q)
      ];
    },
    step ∙ e,
  )

  check_below-Answer : (n : ℕ) → n ≤ tasks.capacity → AllReadable → Answer n
  unfolding check_below
  check_below-Answer zero h readable = inl (refl, λ j t lt q. absurd (omega arith))
  check_below-Answer (suc n) h readable =
      let below = check_below-Answer n (omega arith) readable in
      elim (Option-cases (item_at tasks n)) [
        | inl e ↦
            skip n (λ t q. absurd (cc (e, q))) (rw (get_none tasks n v (omega arith) e) refl) below
        | inr (task, e) ↦
            let got = get_some tasks n v (omega arith) e in
            let (b, read) = readable n task e in
            elim (Bool-cases b) [
              | inl due ↦ inr (
                n,
                task,
                record {
                  below = omega arith;
                  queued = e;
                  due = read ∙ ap (λ x. ret x) due;
                  highest = λ j t a l q. absurd (omega arith);
                },
                rw (got, read, due) refl,
              )
              | inr not_due ↦
                  skip n
                    (λ t q.
                      (let same : task ≡ t = cc (e, q) in
                        sym (ap (λ x. is_due x completed) same) ∙ read ∙ ap (λ x. ret x) not_due))
                    (rw (got, read, not_due) refl) below
            ]
      ]

  -- On a valid queue whose tasks can be read, and with room for a process, server_check_task_queue
  -- returns -1 and changes nothing if no task is due; otherwise it launches the due task in the
  -- highest slot: if the launch succeeds, it returns 0 and exactly that task has left the queue,
  -- and if it fails, it returns -1 and the queue is as before.
  pub server_check_task_queue-cases :
      AllReadable
      → 0 < processes.open_cnt
      → ((server_check_task_queue size spawn processes completed tasks
            ≡ ret (false, processes, tasks))
          × NoneDue tasks.capacity)
        ⊎ ((k : ℕ) × (task : Task) × Due tasks.capacity k task
            × ((processes' : Store TaskProcess)
                → server_task_launch size spawn processes task ≡ ret (true, processes')
                → (tasks' : Store Task) × (server_check_task_queue size spawn processes completed
                      tasks
                    ≡ ret (true, processes', tasks'))
                  × Changed tasks k none tasks')
            × ((processes' : Store TaskProcess)
                → server_task_launch size spawn processes task ≡ ret (false, processes')
                → server_check_task_queue size spawn processes completed tasks
                  ≡ ret (false, processes', tasks)))
  unfolding server_check_task_queue launch_queued
  server_check_task_queue-cases readable room =
      let opened : ltb processes.open_cnt 1 ≡ false =
        not_lt→ltb processes.open_cnt 1 (omega arith) in
      elim (check_below-Answer tasks.capacity (omega arith) readable) [
        | inl (e, no_due) ↦ inl (rw (opened, e) refl, no_due)
        | inr (k, task, d, e) ↦ inr (
          k,
          task,
          d,
          (λ p' l. elim (store_remove_at-cases tasks k v) [
            | inl (gone, f) ↦ absurd (cc (gone, d.queued))
            | inr (old, tasks', q, f, changed) ↦ (tasks', rw (opened, e, l, f) refl, changed)
          ]),
          (λ p' l. rw (opened, e, l) refl),
        )
      ]
