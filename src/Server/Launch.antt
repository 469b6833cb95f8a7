-- ===== src/Server/Launch.antt =====
-- `server_task_launch`: the process that stands in the store afterwards.
use dpatch.Prelude.{
  ℕ, suc, ◌+◌, ◌-◌, ◌≤◌, ◌<◌, ◌≡◌, inl, inr, refl, sym, ap, ◌∙◌, true, [], ◌∷◌, ◌++◌, none, some,
  arith, not_lt→ltb, length, Option-cases, Bool-cases, lt_of_get_elem?, replicate, overlay, drop,
  drop-replicate, length-replicate, append_assoc, length-append, get_elem?,
}
use dpatch.Exec.{ret, put-ret}
use dpatch.Memory.{Bytes, string_at}
use dpatch.Memory.Place.{IsText, put-append, string_at-append}
use dpatch.Store.{Slot, Store}
use dpatch.Store.Valid.{item_at, IsValid}
use dpatch.Store.Access.{Changed, replaced, replaced-Changed}
use dpatch.Store.Push.{Pushed, store_push_room, store_push_empty_lem}
use dpatch.Server.{Task, TaskProcess, spawned, copy_text, zeroed_process, server_task_launch}

pub copy_text-overlay :
    (pre v xs : Bytes) (at : ℕ)
    → at ≡ length pre
    → length v ≤ length xs
    → copy_text (pre ++ xs) at v ≡ ret (pre ++ overlay v xs)
unfolding copy_text
copy_text-overlay pre [] xs at e h = refl
copy_text-overlay pre (b ∷ v) [] at e h = absurd (omega arith)
copy_text-overlay pre (b ∷ v) (x ∷ xs) at e h =
    rw (put-append pre (x ∷ xs) at 0 b (omega arith) (omega arith)) (
      rw (sym (append_assoc pre (b ∷ []) xs)) (
        copy_text-overlay (pre ++ b ∷ []) v xs (at + 1) (omega (arith, length-append pre (b ∷ [])))
          (omega arith)
        ∙ ap (λ l. ret l) (append_assoc pre (b ∷ []) (overlay v xs))))

-- A text copied into zeroed memory that is longer reads back as a C string.
copy_text-string_at :
    (name : Bytes) (size : ℕ)
    → IsText name
    → length name < size
    → (copied : Bytes) × (copy_text (replicate size 0) 0 name ≡ ret copied)
      × (string_at copied 0 ≡ ret name)
copy_text-string_at name size text h =
    let k = size - length name - 1 in
    let tail : drop {A = ℕ} (length name) (replicate size 0) ≡ 0 ∷ replicate k 0 =
      (let e : size - length name ≡ suc k = omega arith in
        drop-replicate (length name) size 0 ∙ ap (λ n. replicate n 0) e) in
    (
      name ++ 0 ∷ replicate k 0,
      copy_text-overlay [] name (replicate size 0) 0 refl
            (omega (arith, length-replicate {A = ℕ} size 0))
          ∙ ap (λ t. ret (name ++ t)) tail,
      string_at-append [] name (replicate k 0) 0 refl text,
    )

module _ {ℓ} {A : Type ℓ} where
  used_slot :
      (s : Store A) (i : ℕ) (a : A)
      → item_at s i ≡ some a
      → (slot : Slot A) × (get_elem? s.slots i ≡ some slot) × (slot.used ≡ true)
  used_slot s i a e = elim (Option-cases (get_elem? s.slots i)) [
    | inl gone ↦ absurd (ground (arith, gone, e))
    | inr (slot, here) ↦ elim (Bool-cases slot.used) [
      | inl u ↦ (slot, here, u)
      | inr u ↦ absurd (ground (arith, here, u, e))
    ]
  ]

  -- A push and then a write to the pushed item change one key.
  pub Pushed-Changed :
      (s s' : Store A) (k : ℕ) (zeroed item : A)
      → Pushed s zeroed k s'
      → (k < length s'.slots) × Changed s k (some item) (replaced s' k item)
  Pushed-Changed s s' k zeroed item p =
      let here : item_at s' k ≡ some zeroed = ground (arith, p.view k) in
      let (slot, found, used) = used_slot s' k zeroed here in
      let now = replaced-Changed s' k item {slot = slot} p.valid found used in
      (
        lt_of_get_elem? s'.slots k found,
        record {
          valid = now.valid;
          same_capacity = now.same_capacity ∙ p.same_capacity;
          view = λ j. ground (arith, now.view j, p.view j);
        },
      )

-- The process that is started for a task.
pub record Started (time pid out_fd err_fd : ℕ) (name : Bytes) (p : TaskProcess) : Type 0 where
  pub at_time : p.start_time ≡ time
  pub has_pid : p.pid ≡ pid
  pub out_end : p.out_fd_r ≡ out_fd
  pub err_end : p.err_fd_r ≡ err_fd
  pub named : string_at p.task_name 0 ≡ ret name

-- On a valid store with an open slot, and a task whose name is shorter than the memory for it,
-- server_task_launch returns 0 if the system starts the child: a key that was free holds a process
-- with the time, the pid, the pipes and the name of the task, every other key is as it was, and
-- the store is valid.
pub server_task_launch-Started :
    (size time pid out_fd err_fd : ℕ) (processes : Store TaskProcess) (task : Task) (name : Bytes)
    → IsValid processes
    → 0 < processes.open_cnt
    → string_at task.buf task.name ≡ ret name
    → IsText name
    → length name < size
    → (k : ℕ) × (p : TaskProcess) × (processes' : Store TaskProcess) × (server_task_launch size
          (spawned time pid out_fd err_fd)
          processes
          task
        ≡ ret (true, processes'))
      × (item_at processes k ≡ none)
      × Started time pid out_fd err_fd name p
      × Changed processes k (some p) processes'
unfolding server_task_launch
server_task_launch-Started size time pid out_fd err_fd processes task name v room read text fits =
    let (k, pushed, push, p) = store_push_room processes (zeroed_process size) v room in
    let (copied, copy, named) = copy_text-string_at name size text fits in
    let process : TaskProcess = record {
      start_time = time;
      pid = pid;
      task_name = copied;
      out_fd_r = out_fd;
      err_fd_r = err_fd;
    } in
    let (inside, changed) = Pushed-Changed processes pushed k (zeroed_process size) process p in
    let pushed_empty = store_push_empty_lem (zeroed_process size) processes ∙ push in
    let write = put-ret pushed.slots k (record { used = true; value = process }) inside in
    (
      k,
      process,
      replaced pushed k process,
      unfold replaced in
          rw (not_lt→ltb processes.open_cnt 1 (omega arith), pushed_empty, read, copy, write) refl,
      p.was_free,
      record { at_time = refl; has_pid = refl; out_end = refl; err_end = refl; named = named },
      changed,
    )
