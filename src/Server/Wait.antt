-- ===== src/Server/Wait.antt =====
-- `server_task_wait_match`: whether a running process has the name that a task waits for.
use dpatch.Prelude.{
  ℕ, zero, suc, ◌≤◌, ◌<◌, ◌≡◌, ◌≢◌, ◌⊎◌, inl, inr, refl, sym, ap, ap₂, ◌∙◌, ◌==◌, ==_iff, pos, true,
  false, [], ◌∷◌, Option, none, some, arith, Bool-cases, Option-cases, dec_lt, not_le→leb, length,
  get_elem?, lt_of_get_elem?,
}
use dpatch.Exec.{ret}
use dpatch.Memory.{Bytes, string_at}
use dpatch.Store.{Store, store_get}
use dpatch.Store.Valid.{item_at, IsValid}
use dpatch.Store.Access.{found_at, store_get-found_at}
use dpatch.Client.{same_text}
use dpatch.Server.{Task, TaskProcess, wait_match_below, server_task_wait_match}

-- `strcmp` is 0 for equal texts and for no others.
pub same_text_refl : (s : Bytes) → same_text s s ≡ true
same_text_refl [] = refl
same_text_refl (a ∷ s) = ground (arith, same_text_refl s)

pub same_text-eq : (s t : Bytes) → same_text s t ≡ true → s ≡ t
same_text-eq [] [] h = refl
same_text-eq [] (b ∷ t) h = absurd (cc h)
same_text-eq (a ∷ s) [] h = absurd (cc h)
same_text-eq (a ∷ s) (b ∷ t) h = elim (Bool-cases (a == b)) [
  | inr e ↦ absurd (ground (arith, e, h))
  | inl e ↦
      let same : same_text s t ≡ true = ground (arith, e, h) in
      ap₂ (λ (x : ℕ) (xs : Bytes). x ∷ xs) ((==_iff a b).0 e) (same_text-eq s t same)
]

module _ {ℓ} {A : Type ℓ} where
  -- Inside a valid store `store_get` gives what the map has.
  pub get_none :
      (s : Store A) (i : ℕ)
      → IsValid s
      → i < s.capacity
      → item_at s i ≡ none
      → store_get s (pos i) ≡ ret none
  get_none s i v h e =
      store_get-found_at s i v ∙ rw (not_le→leb s.capacity i (omega arith), found_at, e) refl

  pub get_some :
      (s : Store A) (i : ℕ) {a : A}
      → IsValid s
      → i < s.capacity
      → item_at s i ≡ some a
      → store_get s (pos i) ≡ ret (some (i, a))
  get_some s i v h e =
      store_get-found_at s i v ∙ rw (not_le→leb s.capacity i (omega arith), found_at, e) refl

  -- A key of the map is a slot.
  pub item_at-lt : (s : Store A) (i : ℕ) (a : A) → item_at s i ≡ some a → i < length s.slots
  item_at-lt s i a e = elim (Option-cases (get_elem? s.slots i)) [
    | inl none_here ↦ absurd (ground (arith, none_here, e))
    | inr (slot, here) ↦ lt_of_get_elem? s.slots i here
  ]

-- Each process has a terminated name.
abbrev pub AllNamed : Store TaskProcess → Type 0
AllNamed processes =
    (j : ℕ) (p : TaskProcess)
    → item_at processes j ≡ some p
    → (name : Bytes) × (string_at p.task_name 0 ≡ ret name)

module _ (processes : Store TaskProcess) (v : IsValid processes) (named : AllNamed processes)
    (buf : Bytes) (at : ℕ) (wait : Bytes) (read : string_at buf at ≡ ret wait) where
  -- A process in a slot below `n` has the name.
  abbrev pub RunsBelow : ℕ → Type 0
  RunsBelow n =
      (j : ℕ) × (p : TaskProcess) × (j < n)
      × (item_at processes j ≡ some p)
      × (string_at p.task_name 0 ≡ ret wait)

  -- No process in a slot below `n` has it.
  abbrev pub NoneBelow : ℕ → Type 0
  NoneBelow n =
      (j : ℕ) (p : TaskProcess)
      → j < n
      → item_at processes j ≡ some p
      → string_at p.task_name 0 ≢ ret wait

  none_step :
      (n : ℕ)
      → ((p : TaskProcess) → item_at processes n ≡ some p → string_at p.task_name 0 ≢ ret wait)
      → NoneBelow n
      → NoneBelow (suc n)
  none_step n here below j p h e = elim (dec_lt j n) [
    | yes lt ↦ below j p lt e
    | no ge ↦ let j' : j ≡ n = omega arith in here p (sym (ap (item_at processes) j') ∙ e)
  ]

  other_name :
      (p : TaskProcess) (name : Bytes) (o : Option TaskProcess)
      → o ≡ some p
      → string_at p.task_name 0 ≡ ret name
      → same_text name wait ≡ false
      → (p' : TaskProcess) → o ≡ some p'
      → string_at p'.task_name 0 ≢ ret wait
  other_name p name o e text other p' e' t =
      let same_p : p ≡ p' = cc (e, e') in
      let names : ret name ≡ ret wait =
        sym text ∙ ap (λ (q : TaskProcess). string_at q.task_name 0) same_p ∙ t in
      let same : name ≡ wait = cc names in
      cc (other, ap (λ n. same_text n wait) same, same_text_refl wait)

  abbrev Answer : ℕ → Type 0
  Answer n =
      ((wait_match_below n processes buf at ≡ ret true) × RunsBelow n)
      ⊎ ((wait_match_below n processes buf at ≡ ret false) × NoneBelow n)

  lift : (n : ℕ) → RunsBelow n → RunsBelow (suc n)
  lift n (j, p, h, e, t) = (j, p, omega arith, e, t)

  wait_match_below-Answer : (n : ℕ) → n ≤ processes.capacity → Answer n
  unfolding wait_match_below
  wait_match_below-Answer zero h = inr (refl, λ j p lt. absurd (omega arith))
  wait_match_below-Answer (suc n) h =
      let below = wait_match_below-Answer n (omega arith) in
      elim (Option-cases (item_at processes n)) [
        | inl e ↦
            let got = get_none processes n v (omega arith) e in
            elim below [
              | inl (b, runs) ↦ inl (rw got b, lift n runs)
              | inr (b, no_run) ↦ inr (rw got b, none_step n (λ p e'. absurd (cc (e, e'))) no_run)
            ]
        | inr (p, e) ↦
            let got = get_some processes n v (omega arith) e in
            let (name, text) = named n p e in
            elim (Bool-cases (same_text name wait)) [
              | inl same ↦
                  let eq = same_text-eq name wait same in
                  inl (
                    rw (got, text, read, same) refl,
                    (n, p, omega arith, e, text ∙ ap (λ x. ret x) eq),
                  )
              | inr other ↦ elim below [
                | inl (b, runs) ↦ inl (rw (got, text, read, other) b, lift n runs)
                | inr (b, no_run) ↦ inr (
                  rw (got, text, read, other) b,
                  none_step n (other_name p name (item_at processes n) e text other) no_run,
                )
              ]
            ]
      ]

-- On a valid store of processes with terminated names, server_task_wait_match on a task that waits
-- for a name returns 1 exactly if a running process has that name.
pub server_task_wait_match-cases :
    (processes : Store TaskProcess) (task : Task) (at : ℕ) (wait : Bytes)
    → IsValid processes
    → AllNamed processes
    → task.wait ≡ some at
    → string_at task.buf at ≡ ret wait
    → ((server_task_wait_match processes task ≡ ret true)
        × (j : ℕ) × (p : TaskProcess) × (item_at processes j ≡ some p)
        × (string_at p.task_name 0 ≡ ret wait))
      ⊎ ((server_task_wait_match processes task ≡ ret false)
          × ((j : ℕ) (p : TaskProcess)
              → item_at processes j ≡ some p
              → string_at p.task_name 0 ≢ ret wait))
unfolding server_task_wait_match
server_task_wait_match-cases processes task at wait v named waits read =
    elim (wait_match_below-Answer processes v named task.buf at wait read processes.capacity
      (omega arith)) [
        | inl (b, (j, p, h, e, t)) ↦ inl (rw waits b, j, p, e, t)
        | inr (b, no_run) ↦ inr (
          rw waits b,
          λ j p e. no_run j p (omega (arith, item_at-lt processes j p e, v.slots_length)) e,
        )
      ]
