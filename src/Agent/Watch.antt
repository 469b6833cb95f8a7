-- ===== src/Agent/Watch.antt =====
-- Which descriptors `select` is called with.
use dpatch.Prelude.{
  ℕ, zero, suc, ◌<◌, ◌≤◌, ◌≡◌, inl, inr, refl, subst, pos, true, [], ◌∷◌, some, get_elem?, length,
  get_elem?_in, arith, dec_lt, not_le→leb, Option-cases, lt_of_get_elem?, get_elem?_out,
}
use dpatch.Exec.{ret}
use dpatch.Stack.{Stack}
use dpatch.Stack.Laws
use dpatch.Stack.Laws.{contents, length-contents, stack_get-contents}
use dpatch.Store.{Store}
use dpatch.Store.Valid.{item_at, IsValid}
use dpatch.Store.Access.{found_at, store_get-found_at}
use dpatch.Server.{TaskProcess}
use dpatch.Agent.{Server}
use dpatch.Agent.Sockets.{
  Watched, set_sock_desc, watch_clients, watch_processes, server_check_activity, is_member,
}
use dpatch.Agent.Kept.{IsSound}

-- No descriptor in the set is above the greatest.
abbrev pub IsBounded : Watched → Type 0
IsBounded (greatest, set) = (fd : ℕ) → is_member fd set ≡ true → fd ≤ greatest

-- What is in the set stays there, and the set stays bounded.
record Extends (w w' : Watched) : Type 0 where
  bounded : IsBounded w → IsBounded w'
  member : (fd : ℕ) → is_member fd w.1 ≡ true → is_member fd w'.1 ≡ true

Extends-refl : (w : Watched) → Extends w w
Extends-refl w = record { bounded = λ h. h; member = λ fd h. h }

Extends-trans : (u v w : Watched) → Extends u v → Extends v w → Extends u w
Extends-trans u v w h k = record {
  bounded = λ b. k.bounded (h.bounded b);
  member = λ fd m. k.member fd (h.member fd m);
}

set_sock_desc-Extends : (sock : ℕ) (w : Watched) → Extends w (set_sock_desc sock w)
unfolding set_sock_desc
set_sock_desc-Extends sock (greatest, set) = record {
  bounded = λ b fd m. ground (arith, b fd, m);
  member = λ fd m. ground (arith, m);
}

set_sock_desc-member :
    (sock : ℕ) (w : Watched) → 0 < sock → is_member sock (set_sock_desc sock w).1 ≡ true
unfolding set_sock_desc
set_sock_desc-member sock (greatest, set) h = ground arith

-- A pipe or a socket that is watched if it is one.
abbrev pub IsWatched : Watched → ℕ → Type 0
IsWatched w fd = 0 < fd → is_member fd w.1 ≡ true

record ClientsWatched (n : ℕ) (clients : Stack ℕ) (w w' : Watched) : Type 0 where
  extends : Extends w w'
  watched : (i sock : ℕ) → i < n → get_elem? (contents clients) i ≡ some sock → IsWatched w' sock

watch_clients-ClientsWatched :
    (n : ℕ) (clients : Stack ℕ) (w : Watched)
    → Laws.IsValid clients
    → n ≤ clients.count
    → (w' : Watched) × (watch_clients n clients w ≡ ret w') × ClientsWatched n clients w w'
unfolding watch_clients
watch_clients-ClientsWatched zero clients w v h =
    (w, refl, record { extends = Extends-refl w; watched = λ i sock l. absurd (omega arith) })
watch_clients-ClientsWatched (suc n) clients w v h =
    let (sock, found) =
      get_elem?_in (contents clients) n (omega (arith, length-contents clients v)) in
    let next = set_sock_desc sock w in
    let (w', done, c) = watch_clients-ClientsWatched n clients next v (omega arith) in
    (
      w',
      rw (stack_get-contents clients (pos n) v, found) done,
      record {
        extends = Extends-trans w next w' (set_sock_desc-Extends sock w) c.extends;
        watched = λ i other l e p. elim (dec_lt i n) [
          | yes below ↦ c.watched i other below e p
          | no top ↦
              let here : i ≡ n = omega (arith, l, top) in
              let same : sock ≡ other = cc (here, e, found) in
              c.extends.member other (
                subst (λ k. is_member k next.1 ≡ true) same
                  (set_sock_desc-member sock w (omega (arith, p, same))))
        ];
      },
    )

record ProcessesWatched (n : ℕ) (processes : Store TaskProcess) (w w' : Watched) : Type 0 where
  extends : Extends w w'
  watched :
      (i : ℕ) (p : TaskProcess)
      → i < n
      → item_at processes i ≡ some p
      → IsWatched w' p.out_fd_r × IsWatched w' p.err_fd_r

pipes : TaskProcess → Watched → Watched
pipes p w = set_sock_desc p.err_fd_r (set_sock_desc p.out_fd_r w)

pipes-Extends : (p : TaskProcess) (w : Watched) → Extends w (pipes p w)
unfolding pipes
pipes-Extends p w =
    Extends-trans w (set_sock_desc p.out_fd_r w) _ (set_sock_desc-Extends p.out_fd_r w)
      (set_sock_desc-Extends p.err_fd_r (set_sock_desc p.out_fd_r w))

pipes-IsWatched :
    (p : TaskProcess) (w : Watched)
    → IsWatched (pipes p w) p.out_fd_r × IsWatched (pipes p w) p.err_fd_r
unfolding pipes
pipes-IsWatched p w = (
  λ h.
      (set_sock_desc-Extends p.err_fd_r (set_sock_desc p.out_fd_r w)).member p.out_fd_r
        (set_sock_desc-member p.out_fd_r w h),
  set_sock_desc-member p.err_fd_r (set_sock_desc p.out_fd_r w),
)

watch_processes-ProcessesWatched :
    (n : ℕ) (processes : Store TaskProcess) (w : Watched)
    → IsValid processes
    → n ≤ processes.capacity
    → (w' : Watched) × (watch_processes n processes w ≡ ret w') × ProcessesWatched n processes w w'
unfolding watch_processes pipes
watch_processes-ProcessesWatched zero processes w v h =
    (w, refl, record { extends = Extends-refl w; watched = λ i p l. absurd (omega arith) })
watch_processes-ProcessesWatched (suc n) processes w v h =
    let got = store_get-found_at processes n v in
    let inside = not_le→leb processes.capacity n (omega arith) in
    elim (Option-cases (item_at processes n)) [
      | inl free ↦
          let (w', done, c) = watch_processes-ProcessesWatched n processes w v (omega arith) in
          (
            w',
            rw (got, inside, found_at, free) done,
            record {
              extends = c.extends;
              watched = λ i p l e. elim (dec_lt i n) [
                | yes below ↦ c.watched i p below e
                | no top ↦ let here : i ≡ n = omega (arith, l, top) in absurd (cc (here, e, free))
              ];
            },
          )
      | inr (q, found) ↦
          let next = pipes q w in
          let (w', done, c) = watch_processes-ProcessesWatched n processes next v (omega arith) in
          (
            w',
            rw (got, inside, found_at, found) done,
            record {
              extends = Extends-trans w next w' (pipes-Extends q w) c.extends;
              watched = λ i p l e. elim (dec_lt i n) [
                | yes below ↦ c.watched i p below e
                | no top ↦
                    let here : i ≡ n = omega (arith, l, top) in
                    let same : q ≡ p = cc (here, e, found) in
                    let (out, err) = pipes-IsWatched q w in
                    subst (λ (z : TaskProcess). IsWatched w' z.out_fd_r × IsWatched w' z.err_fd_r)
                      same
                      (
                        λ p. c.extends.member q.out_fd_r (out p),
                        λ p. c.extends.member q.err_fd_r (err p),
                      )
              ];
            },
          )
    ]

-- What a set holds that the agent waits on.
pub record Watches (s : Server) (w : Watched) : Type 0 where
  pub bounded : IsBounded w
  pub listening : is_member s.socket w.1 ≡ true
  pub clients : (i sock : ℕ) → get_elem? (contents s.client_stack) i ≡ some sock → IsWatched w sock
  pub processes :
      (i : ℕ) (p : TaskProcess)
      → item_at s.process_store i ≡ some p
      → IsWatched w p.out_fd_r × IsWatched w p.err_fd_r

-- A key of the map is a slot of the store.
key_inside :
    (processes : Store TaskProcess) (i : ℕ) {p : TaskProcess}
    → IsValid processes
    → item_at processes i ≡ some p
    → i < processes.capacity
key_inside processes i v e = elim (dec_lt i (length processes.slots)) [
  | yes inside ↦ omega (arith, inside, v.slots_length)
  | no out ↦
      let gone = get_elem?_out processes.slots i (omega (arith, out)) in
      absurd (ground (arith, e, gone))
]

-- On an agent with valid tables server_check_activity returns a set of descriptors and its
-- greatest: the listening socket is in the set, every client's socket and every pipe of a running
-- process is if it is above 0, and no descriptor in the set is above the greatest.
pub server_check_activity-Watches :
    (s : Server) → IsSound s → (w : Watched) × (server_check_activity s ≡ ret w) × Watches s w
unfolding server_check_activity
server_check_activity-Watches s v =
    let first : Watched = (s.socket, s.socket ∷ []) in
    let (w1, e1, c) =
      watch_clients-ClientsWatched s.client_stack.count s.client_stack first v.clients
        (omega arith) in
    let (w2, e2, p) =
      watch_processes-ProcessesWatched s.process_store.capacity s.process_store w1 v.processes
        (omega arith) in
    (
      w2,
      rw (e1, e2) refl,
      record {
        bounded = p.extends.bounded (c.extends.bounded (λ fd m. ground (arith, m)));
        listening = p.extends.member s.socket (c.extends.member s.socket (ground arith));
        clients = λ i sock e h. p.extends.member sock (c.watched i sock (place i e) e h);
        processes = λ i q e. p.watched i q (key_inside s.process_store i v.processes e) e;
      },
    )
  where
    place :
        (i : ℕ) {sock : ℕ}
        → get_elem? (contents s.client_stack) i ≡ some sock
        → i < s.client_stack.count
    place i e = omega (
      arith,
      lt_of_get_elem? (contents s.client_stack) i e,
      length-contents s.client_stack v.clients,
    )
