-- ===== src/Agent/Incoming.antt =====
-- New connections, and the end of all of them.
use dpatch.Prelude.{
  ℕ, zero, suc, ◌<◌, ◌≤◌, ◌≡◌, ◌∙◌, ◌⊎◌, refl, sym, ap, inl, inr, ℤ, pos, negsuc, true, false, List,
  [], ◌∷◌, ◌++◌, length, append_assoc, append-nil, length-append, take, arith, le→leb, not_le→leb,
  Bool-cases, dec_lt,
}
use dpatch.Exec.{ret}
use dpatch.Stack.Laws.{IsValid, contents, length-contents, stack_push-contents, stack_pop-contents}
use dpatch.Config.{Settings}
use dpatch.Net.Transfer.{ℤ-cases}
use dpatch.Agent.{Server, System, Effect, closed}
use dpatch.Agent.Sockets.{
  Watched, is_set, add_client, server_handle_incoming, cleanup_clients, server_cleanup,
}

-- What a new connection on `sock` comes to: it joins the clients, it is closed for want of room, or
-- it is dropped because its options cannot be set.
pub data Handled (sys : System) (settings : Settings) (s : Server) (sock : ℕ)
    : ℤ × Server → Type 0 where
  joined :
      (s' : Server)
      → s.client_stack.count < settings.max_clients
      → contents s'.client_stack ≡ contents s.client_stack ++ sock ∷ []
      → IsValid s'.client_stack
      → s'.effects ≡ s.effects
      → Handled sys settings s sock (pos 1, s')
  full :
      settings.max_clients ≤ s.client_stack.count
      → Handled sys settings s sock (pos 0, record s { effects = s.effects ++ closed sock ∷ [] })
  dropped :
      ((sys.nonblock_set ≡ false) ⊎ (sys.timeouts_set ≡ false))
      → Handled sys settings s sock (negsuc 0, s)

-- What `accept` gives is no socket: it is 0 or below.
abbrev pub NoSocket : ℤ → Type 0
NoSocket a = (a ≡ pos 0) ⊎ ((n : ℕ) × (a ≡ negsuc n))

module _ (sys : System) (settings : Settings) (s : Server) (v : IsValid s.client_stack)
    (size : s.client_stack.capacity ≡ settings.max_clients) where
  add_client-Handled :
      (sock : ℕ)
      → (r : ℤ × Server) × (add_client sys settings s sock ≡ ret r) × Handled sys settings s sock r
  unfolding add_client
  add_client-Handled sock = elim (dec_lt s.client_stack.count settings.max_clients) [
    | no out ↦ (
      (pos 0, record s { effects = s.effects ++ closed sock ∷ [] }),
      rw (le→leb settings.max_clients s.client_stack.count (omega arith)) refl,
      full (omega arith),
    )
    | yes room ↦
        let below = not_le→leb settings.max_clients s.client_stack.count (omega arith) in
        elim (Bool-cases sys.nonblock_set) [
          | inr e ↦ ((negsuc 0, s), rw (below, e) refl, dropped (inl e))
          | inl e ↦ elim (Bool-cases sys.timeouts_set) [
            | inr e' ↦ ((negsuc 0, s), rw (below, e, e') refl, dropped (inr e'))
            | inl e' ↦ elim (stack_push-contents s.client_stack sock v) [
              | inl (no_room, _) ↦ absurd (omega (arith, no_room, room, size))
              | inr (clients, done, holds, _, valid) ↦ (
                (pos 1, record s { client_stack = clients }),
                rw (below, e, e', done) refl,
                joined (record s { client_stack = clients }) room holds valid refl,
              )
            ]
          ]
        ]
  ]

  handled_by :
      (watched : Watched) (n : ℕ) (r : ℤ × Server)
      → is_set sys watched s.socket ≡ true
      → sys.accepted ≡ pos (suc n)
      → add_client sys settings s (suc n) ≡ ret r
      → server_handle_incoming sys settings watched s ≡ ret r
  unfolding server_handle_incoming
  handled_by watched n r e a done = rw (e, a) done

  -- On a valid stack of clients of the capacity that the settings name, server_handle_incoming
  -- returns 0 and changes nothing if the listening socket is not ready, returns -1 and changes
  -- nothing if accept gives no socket, and handles a socket else: below the limit of clients, and
  -- if its options can be set, it returns 1 and the socket is the last of the clients; from the
  -- limit on it closes the socket and returns 0; if an option cannot be set, it returns -1 and
  -- changes nothing.
  pub server_handle_incoming-Handled :
      (watched : Watched)
      → ((is_set sys watched s.socket ≡ false)
          × (server_handle_incoming sys settings watched s ≡ ret (pos 0, s)))
        ⊎ ((is_set sys watched s.socket ≡ true)
            × NoSocket sys.accepted
            × (server_handle_incoming sys settings watched s ≡ ret (negsuc 0, s)))
        ⊎ ((sock : ℕ) × (r : ℤ × Server) × (is_set sys watched s.socket ≡ true)
            × (sys.accepted ≡ pos (suc sock))
            × (server_handle_incoming sys settings watched s ≡ ret r)
            × Handled sys settings s (suc sock) r)
  unfolding server_handle_incoming
  server_handle_incoming-Handled watched = elim (Bool-cases (is_set sys watched s.socket)) [
    | inr e ↦ inl (e, rw e refl)
    | inl e ↦ inr (elim (ℤ-cases sys.accepted) [
      | inl a ↦ inl (e, inl a, rw (e, a) refl)
      | inr (inr (n, a)) ↦ inl (e, inr (n, a), rw (e, a) refl)
      | inr (inl (n, a)) ↦
          let (r, done, handled) = add_client-Handled (suc n) in
          inr (n, r, e, a, handled_by watched n r e a done, handled)
    ])
  ]

-- The clients, last one first.
abbrev pub last_first : List ℕ → List Effect
last_first [] = []
last_first (sock ∷ rest) = last_first rest ++ closed sock ∷ []

last_first-append :
    (xs : List ℕ) (sock : ℕ) → last_first (xs ++ sock ∷ []) ≡ closed sock ∷ last_first xs
last_first-append [] sock = refl
last_first-append (x ∷ xs) sock = ap (λ l. l ++ closed x ∷ []) (last_first-append xs sock)

cleanup_clients-closed :
    (n : ℕ) (s : Server)
    → IsValid s.client_stack
    → s.client_stack.count ≡ n
    → (s' : Server) × (cleanup_clients n s ≡ ret s')
      × (s'.effects ≡ s.effects ++ last_first (contents s.client_stack))
      × (contents s'.client_stack ≡ [])
      × IsValid s'.client_stack
unfolding cleanup_clients
cleanup_clients-closed zero s v e =
    let empty : contents s.client_stack ≡ [] = ap (λ n. take n s.client_stack.items) e in
    (s, refl, rw empty (sym (append-nil s.effects)), empty, v)
cleanup_clients-closed (suc n) s v e = elim (stack_pop-contents s.client_stack v) [
  | inl (empty, _) ↦ absurd (omega (arith, length-contents s.client_stack v, ap length empty, e))
  | inr (sock, clients, popped, holds, _, valid) ↦
      let s0 : Server = record s {
        client_stack = clients;
        effects = s.effects ++ closed sock ∷ [];
      } in
      let count : clients.count ≡ n = omega (
        arith,
        length-contents s.client_stack v,
        length-contents clients valid,
        ap length holds,
        length-append (contents clients) (sock ∷ []),
        e,
      ) in
      let (s', done, history, empty, valid') = cleanup_clients-closed n s0 valid count in
      (
        s',
        rw popped done,
        history
            ∙ append_assoc s.effects (closed sock ∷ []) (last_first (contents clients))
            ∙ ap (◌++◌ s.effects)
                (sym (ap last_first holds ∙ last_first-append (contents clients) sock)),
        empty,
        valid',
      )
]

-- On a valid stack of clients server_cleanup returns, has closed every client's socket once, the
-- last one first, and leaves a valid stack with no items.
pub server_cleanup-closed :
    (s : Server)
    → IsValid s.client_stack
    → (s' : Server) × (server_cleanup s ≡ ret s')
      × (s'.effects ≡ s.effects ++ last_first (contents s.client_stack))
      × (contents s'.client_stack ≡ [])
      × IsValid s'.client_stack
unfolding server_cleanup
server_cleanup-closed s v = cleanup_clients-closed s.client_stack.count s v refl
