-- ===== src/Agent/Serve.antt =====
-- The invariant of the agent through new connections, what clients send and what processes print.
use dpatch.Prelude.{
  ℕ, zero, suc, ◌≡◌, ◌==◌, ◌∙◌, refl, sym, ap, subst, ℤ, pos, negsuc, Bool, not, List, [], ◌∷◌,
  ◌++◌, leb, length,
}
use dpatch.Exec.{ret, put, ◌>>=◌, bind_elim, if_elim, option_elim}
use dpatch.Memory.{Bytes, string_at, wipe}
use dpatch.Memory.Sizes.{SameSize, put-SameSize, wipe-SameSize}
use dpatch.Stack.{Stack, stack_get, stack_push, stack_remove_at_fast}
use dpatch.Stack.Keep.{stack_remove_at_fast-Keeps, stack_push-Keeps}
use dpatch.Config.{Settings}
use dpatch.Net.Connect.{Received, failed, bytes}
use dpatch.Server.{TaskProcess, copy_text}
use dpatch.Agent.{Server, System, ClientPacket, Effect, closed, logged, note, read_failed}
use dpatch.Agent.Packet.{server_eval_packet}
use dpatch.Agent.Sockets.{Watched, is_set, connection_init_set, add_client, server_handle_incoming}
use dpatch.Agent.Loops.{take_received, serve_client, serve_clients, print_pipe}
use dpatch.Agent.Kept.{
  IsSound, Kept, Kept-refl, Kept-trans, with_clients, with_buffers, with_effects, with_log,
}
use dpatch.Agent.Evaluate.{server_eval_packet-Kept}
use dpatch.Agent.Replies.{returned}

pub became : (s t u : Server) → Kept s t → ret t ≡ ret u → Kept s u
became s t u k h = let same : t ≡ u = cc h in subst (Kept s) same k

copy_text-SameSize :
    (buf : Bytes) (at : ℕ) (text : Bytes) {buf' : Bytes}
    → copy_text buf at text ≡ ret buf'
    → SameSize buf buf'
unfolding copy_text
copy_text-SameSize buf at [] {buf'} h = let same : buf ≡ buf' = cc h in ap length (sym same)
copy_text-SameSize buf at (b ∷ text) h =
    bind_elim (put buf at b) _ h
      λ next e h1. copy_text-SameSize next _ text h1 ∙ put-SameSize buf at b e

-- The input buffer is overwritten.
pub with_input :
    (s : Server)
    → IsSound s
    → (in_buf : Bytes) → SameSize s.in_buf in_buf
    → Kept s (record s { in_buf = in_buf })
with_input s v in_buf e = with_buffers s v in_buf s.out_buf s.workspace e refl refl

-- A client leaves, and something is done to the outside.
left_stack :
    (s : Server) (i : ℕ) {removed : Bool} {clients : Stack ℕ} (effects : List Effect)
    → IsSound s
    → stack_remove_at_fast 0 s.client_stack (pos i) ≡ ret (removed, clients)
    → Kept s (record s { client_stack = clients; effects = s.effects ++ effects })
left_stack s i {removed} {clients} effects v e =
    let k = with_clients s v clients (stack_remove_at_fast-Keeps 0 s.client_stack i v.clients e) in
    Kept-trans s (record s { client_stack = clients }) _ k
      (with_effects (record s { client_stack = clients }) k.sound effects)

pub connection_init_set-Kept :
    (buffer_size : ℕ) (s : Server) {s' : Server}
    → IsSound s
    → connection_init_set buffer_size s ≡ ret s'
    → Kept s s'
unfolding connection_init_set
connection_init_set-Kept buffer_size s {s'} v h =
    bind_elim (wipe 0 buffer_size s.in_buf) _ h λ in_buf e1 h1.
      bind_elim (wipe 0 buffer_size s.out_buf) _ h1 λ out_buf e2 h2.
        became s _ s'
          (with_buffers s v in_buf out_buf s.workspace (wipe-SameSize 0 buffer_size s.in_buf e1)
            (wipe-SameSize 0 buffer_size s.out_buf e2) refl)
          h2

module _ (sys : System) (settings : Settings) where
  add_client-Kept :
      (s : Server) (sock : ℕ) {r : ℤ × Server}
      → IsSound s
      → add_client sys settings s sock ≡ ret r
      → Kept s r.1
  unfolding add_client
  add_client-Kept s sock v h =
      if_elim (leb settings.max_clients s.client_stack.count) _ _ h
        (λ _ h1. returned s _ (pos 0) (with_effects s v (closed sock ∷ [])) h1)
        λ _ h1.
          if_elim (not sys.nonblock_set) _ _ h1 (λ _ h2. returned s s (negsuc 0) (Kept-refl s v) h2)
            λ _ h2.
              if_elim (not sys.timeouts_set) _ _ h2
                (λ _ h3. returned s s (negsuc 0) (Kept-refl s v) h3)
                λ _ h3. bind_elim (stack_push s.client_stack sock) _ h3 λ (index, clients) e h4.
                  returned s _ (pos 1)
                    (with_clients s v clients (stack_push-Keeps s.client_stack sock v.clients e)) h4

  pub server_handle_incoming-Kept :
      (watched : Watched) (s : Server) {r : ℤ × Server}
      → IsSound s
      → server_handle_incoming sys settings watched s ≡ ret r
      → Kept s r.1
  unfolding server_handle_incoming
  server_handle_incoming-Kept watched s {r} v h =
      if_elim (not (is_set sys watched s.socket)) _ _ h
        (λ _ h1. returned s s (pos 0) (Kept-refl s v) h1) λ _ h1. accepted sys.accepted h1
    where
      accepted :
          (a : ℤ)
          → elim a [
            | negsuc n ↦ ret (negsuc 0, s)
            | pos zero ↦ ret (negsuc 0, s)
            | pos (suc n) ↦ add_client sys settings s (suc n)
          ]
            ≡ ret r
          → Kept s r.1
      accepted (negsuc n) e = returned s s (negsuc 0) (Kept-refl s v) e
      accepted (pos zero) e = returned s s (negsuc 0) (Kept-refl s v) e
      accepted (pos (suc n)) e = add_client-Kept s (suc n) v e

module _ (sys : System) (settings : Settings) (watched : Watched) where
  take_received-Kept :
      (s : Server) (i sock : ℕ) (received : Received) {s' : Server}
      → IsSound s
      → take_received sys settings watched s i sock received ≡ ret s'
      → Kept s s'
  unfolding take_received
  take_received-Kept s i sock failed {s'} v h =
      became s (note (read_failed sock) s) s' (with_log s v (s.log ++ read_failed sock ∷ [])) h
  take_received-Kept s i sock (bytes []) {s'} v h =
      bind_elim (stack_remove_at_fast 0 s.client_stack (pos i)) _ h
        λ (removed, clients) e h1. became s _ s' (left_stack s i (closed sock ∷ []) v e) h1
  take_received-Kept s i sock (bytes (b ∷ bs)) {s'} v h =
      bind_elim (copy_text s.in_buf 0 (b ∷ bs)) _ h λ in_buf e h1.
        let s0 : Server = record s { in_buf = in_buf } in
        let packet : ClientPacket = record { socket = sock; client = i; len = length (b ∷ bs) } in
        let k0 : Kept s s0 = with_input s v in_buf (copy_text-SameSize s.in_buf 0 (b ∷ bs) e) in
        bind_elim (server_eval_packet sys settings packet s0) _ h1 λ (status, s1) e2 h2.
          became s s1 s'
            (Kept-trans s s0 s1 k0 (server_eval_packet-Kept sys settings packet s0 k0.sound e2)) h2

  serve_client-Kept :
      (s : Server) (i : ℕ) {s' : Server}
      → IsSound s
      → serve_client sys settings watched s i ≡ ret s'
      → Kept s s'
  unfolding serve_client
  serve_client-Kept s i {s'} v h = bind_elim (stack_get s.client_stack (pos i)) _ h λ got _ h1.
      option_elim got _ _ h1 (λ _ h2. absurd (cc h2))
        λ sock _ h2.
          if_elim (sock == 0) _ _ h2
            (λ _ h3.
              bind_elim (stack_remove_at_fast 0 s.client_stack (pos i)) _ h3
                λ (removed, clients) e h4.
                  became s _ s'
                    (with_clients s v clients
                      (stack_remove_at_fast-Keeps 0 s.client_stack i v.clients e))
                    h4)
            λ _ h3.
              if_elim (is_set sys watched sock) _ _ h3
                (λ _ h4. take_received-Kept s i sock (sys.receive sock) v h4)
                (λ _ h4. became s s s' (Kept-refl s v) h4)

  pub serve_clients-Kept :
      (n : ℕ) (s : Server) {s' : Server}
      → IsSound s
      → serve_clients sys settings watched n s ≡ ret s'
      → Kept s s'
  unfolding serve_clients
  serve_clients-Kept zero s {s'} v h = became s s s' (Kept-refl s v) h
  serve_clients-Kept (suc i) s {s'} v h =
      bind_elim (serve_client sys settings watched s i) _ h λ s1 e h1.
        let k = serve_client-Kept s i v e in
        Kept-trans s s1 s' k (serve_clients-Kept i s1 k.sound h1)

  pub print_pipe-Kept :
      (s : Server) (process : TaskProcess) (fd : ℕ) {r : ℕ × Server}
      → IsSound s
      → print_pipe sys settings watched s process fd ≡ ret r
      → Kept s r.1
  unfolding print_pipe
  print_pipe-Kept s process fd {r} v h =
      if_elim (not (is_set sys watched fd)) _ _ h (λ _ h1. returned s s 0 (Kept-refl s v) h1)
        λ _ h1. received (sys.receive fd) h1
    where
      received :
          (got : Received)
          → elim got [
            | failed ↦ ret (0, s)
            | bytes [] ↦ ret (0, s)
            | bytes (b ∷ bs) ↦ (do
              in_buf ← copy_text s.in_buf 0 (b ∷ bs)
              text ← string_at in_buf 0
              name ← string_at process.task_name 0
              ret (
                length (b ∷ bs),
                record s { in_buf = in_buf; effects = s.effects ++ logged name text ∷ [] },
              ))
          ]
            ≡ ret r
          → Kept s r.1
      received failed e = returned s s 0 (Kept-refl s v) e
      received (bytes []) e = returned s s 0 (Kept-refl s v) e
      received (bytes (b ∷ bs)) e = bind_elim (copy_text s.in_buf 0 (b ∷ bs)) _ e λ in_buf e1 h1.
          bind_elim (string_at in_buf 0) _ h1 λ text _ h2.
            bind_elim (string_at process.task_name 0) _ h2 λ name _ h3.
              let k = with_input s v in_buf (copy_text-SameSize s.in_buf 0 (b ∷ bs) e1) in
              returned s _ (length (b ∷ bs))
                (Kept-trans s (record s { in_buf = in_buf }) _ k
                  (with_effects (record s { in_buf = in_buf }) k.sound (logged name text ∷ [])))
                h3
