-- ===== src/Agent/Running.antt =====
-- What the agent keeps from its start on.
use dpatch.Prelude.{
  ℕ, zero, suc, ◌≡◌, ◌∙◌, inl, inr, refl, sym, ap, subst, ℤ, pos, negsuc, Bool, true, false, List,
  [], ◌∷◌, Option, none, some, length, replicate, length-replicate, arith,
}
use dpatch.Exec.{Exec, ret, bind_elim, option_elim}
use dpatch.Memory.{Bytes}
use dpatch.Stack.{Stack, stack_new}
use dpatch.Stack.Laws
use dpatch.Store.{Store, store_new}
use dpatch.Store.Reset.{IsBase, store_new-IsBase}
use dpatch.Config.{Config, Settings}
use dpatch.Net.Connect.{Network, Connection, connection_init, is_negative, buffer}
use dpatch.Net.Opened.{opened, connection_init-opened}
use dpatch.Protocol.{TokenStream, tokenstream_alloc, blank}
use dpatch.Server.{Task, TaskProcess, zeroed_process}
use dpatch.Server.Load.{zeroed_task}
use dpatch.Agent.{Server, System}
use dpatch.Agent.Loops.{server_rounds}
use dpatch.Agent.Start.{Tables, descriptor, server_of, server_start, run_as_server}
use dpatch.Agent.Kept.{IsSound, sizes, Kept}
use dpatch.Agent.Rounds.{server_rounds-Kept}

-- The sizes that the settings ask for, with `n` bytes for the workspace's name.
abbrev pub sizes_for : Network → Settings → ℕ → List ℕ
sizes_for net settings n =
    descriptor net.socket
    ∷ settings.max_clients
    ∷ settings.process_store_count
    ∷ settings.task_store_count
    ∷ settings.buffer_size
    ∷ settings.buffer_size
    ∷ n
    ∷ settings.protocol_token_count
    ∷ []

-- Memory that is given is as long as asked for, and there is some for both buffers.
pub record Fits (net : Network) (tables : Tables) (settings : Settings) : Type 0 where
  pub in_size : length (buffer net.in_granted) ≡ settings.buffer_size
  pub out_size : length (buffer net.out_granted) ≡ settings.buffer_size
  pub workspace_size : length (buffer tables.workspace) ≡ settings.workspace_buf_size
  pub clients_size : length tables.clients ≡ settings.max_clients
  pub processes_size : length tables.open_processes ≡ settings.process_store_count
  pub tasks_size : length tables.open_tasks ≡ settings.task_store_count

-- Valid tables, and all sizes those of the settings.
pub record IsServer (net : Network) (settings : Settings) (s : Server) : Type 0 where
  pub sound : IsSound s
  pub fits : sizes s ≡ sizes_for net settings settings.workspace_buf_size

module _ {ℓ} {A : Type ℓ} where
  -- A store that `store_new` gives is valid and as large as asked for.
  granted_store :
      (zeroed : A) (granted : Bool) (raw : List ℕ) (capacity : ℕ) {made : Option (Store A)}
      {s : Store A}
      → length raw ≡ capacity
      → store_new zeroed granted raw capacity ≡ ret made
      → made ≡ some s
      → IsBase zeroed capacity s
  granted_store zeroed granted raw capacity {made} {s} l e some_s =
      elim (store_new-IsBase zeroed granted raw capacity l) [
        | inl (_, e') ↦ absurd (cc (e, e', some_s))
        | inr (_, (s', e', base)) ↦
            let same : s' ≡ s = cc (e, e', some_s) in subst (IsBase zeroed capacity) same base
      ]

-- Inversion of the test behind the allocations.
server_of_elim :
    {P : Type 0} (conn : Connection) (workspace : Option Bytes) (stream : Option TokenStream)
    (clients : Option (Stack ℕ)) (processes : Option (Store TaskProcess))
    (tasks : Option (Store Task)) {s : Server}
    → server_of conn workspace stream clients processes tasks ≡ some s
    → (workspace ≡ some s.workspace
        → stream ≡ some s.token_stream
        → clients ≡ some s.client_stack
        → processes ≡ some s.process_store
        → tasks ≡ some s.task_store
        → (s.socket ≡ descriptor conn.socket)
          × (s.in_buf ≡ buffer conn.in_buf)
          × (s.out_buf ≡ buffer conn.out_buf)
        → P)
    → P
unfolding server_of
server_of_elim conn (some w) (some t) (some c) (some p) (some k) {s} h next =
    let made : Server = record {
      socket = descriptor conn.socket;
      in_buf = buffer conn.in_buf;
      out_buf = buffer conn.out_buf;
      workspace = w;
      token_stream = t;
      client_stack = c;
      process_store = p;
      task_store = k;
      effects = [];
      log = [];
    } in
    let same : made ≡ s = cc h in
    next (ap (λ (z : Server). some z.workspace) same)
      (ap (λ (z : Server). some z.token_stream) same)
      (ap (λ (z : Server). some z.client_stack) same)
      (ap (λ (z : Server). some z.process_store) same) (ap (λ (z : Server). some z.task_store) same)
      (
        sym (ap (λ (z : Server). z.socket) same),
        sym (ap (λ (z : Server). z.in_buf) same),
        sym (ap (λ (z : Server). z.out_buf) same),
      )
server_of_elim conn none stream clients processes tasks h next = absurd (cc h)
server_of_elim conn (some w) none clients processes tasks h next = absurd (cc h)
server_of_elim conn (some w) (some t) none processes tasks h next = absurd (cc h)
server_of_elim conn (some w) (some t) (some c) none tasks h next = absurd (cc h)
server_of_elim conn (some w) (some t) (some c) (some p) none h next = absurd (cc h)

stream_size :
    (granted : Bool) (type n : ℕ) {ts : TokenStream}
    → tokenstream_alloc granted type n ≡ some ts
    → length ts.tokens ≡ n
unfolding tokenstream_alloc
stream_size false type n h = absurd (cc h)
stream_size true type n {ts} h =
    let same : record { type = type; length = 0; tokens = replicate n blank } ≡ ts = cc h in
    ap (λ (t : TokenStream). length t.tokens) (sym same) ∙ length-replicate n blank

fresh_stack :
    (granted : Bool) (raw : List ℕ) (capacity : ℕ) {s : Stack ℕ}
    → length raw ≡ capacity
    → stack_new granted raw capacity ≡ some s
    → Laws.IsValid s × (s.capacity ≡ capacity)
unfolding stack_new
fresh_stack false raw capacity l h = absurd (cc h)
fresh_stack true raw capacity {s} l h =
    let same : record { count = 0; capacity = capacity; items = raw } ≡ s = cc h in
    subst (λ (z : Stack ℕ). Laws.IsValid z × (z.capacity ≡ capacity)) same
      (record { within = omega arith; whole = l }, refl)

module _ (net : Network) (tables : Tables) (config : Config)
    (fits : Fits net tables config.settings) where
  made-IsServer :
      (processes : Option (Store TaskProcess)) (tasks : Option (Store Task)) {s : Server}
      → store_new
          (zeroed_process config.settings.task_name_size)
          tables.processes_granted
          tables.open_processes
          config.settings.process_store_count
        ≡ ret processes
      → store_new
          (zeroed_task config.settings.task_buf_size config.settings.task_var_max_count)
          tables.tasks_granted
          tables.open_tasks
          config.settings.task_store_count
        ≡ ret tasks
      → server_of
          (opened net)
          tables.workspace
          (tokenstream_alloc tables.stream_granted tables.stream_type
            config.settings.protocol_token_count)
          (stack_new tables.clients_granted tables.clients config.settings.max_clients)
          processes
          tasks
        ≡ some s
      → IsServer net config.settings s
  unfolding sizes
  made-IsServer processes tasks {s} e e' h =
      server_of_elim (opened net) tables.workspace _ _ processes tasks h λ w t c p k (sock, i, o).
        let clients =
          fresh_stack tables.clients_granted tables.clients config.settings.max_clients
            fits.clients_size c in
        let running =
          granted_store (zeroed_process config.settings.task_name_size) tables.processes_granted
            tables.open_processes config.settings.process_store_count fits.processes_size e p in
        let queue =
          granted_store
            (zeroed_task config.settings.task_buf_size config.settings.task_var_max_count)
            tables.tasks_granted tables.open_tasks config.settings.task_store_count fits.tasks_size
            e' k in
        let named : length s.workspace ≡ config.settings.workspace_buf_size =
          ap (λ b. length (buffer b)) (sym w) ∙ fits.workspace_size in
        record {
          sound = record { clients = clients.0; processes = running.valid; tasks = queue.valid };
          fits = cc (
            sock,
            clients.1,
            running.same_capacity,
            queue.same_capacity,
            ap length i,
            fits.in_size,
            ap length o,
            fits.out_size,
            named,
            stream_size tables.stream_granted tables.stream_type
                config.settings.protocol_token_count t,
          );
        }

  server_start-IsServer :
      {s : Server} → server_start net tables config ≡ ret (some s) → IsServer net config.settings s
  unfolding server_start
  server_start-IsServer {s} h = elim (connection_init-opened net config) [
    | inl (_, e) ↦
        let h1 = rw (server_start, e) at h in
        bind_elim
          (store_new (zeroed_process config.settings.task_name_size) tables.processes_granted
            tables.open_processes config.settings.process_store_count)
          _ h1
          λ processes e1 h2.
            bind_elim
              (store_new
                (zeroed_task config.settings.task_buf_size config.settings.task_var_max_count)
                tables.tasks_granted tables.open_tasks config.settings.task_store_count)
              _ h2 λ tasks e2 h3. made-IsServer processes tasks e1 e2 (cc h3)
    | inr (_, negative) ↦ absurd (failed (connection_init net config).0 _ negative h)
  ]
    where
      failed :
          (status : ℤ) (next : ℕ → Exec (Option Server))
          → is_negative status ≡ true
          → elim status [ negsuc n ↦ ret none | pos zero ↦ ret none | pos (suc n) ↦ next n ]
            ≡ ret (some s)
          → ⊥
      failed (pos n) next negative e = cc negative
      failed (negsuc n) next negative e = cc e

  -- If the memory that malloc gives is as long as asked for, with some for both buffers, then an
  -- agent that run_as_server has started has, after any number of rounds that return and whatever
  -- the system answers in them, its listening socket, valid tables of clients, processes and
  -- tasks, and the capacities and buffer sizes of its settings.
  pub run_as_server-IsServer :
      (systems : List System) {s : Server}
      → run_as_server net tables config systems ≡ ret (some s)
      → IsServer net config.settings s
  unfolding run_as_server
  run_as_server-IsServer systems {s} h =
      bind_elim (server_start net tables config) _ h λ started e h1.
        option_elim started _ _ h1 (λ _ h2. absurd (cc h2))
          λ first e1 h2. bind_elim (server_rounds config.settings systems first) _ h2 λ last e2 h3.
            let start = server_start-IsServer (e ∙ ap (λ o. ret o) e1) in
            let kept : Kept first last =
              server_rounds-Kept config.settings systems first start.sound e2 in
            let same : last ≡ s = cc h3 in
            subst (IsServer net config.settings) same
              (record { sound = kept.sound; fits = kept.same_sizes ∙ start.fits })
