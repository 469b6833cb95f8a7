-- ===== src/Agent/Kept.antt =====
-- The invariant of the agent: valid tables, tables and buffers of one size, a history that grows.
use dpatch.Prelude.{
  ℕ, ◌≡◌, ◌∙◌, refl, sym, ap, List, [], ◌∷◌, ◌++◌, append_assoc, append-nil, length,
}
use dpatch.Memory.{Bytes}
use dpatch.Memory.Sizes.{SameSize}
use dpatch.Stack.{Stack}
use dpatch.Stack.Laws
use dpatch.Stack.Keep
use dpatch.Store.{Store}
use dpatch.Store.Valid.{IsValid}
use dpatch.Server.{Task, TaskProcess}
use dpatch.Server.Keep.{Keeps}
use dpatch.Protocol.{TokenStream}
use dpatch.Agent.{Server, Effect, Report}

-- The three tables of an agent.
pub record IsSound (s : Server) : Type 0 where
  pub clients : Laws.IsValid s.client_stack
  pub processes : IsValid s.process_store
  pub tasks : IsValid s.task_store

-- The capacities of the tables and the sizes of the buffers.
unfoldable pub sizes : Server → List ℕ
sizes s =
    s.socket
    ∷ s.client_stack.capacity
    ∷ s.process_store.capacity
    ∷ s.task_store.capacity
    ∷ length s.in_buf
    ∷ length s.out_buf
    ∷ length s.workspace
    ∷ length s.token_stream.tokens
    ∷ []

pub record Kept (s s' : Server) : Type 0 where
  pub sound : IsSound s'
  pub same_sizes : sizes s' ≡ sizes s
  pub later : List Effect
  pub history : s'.effects ≡ s.effects ++ later

pub Kept-refl : (s : Server) → IsSound s → Kept s s
Kept-refl s v = record {
  sound = v;
  same_sizes = refl;
  later = [];
  history = sym (append-nil s.effects);
}

pub Kept-trans : (s t u : Server) → Kept s t → Kept t u → Kept s u
Kept-trans s t u h k = record {
  sound = k.sound;
  same_sizes = k.same_sizes ∙ h.same_sizes;
  later = h.later ++ k.later;
  history = k.history ∙ ap (λ l. l ++ k.later) h.history ∙ append_assoc s.effects h.later k.later;
}

module _ (s : Server) (v : IsSound s) where
  pub with_clients :
      (clients : Stack ℕ)
      → Keep.Keeps s.client_stack clients
      → Kept s (record s { client_stack = clients })
  unfolding sizes
  with_clients clients k = record {
    sound = record { clients = k.valid; processes = v.processes; tasks = v.tasks };
    same_sizes = cc k.same_capacity;
    later = [];
    history = sym (append-nil s.effects);
  }

  pub with_stores :
      (processes : Store TaskProcess) (tasks : Store Task)
      → Keeps s.process_store processes
      → Keeps s.task_store tasks
      → Kept s (record s { process_store = processes; task_store = tasks })
  unfolding sizes
  with_stores processes tasks k k' = record {
    sound = record { clients = v.clients; processes = k.valid; tasks = k'.valid };
    same_sizes = cc (k.same_capacity, k'.same_capacity);
    later = [];
    history = sym (append-nil s.effects);
  }

  pub with_buffers :
      (in_buf out_buf workspace : Bytes)
      → SameSize s.in_buf in_buf
      → SameSize s.out_buf out_buf
      → SameSize s.workspace workspace
      → Kept s (record s { in_buf = in_buf; out_buf = out_buf; workspace = workspace })
  unfolding sizes
  with_buffers in_buf out_buf workspace k k' k'' = record {
    sound = record { clients = v.clients; processes = v.processes; tasks = v.tasks };
    same_sizes = cc (k, k', k'');
    later = [];
    history = sym (append-nil s.effects);
  }

  pub with_effects : (effects : List Effect) → Kept s (record s { effects = s.effects ++ effects })
  unfolding sizes
  with_effects effects = record {
    sound = record { clients = v.clients; processes = v.processes; tasks = v.tasks };
    same_sizes = refl;
    later = effects;
    history = refl;
  }

  pub with_log : (log : List Report) → Kept s (record s { log = log })
  unfolding sizes
  with_log log = record {
    sound = record { clients = v.clients; processes = v.processes; tasks = v.tasks };
    same_sizes = refl;
    later = [];
    history = sym (append-nil s.effects);
  }

  pub with_stream :
      (ts : TokenStream)
      → SameSize s.token_stream.tokens ts.tokens
      → Kept s (record s { token_stream = ts })
  unfolding sizes
  with_stream ts k = record {
    sound = record { clients = v.clients; processes = v.processes; tasks = v.tasks };
    same_sizes = cc k;
    later = [];
    history = sym (append-nil s.effects);
  }
