-- ===== src/Agent/Answer.antt =====
-- What one answer of the agent is.
use dpatch.Prelude.{
  ℕ, ◌≡◌, refl, sym, ap, ◌∙◌, subst, ℤ, pos, Bool, [], ◌∷◌, ◌++◌, some, append_assoc, append-nil,
  ◌⊎◌, List, length, ◌≤◌, arith,
}
use dpatch.Exec.{ret, bind_elim}
use dpatch.Memory.{Bytes}
use dpatch.Stack.{stack_remove_at_fast}
use dpatch.Protocol.{msg_success, msg_err, token_arg, tokenstream_reset, tokenstream_add_token}
use dpatch.Protocol.Send.{protocol_send}
use dpatch.Agent.{Server, System, ClientPacket, Report, sent, closed}
use dpatch.Agent.Respond.{server_send, server_respond, response_status, warnings}

-- One call of `server_send` with a reply: what it returned, and what it put out.
pub record Reply (sys : System) (buffer_size sock : ℕ) (count : ℤ) (out : Bytes) : Type 0 where
  pub type : ℕ
  pub text : Bytes
  pub kind : (type ≡ msg_success) ⊎ (type ≡ msg_err)
  pub before : Server
  pub behind : Server
  pub call : server_send sys buffer_size before sock type text ≡ ret (count, behind)
  pub put_out : behind.effects ≡ before.effects ++ sent sock out ∷ []

-- One answer: what a call of `server_send` has put out on the packet's socket, which is then closed;
-- the packet's client is taken off the stack; the log has a warning if nothing was sent, and one more
-- line at most.
pub record Answered (sys : System) (buffer_size : ℕ) (packet : ClientPacket) (s s' : Server)
    : Type 0 where
  pub out : Bytes
  pub history : s'.effects ≡ s.effects ++ (sent packet.socket out ∷ closed packet.socket ∷ [])
  pub count : ℤ
  pub reply : Reply sys buffer_size packet.socket count out
  pub was_client : Bool
  pub left :
      stack_remove_at_fast 0 s.client_stack (pos packet.client) ≡ ret (was_client, s'.client_stack)
  pub reports : List Report
  pub lines : s'.log ≡ s.log ++ (warnings packet.socket count ++ reports)
  pub one_line : length reports ≤ 1

-- An answer only changes the stream and the buffer it is sent with, the history and the clients.
pub record SameStores (s s' : Server) : Type 0 where
  pub processes : s'.process_store ≡ s.process_store
  pub tasks : s'.task_store ≡ s.task_store
  pub path : s'.workspace ≡ s.workspace
  pub input : s'.in_buf ≡ s.in_buf
  pub listening : s'.socket ≡ s.socket

module _ (sys : System) (buffer_size : ℕ) where
  -- What `server_send` leaves of the agent.
  record Sending (sock : ℕ) (s s' : Server) : Type 0 where
    out : Bytes
    history : s'.effects ≡ s.effects ++ sent sock out ∷ []
    clients : s'.client_stack ≡ s.client_stack
    log : s'.log ≡ s.log
    stores : SameStores s s'

  server_send-Sending :
      (s : Server) (sock type : ℕ) (text : Bytes) {r : ℤ × Server}
      → server_send sys buffer_size s sock type text ≡ ret r
      → Sending sock s r.1
  unfolding server_send
  server_send-Sending s sock type text {r} h =
      bind_elim (tokenstream_reset (record (s.token_stream) { type = type })) _ h λ cleared _ h1.
        bind_elim (tokenstream_add_token cleared token_arg (some text)) _ h1 λ filled _ h2.
          bind_elim (protocol_send (sys.send sock) s.out_buf buffer_size filled) _ h2 λ p _ h3.
            let same : (
              p.0,
              record s {
                token_stream = filled;
                out_buf = p.2;
                effects = s.effects ++ sent sock p.1 ∷ [];
              },
            )
                ≡ r =
              cc h3 in
            subst (λ (q : ℤ × Server). Sending sock s q.1) same
              (record {
                out = p.1;
                history = refl;
                clients = refl;
                log = refl;
                stores = record {
                  processes = refl;
                  tasks = refl;
                  path = refl;
                  input = refl;
                  listening = refl;
                };
              })

  pub server_respond-Answered :
      (s : Server) (packet : ClientPacket) (type : ℕ) (text : Bytes) {r : ℤ × Server}
      → (type ≡ msg_success) ⊎ (type ≡ msg_err)
      → server_respond sys buffer_size s packet type text ≡ ret r
      → (a : Answered sys buffer_size packet s r.1) × (a.reports ≡ []) × SameStores s r.1
  unfolding server_respond
  server_respond-Answered s packet type text {r} kind h =
      bind_elim (server_send sys buffer_size s packet.socket type text) _ h λ (count, s1) e h1.
        bind_elim (stack_remove_at_fast 0 s1.client_stack (pos packet.client)) _ h1
          λ (removed, clients) e2 h2.
            let sending = server_send-Sending s packet.socket type text e in
            let same : (
              response_status count,
              record s1 {
                client_stack = clients;
                effects = s1.effects ++ closed packet.socket ∷ [];
                log = s1.log ++ warnings packet.socket count;
              },
            )
                ≡ r =
              cc h2 in
            subst
              (λ (q : ℤ × Server).
                (a : Answered sys buffer_size packet s q.1) × (a.reports ≡ []) × SameStores s q.1)
              same
              (
                record {
                  out = sending.out;
                  history =
                      ap (λ l. l ++ closed packet.socket ∷ []) sending.history
                      ∙ append_assoc s.effects (sent packet.socket sending.out ∷ [])
                          (closed packet.socket ∷ []);
                  count = count;
                  reply = record {
                    type = type;
                    text = text;
                    kind = kind;
                    before = s;
                    behind = s1;
                    call = e;
                    put_out = sending.history;
                  };
                  was_client = removed;
                  reports = [];
                  lines =
                      ap (λ l. l ++ warnings packet.socket count) sending.log
                      ∙ ap (◌++◌ s.log) (sym (append-nil (warnings packet.socket count)));
                  one_line = omega arith;
                  left =
                      ap (λ c. stack_remove_at_fast 0 c (pos packet.client)) (sym sending.clients)
                      ∙ e2;
                },
                refl,
                record {
                  processes = sending.stores.processes;
                  tasks = sending.stores.tasks;
                  path = sending.stores.path;
                  input = sending.stores.input;
                  listening = sending.stores.listening;
                },
              )
