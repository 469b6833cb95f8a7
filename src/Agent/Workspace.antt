-- ===== src/Agent/Workspace.antt =====
-- The agent's side of `dpatch set FILE`.
use dpatch.Prelude.{
  ℕ, ◌-◌, ◌^◌, ◌<◌, ◌≤◌, ◌≡◌, ◌∙◌, refl, ap, true, [], ◌∷◌, ◌++◌, some, length, drop, replicate,
  append_assoc, arith, ascii, overlay, take-whole,
}
use dpatch.Exec.{ret}
use dpatch.Memory.{Bytes, string_at}
use dpatch.Memory.Place.{IsText, put_string-overlay, string_at-append}
use dpatch.Stack.Laws
use dpatch.Config.{Settings}
use dpatch.Net.Transfer.{Takes, Progresses}
use dpatch.Protocol.{msg_workspace_set, msg_success}
use dpatch.Protocol.Request.{requested, request_size, request_bytes, protocol_read-request}
use dpatch.Protocol.Reply.{reply_size, reply_bytes}
use dpatch.Agent.{Server, System, ClientPacket, note, workspace_used, sent, closed}
use dpatch.Agent.Respond.{respond_fmt}
use dpatch.Agent.Packet.{set_workspace, eval_message, server_eval_packet}
use dpatch.Agent.Printed.{server_respond-Answer}

-- The text of the answer.
abbrev pub set_text : Bytes → Bytes
set_text path = ascii "Workspace '" ++ (path ++ ascii "' set as active")

-- What the agent has done: the path is its workspace, and it has answered.
pub record WorkspaceSet (s s' : Server) (sock : ℕ) (path tail : Bytes) : Type 0 where
  pub workspace : string_at s'.workspace 0 ≡ ret path
  pub history :
      s'.effects
      ≡ s.effects ++ sent sock (reply_bytes msg_success (set_text path) tail) ∷ closed sock ∷ []
  pub log : s'.log ≡ s.log ++ workspace_used path ∷ []
  pub size : length (reply_bytes msg_success (set_text path) tail) ≡ reply_size (set_text path)

-- A file that may be read, whose name has room in the agent and in its answer.
pub record CanSet (sys : System) (settings : Settings) (s : Server) (sock : ℕ) (path : Bytes)
    : Type 0 where
  pub is_text : IsText path
  pub readable : sys.may_read path ≡ true
  pub fits : length path < length s.workspace
  pub told : length (set_text path) ≤ settings.buffer_size - 1
  pub enough : reply_size (set_text path) ≤ length s.out_buf
  pub takes : Takes (sys.send sock)
  pub progresses : Progresses (sys.send sock)
  pub clients : Laws.IsValid s.client_stack

module _ (sys : System) (settings : Settings) (packet : ClientPacket) where
  set_workspace-WorkspaceSet :
      (s : Server) (path : Bytes)
      → CanSet sys settings s packet.socket path
      → s.token_stream.length ≤ length s.token_stream.tokens
      → 0 < length s.token_stream.tokens
      → (tail : Bytes) × (s' : Server) × (set_workspace sys settings packet s (some path)
          ≡ ret (true, s'))
        × WorkspaceSet s s' packet.socket path tail
  unfolding set_workspace respond_fmt
  set_workspace-WorkspaceSet s path can stream room =
      let named = overlay (path ++ 0 ∷ []) s.workspace in
      let put = put_string-overlay [] path s.workspace 0 refl can.fits in
      let s0 : Server = record s { workspace = named } in
      let (tail, s', done, a) =
        server_respond-Answer sys settings.buffer_size s0 packet msg_success (set_text path)
          can.clients
          (record {
            takes = can.takes;
            progresses = can.progresses;
            stream_fits = stream;
            stream_room = room;
            enough = can.enough;
          }) in
      let post = drop (length (path ++ 0 ∷ [])) s.workspace in
      let read : string_at named 0 ≡ ret path =
        ap (λ b. string_at b 0) (append_assoc path (0 ∷ []) post)
        ∙ string_at-append [] path post 0 refl can.is_text in
      (
        tail,
        note (workspace_used path) s',
        rw (can.readable, put, take-whole (settings.buffer_size - 1) (set_text path) can.told, done)
            refl,
        record {
          workspace = ap (λ b. string_at b 0) a.stores.path ∙ read;
          history = a.history;
          log = ap (λ l. l ++ workspace_used path ∷ []) a.log;
          size = a.size;
        },
      )

  pub server_eval_packet-WorkspaceSet :
      (s : Server) (path : Bytes) (k : ℕ)
      → CanSet sys settings s packet.socket path
      → 2 ≤ length s.token_stream.tokens
      → request_size path < 2 ^ 32
      → let got : Server = record s {
        in_buf = request_bytes msg_workspace_set path ++ replicate k 0;
      } in
        (tail : Bytes) × (s' : Server) × (server_eval_packet sys settings packet got
          ≡ ret (true, s'))
        × WorkspaceSet s s' packet.socket path tail
  unfolding server_eval_packet eval_message
  server_eval_packet-WorkspaceSet s path k can slots small =
      let got : Server = record s {
        in_buf = request_bytes msg_workspace_set path ++ replicate k 0;
      } in
      let ts = requested msg_workspace_set path (drop 2 s.token_stream.tokens) in
      let read =
        protocol_read-request s.token_stream settings.buffer_size msg_workspace_set path k
          can.is_text (omega arith) small slots in
      let s0 : Server = record got { token_stream = ts } in
      let (tail, s', done, set) =
        set_workspace-WorkspaceSet s0 path
          (record {
            is_text = can.is_text;
            readable = can.readable;
            fits = can.fits;
            told = can.told;
            enough = can.enough;
            takes = can.takes;
            progresses = can.progresses;
            clients = can.clients;
          })
          (omega arith) (omega arith) in
      (
        tail,
        s',
        rw read done,
        record { workspace = set.workspace; history = set.history; log = set.log; size = set.size },
      )
