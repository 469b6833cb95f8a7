-- ===== src/Agent/Printed.antt =====
-- A reply of the agent from `server_respond` to the client's output.
use dpatch.Prelude.{
  ℕ, zero, suc, ◌^◌, ◌<◌, ◌≤◌, ◌≡◌, refl, inl, inr, ℤ, pos, Bool, true, false, [], ◌∷◌, ◌++◌,
  length, drop, append_assoc, append-nil, arith,
}
use dpatch.Exec.{ret}
use dpatch.Memory.{Bytes}
use dpatch.Memory.Place.{IsText}
use dpatch.Stack.{Stack, stack_remove_at_fast}
use dpatch.Stack.Laws
use dpatch.Stack.Remove.{stack_remove_at_fast-FastRemoved}
use dpatch.Config.{Config}
use dpatch.Net.Connect.{Network}
use dpatch.Net.Transfer.{Takes, Progresses}
use dpatch.Protocol.Reply.{reply_bytes, reply, reply_size}
use dpatch.Client.Run.{Client, poll_response}
use dpatch.Agent.{Server, System, ClientPacket, sent, closed}
use dpatch.Agent.Respond.{server_respond, response_status, warnings}
use dpatch.Agent.Answer.{SameStores}
use dpatch.Agent.Reply.{replied, server_send-reply}
use dpatch.Client.Reply.{reply_line, ready, take_reply-reply}

-- A removal from a valid stack returns.
removal_returns :
    (clients : Stack ℕ) (i : ℕ)
    → Laws.IsValid clients
    → (removed : Bool) × (clients' : Stack ℕ) × (stack_remove_at_fast 0 clients (pos i)
        ≡ ret (removed, clients'))
removal_returns clients i v = elim (stack_remove_at_fast-FastRemoved 0 clients i v) [
  | inl (_, e) ↦ (false, clients, e)
  | inr (clients', e, _) ↦ (true, clients', e)
]

-- The agent can answer on a socket: it takes what is sent, and the stream and the buffer have room.
pub record CanSend (sys : System) (s : Server) (sock : ℕ) (text : Bytes) : Type 0 where
  pub takes : Takes (sys.send sock)
  pub progresses : Progresses (sys.send sock)
  pub stream_fits : s.token_stream.length ≤ length s.token_stream.tokens
  pub stream_room : 0 < length s.token_stream.tokens
  pub enough : reply_size text ≤ length s.out_buf

-- What an answer is.
pub record Answer (s s' : Server) (packet : ClientPacket) (type : ℕ) (text tail : Bytes)
    : Type 0 where
  pub history :
      s'.effects
      ≡ s.effects ++ sent packet.socket (reply_bytes type text tail) ∷ closed packet.socket ∷ []
  pub log : s'.log ≡ s.log
  pub size : length (reply_bytes type text tail) ≡ reply_size text
  pub stores : SameStores s s'

positive_status : (n : ℕ) → 0 < n → response_status (pos n) ≡ pos n
positive_status zero h = absurd (omega arith)
positive_status (suc n) h = refl

no_warnings : (sock n : ℕ) → 0 < n → warnings sock (pos n) ≡ []
no_warnings sock zero h = absurd (omega arith)
no_warnings sock (suc n) h = refl

pub server_respond-Answer :
    (sys : System) (buffer_size : ℕ) (s : Server) (packet : ClientPacket) (type : ℕ) (text : Bytes)
    → Laws.IsValid s.client_stack
    → CanSend sys s packet.socket text
    → (tail : Bytes) × (s' : Server) × (server_respond sys buffer_size s packet type text
        ≡ ret (pos (reply_size text), s'))
      × Answer s s' packet type text tail
unfolding server_respond
server_respond-Answer sys buffer_size s packet type text v can =
    let (tail, slots, buf, done, size) =
      server_send-reply sys buffer_size s packet.socket type text can.takes can.progresses
        can.stream_fits can.stream_room can.enough in
    let (removed, clients, gone) = removal_returns s.client_stack packet.client v in
    let s1 = replied s packet.socket type text tail slots buf in
    (
      tail,
      record s1 {
        client_stack = clients;
        effects = s1.effects ++ closed packet.socket ∷ [];
        log = s1.log ++ [];
      },
      rw
          (
            done,
            gone,
            positive_status (reply_size text) (omega arith),
            no_warnings packet.socket (reply_size text) (omega arith),
          )
          refl,
      record {
        history =
            append_assoc s.effects (sent packet.socket (reply_bytes type text tail) ∷ [])
              (closed packet.socket ∷ []);
        log = append-nil s.log;
        size = size;
        stores = record {
          processes = refl;
          tasks = refl;
          path = refl;
          input = refl;
          listening = refl;
        };
      },
    )

module _ (net : Network) (send : ℕ → Bytes → ℤ) (wait : ℕ) where
  -- Over a socket that takes all, and with room in the agent's stream and buffer, server_respond
  -- sends a text, closes the client's socket and leaves the stores; a client that is not quiet and
  -- whose poll_response reads these bytes into its buffer, whatever it held, prints the text, as
  -- an error if the type is PROTOCOL_MSG_ERR and as a success otherwise, if the text has no zero
  -- bytes and the client's stream and buffer have room.
  pub server_respond-printed :
      (sys : System) (buffer_size : ℕ) (s : Server) (packet : ClientPacket) (type : ℕ)
      (text : Bytes) (config : Config) (in_buf : Bytes) (client : Client)
      → Laws.IsValid s.client_stack
      → CanSend sys s packet.socket text
      → IsText text
      → type < 2 ^ 32
      → reply_size text < 2 ^ 32
      → config.args.quiet ≡ false
      → 0 < length client.token_stream.tokens
      → reply_size text ≤ length in_buf
      → (tail : Bytes) × (s' : Server) × (server_respond sys buffer_size s packet type text
          ≡ ret (pos (reply_size text), s'))
        × Answer s s' packet type text tail
        × (poll_response config (ready net send wait (reply_bytes type text tail)) in_buf client
            ≡ ret (
              true,
              record client {
                token_stream = reply type text (drop 1 client.token_stream.tokens);
                printed = client.printed ++ reply_line type text ∷ [];
              },
            ))
  unfolding poll_response
  server_respond-printed sys buffer_size s packet type text config in_buf client v can t ht hw loud
        room fits =
      let (tail, s', done, a) = server_respond-Answer sys buffer_size s packet type text v can in
      (
        tail,
        s',
        done,
        a,
        take_reply-reply config in_buf client type text tail loud t ht hw room
            (omega (arith, a.size, fits)),
      )
