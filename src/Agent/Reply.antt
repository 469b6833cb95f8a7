-- ===== src/Agent/Reply.antt =====
-- What `server_send` puts on the wire.
use dpatch.Prelude.{ℕ, ◌<◌, ◌≤◌, ◌≡◌, refl, pos, List, [], ◌∷◌, ◌++◌, length, arith, length-append}
use dpatch.Exec.{ret}
use dpatch.Memory.{Bytes}
use dpatch.Net.Transfer.{Takes, Progresses}
use dpatch.Protocol.{Token, TokenStream}
use dpatch.Protocol.Encode.{message}
use dpatch.Protocol.Reply.{
  reply_bytes, reply, reply_size, reply_made, length-message, protocol_send-reply,
}
use dpatch.Agent.{Server, System, sent}
use dpatch.Agent.Respond.{server_send}

-- The agent behind `server_send`.
abbrev pub replied : Server → ℕ → ℕ → Bytes → Bytes → List Token → Bytes → Server
replied s sock type text tail slots buf = record s {
  token_stream = reply type text slots;
  out_buf = buf;
  effects = s.effects ++ sent sock (reply_bytes type text tail) ∷ [];
}

module _ (sys : System) (buffer_size : ℕ) where
  -- `server_send` over a socket that takes all, from a stream and a buffer with room.
  pub server_send-reply :
      (s : Server) (sock type : ℕ) (text : Bytes)
      → Takes (sys.send sock)
      → Progresses (sys.send sock)
      → s.token_stream.length ≤ length s.token_stream.tokens
      → 0 < length s.token_stream.tokens
      → reply_size text ≤ length s.out_buf
      → (tail : Bytes) × (slots : List Token) × (buf : Bytes) × (server_send sys buffer_size s sock
            type text
          ≡ ret (pos (reply_size text), replied s sock type text tail slots buf))
        × (length (reply_bytes type text tail) ≡ reply_size text)
  unfolding server_send
  server_send-reply s sock type text takes progresses fits room enough =
      let typed : TokenStream = record (s.token_stream) { type = type } in
      let (cleared, slots, reset, added) = reply_made typed text fits room in
      let (buf', tail, four, out) =
        protocol_send-reply (sys.send sock) takes progresses s.out_buf buffer_size type text slots
          enough in
      (
        tail,
        slots,
        buf',
        rw (reset, added, out) refl,
        omega (
          arith,
          length-append (message (reply type text [])) tail,
          length-message type text [],
          four,
        ),
      )
