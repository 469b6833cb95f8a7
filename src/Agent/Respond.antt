-- ===== src/Agent/Respond.antt =====
-- src/server.h: `server_send`, `server_respond` and SERVER_RESPOND_FMT.
use dpatch.Prelude.{
  List, ℕ, zero, suc, ◌-◌, ℤ, pos, negsuc, [], ◌∷◌, ◌++◌, Option, none, some, take,
}
use dpatch.Exec.{Exec, fault, ret, ◌>>=◌}
use dpatch.Memory.{Bytes}
use dpatch.Stack.{stack_remove_at_fast}
use dpatch.Protocol.{token_arg, tokenstream_reset, tokenstream_add_token}
use dpatch.Protocol.Send.{protocol_send}
use dpatch.Agent.{Server, System, ClientPacket, Report, response_failed, sent, closed}

unfoldable pub server_send : System → ℕ → Server → ℕ → ℕ → Bytes → Exec (ℤ × Server)
unfolding tokenstream_reset tokenstream_add_token protocol_send
server_send sys buffer_size server client_sock type text = do
  cleared ← tokenstream_reset (record (server.token_stream) { type = type })
  filled ← tokenstream_add_token cleared token_arg (some text)
  (count, out, buf) ← protocol_send (sys.send client_sock) server.out_buf buffer_size filled
  ret (
    count,
    record server {
      token_stream = filled;
      out_buf = buf;
      effects = server.effects ++ sent client_sock out ∷ [];
    },
  )

-- The result: -1 for a count below 1.
abbrev pub response_status : ℤ → ℤ
response_status (negsuc n) = negsuc 0
response_status (pos zero) = negsuc 0
response_status (pos (suc n)) = pos (suc n)

-- The warning about a reply that was not sent.
abbrev pub warnings : ℕ → ℤ → List Report
warnings sock (negsuc n) = response_failed sock ∷ []
warnings sock (pos zero) = response_failed sock ∷ []
warnings sock (pos (suc n)) = []

unfoldable pub server_respond : System → ℕ → Server → ClientPacket → ℕ → Bytes → Exec (ℤ × Server)
unfolding server_send stack_remove_at_fast
server_respond sys buffer_size server packet type text = do
  (count, server') ← server_send sys buffer_size server packet.socket type text
  (removed, clients) ← stack_remove_at_fast 0 server'.client_stack (pos packet.client)
  ret (
    response_status count,
    record server' {
      client_stack = clients;
      effects = server'.effects ++ closed packet.socket ∷ [];
      log = server'.log ++ warnings packet.socket count;
    },
  )

-- `snprintf` of a format with one string in it, and the response with that text. A NULL for the string
-- is undefined.
unfoldable pub respond_fmt :
    System → ℕ → Server → ClientPacket → ℕ → Bytes → Option Bytes → Bytes → Exec (ℤ × Server)
unfolding server_respond
respond_fmt sys buffer_size server packet type front none behind = fault
respond_fmt sys buffer_size server packet type front (some text) behind =
    server_respond sys buffer_size server packet type
      (take (buffer_size - 1) (front ++ (text ++ behind)))
