-- ===== src/Protocol/Send.antt =====
-- src/protocol.h: `protocol_send`, over any behaviour of `send`.
use dpatch.Prelude.{ℕ, ℤ, pos, negsuc, [], none, some, ltb, length, if◌then◌else◌}
use dpatch.Exec.{Exec, fault, ret, ◌>>=◌}
use dpatch.Memory.{Bytes}
use dpatch.Net.{socket_send}
use dpatch.Protocol.{TokenStream, frame}

-- Returns the result, the bytes that went out and the buffer. A length behind the buffer's end makes
-- `send` read outside it.
unfoldable pub protocol_send : (ℕ → Bytes → ℤ) → Bytes → ℕ → TokenStream → Exec (ℤ × Bytes × Bytes)
unfolding frame socket_send
protocol_send send data_buf buf_len ts = do
  framed ← frame data_buf buf_len ts
  elim framed [
    | none ↦ ret (negsuc 0, [], data_buf)
    | some (size, buf) ↦
        if ltb (length buf) size
        then fault
        else (let (sent, out) = socket_send send buf size in ret (pos sent, out, buf))
  ]
