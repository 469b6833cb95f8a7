-- ===== src/Net.antt =====
-- src/net.h: `socket_send` and `socket_read`; the connection is in Net/Connect. The system calls are parameters: `send k bytes` is the
-- answer to call `k`, which offers these bytes, and `read k n` what call `k` puts into a buffer that
-- has room for `n` bytes, nothing at the end of the stream or on an error.
pub mod Transfer
pub mod Connect
pub mod Opened
mod Tests
use dpatch.Prelude.{
  ℕ, zero, suc, ◌+◌, ◌-◌, ℤ, pos, negsuc, List, [], ◌∷◌, ◌++◌, ltb, leb, if◌then◌else◌, length,
  take, drop, overlay,
}
use dpatch.Memory.{Bytes}

-- The loop of `socket_send` before call `k` with `sent` bytes sent, for at most `n` calls. Returns
-- the count and the bytes that went out from here on.
unfoldable pub send_from : (ℕ → Bytes → ℤ) → ℕ → ℕ → Bytes → ℕ → ℕ → ℕ × Bytes
send_from send zero k buf size sent = (sent, [])
send_from send (suc n) k buf size sent =
    if leb size sent
    then (sent, [])
    else (let offered = take (size - sent) (drop sent buf) in
        elim (send k offered) [
          | pos zero ↦ (sent, [])
          | pos (suc s) ↦
              let (total, out) = send_from send n (k + 1) buf size (sent + suc s) in
              (total, take (suc s) offered ++ out)
          | negsuc s ↦ (sent, [])
        ])

-- A call that lets the loop go on sends a byte at least, so there are at most `size` calls. The
-- buffer has `size` bytes at least.
unfoldable pub socket_send : (ℕ → Bytes → ℤ) → Bytes → ℕ → ℕ × Bytes
unfolding send_from
socket_send send buf size = send_from send size 0 buf size 0

-- The loop of `socket_read` before call `k` with `readc` bytes read, for at most `n` calls.
unfoldable pub read_from : (ℕ → ℕ → Bytes) → ℕ → ℕ → Bytes → ℕ → ℕ → ℕ × Bytes
read_from read zero k buf size readc = (readc, buf)
read_from read (suc n) k buf size readc =
    if leb size readc then (readc, buf) else elim (read k (size - readc)) [
      | [] ↦ (readc, buf)
      | (b ∷ bs) ↦
          read_from read n (k + 1) (take readc buf ++ overlay (b ∷ bs) (drop readc buf)) size
            (readc + length (b ∷ bs))
    ]

unfoldable pub socket_read : (ℕ → ℕ → Bytes) → Bytes → ℕ → ℕ × Bytes
unfolding read_from
socket_read read buf size = read_from read size 0 buf size 0
