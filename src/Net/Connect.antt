-- ===== src/Net/Connect.antt =====
-- src/net.h: opening and closing a connection. The system calls are parameters.
use dpatch.Prelude.{
  ℕ, zero, suc, ◌+◌, ◌/◌, ◌%◌, ◌==◌, ◌||◌, ℤ, pos, negsuc, Bool, true, false, not, List, [], ◌∷◌,
  Option, none, some, if◌then◌else◌,
}
use dpatch.Memory.{Bytes}
use dpatch.Config.{Config, RunMode, runmode_cmd, runmode_server}

-- What a `read` into a buffer answers: an error, or the bytes, none at the end of the stream.
pub data Received : Type 0 where
  failed : Received
  bytes : Bytes → Received

-- A buffer is `none` while it is NULL.
pub record Connection : Type 0 where
  pub socket : ℤ
  pub in_buf : Option Bytes
  pub out_buf : Option Bytes

-- A NULL buffer is one of no bytes.
abbrev pub buffer : Option Bytes → Bytes
buffer none = []
buffer (some b) = b

-- What MMALLOC gives for the two buffers, and what the system calls of `connection_init` answer.
pub record Network : Type 0 where
  pub in_granted : Option Bytes
  pub out_granted : Option Bytes
  pub socket : ℤ
  pub reuse_address : ℤ
  pub receive_timeout : ℤ
  pub send_timeout : ℤ
  pub bind : ℤ
  pub listen : ℤ
  pub connect : ℤ

abbrev pub is_negative : ℤ → Bool
is_negative (pos n) = false
is_negative (negsuc n) = true

abbrev pub is_zero : ℤ → Bool
is_zero (pos n) = n == 0
is_zero (negsuc n) = false

abbrev pub is_some {ℓ} : {A : Type ℓ} → Option A → Bool
is_some none = false
is_some (some a) = true

-- `fcntl` answers `get` for F_GETFL and `set_flags` for F_SETFL; O_NONBLOCK is the bit of 2048.
unfoldable pub socket_set_nonblock : Option ℕ → (ℕ → ℤ) → ℤ
socket_set_nonblock none set_flags = negsuc 0
socket_set_nonblock (some flags) set_flags =
    set_flags (if flags / 2048 % 2 == 1 then flags else flags + 2048)

-- Binding or connecting the socket: 1, or -1 for an error.
unfoldable pub attach : Network → RunMode → ℤ
attach net runmode_server =
    if is_negative net.bind then negsuc 0 else if is_negative net.listen then negsuc 0 else pos 1
attach net runmode_cmd = if is_negative net.connect then negsuc 0 else pos 1

-- The connection is written to on every way out. `out_buf` is not looked at.
unfoldable pub connection_init : Network → Config → ℤ × Connection
unfolding attach
connection_init net config =
    if is_negative net.socket
    then (net.socket, record { socket = net.socket; in_buf = none; out_buf = none })
    else if not (is_some net.in_granted)
    then (negsuc 0, record { socket = net.socket; in_buf = none; out_buf = none })
    else (let conn : Connection = record {
      socket = net.socket;
      in_buf = net.in_granted;
      out_buf = net.out_granted;
    } in
        if is_negative net.reuse_address
        then (negsuc 0, conn)
        else if not (is_zero net.receive_timeout) || not (is_zero net.send_timeout)
        then (negsuc 0, conn)
        else (attach net config.args.run_mode, conn))

-- Returns the connection and the descriptors it has closed.
unfoldable pub connection_close : Connection → List ℕ × Connection
connection_close conn = elim conn.socket [
  | negsuc n ↦ ([], conn)
  | pos zero ↦ ([], conn)
  | pos (suc n) ↦ (suc n ∷ [], record conn { socket = pos 0 })
]
