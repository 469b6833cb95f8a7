-- ===== src/Protocol.antt =====
-- src/protocol.h: token streams, their byte format, and their split into arguments and variables.
-- Streams and buffers stand for non-NULL pointers, so the NULL guards have no case.
pub mod Wire
pub mod Encode
pub mod Decode
pub mod RoundTrip
pub mod Parse
pub mod Deliver
pub mod Send
pub mod Sizes
pub mod Sent
pub mod Reply
pub mod Request
mod Tests
use dpatch.Prelude.{
  ℕ, zero, suc, ◌+◌, ◌-◌, ◌*◌, ◌/◌, ◌%◌, ◌^◌, ◌<◌, ◌≡◌, ◌==◌, ◌||◌, Bool, true, false, not, List,
  [], ◌∷◌, Option, none, some, ltb, leb, if◌then◌else◌, length, replicate,
}
use dpatch.Exec.{Exec, fault, ret, ◌>>=◌, load, put}
use dpatch.Memory.{Bytes, read_int, write_int, string_at, put_string, wipe}

-- `ProtocolMsgType`. A field of this type is an `unsigned int` that may hold any 32-bit word.
abbrev pub msg_task_run : ℕ
msg_task_run = 2

abbrev pub msg_task_info : ℕ
msg_task_info = 3

abbrev pub msg_workspace_set : ℕ
msg_workspace_set = 4

abbrev pub msg_workspace_info : ℕ
msg_workspace_info = 5

abbrev pub msg_proc_info : ℕ
msg_proc_info = 6

abbrev pub msg_success : ℕ
msg_success = 7

abbrev pub msg_err : ℕ
msg_err = 8

-- `ProtocolTokenType`. A token keeps it in an `unsigned char`.
abbrev pub token_none : ℕ
token_none = 0

abbrev pub token_arg : ℕ
token_arg = 1

abbrev pub token_var : ℕ
token_var = 2

-- The value is the C string behind the pointer, `none` for NULL.
pub record Token : Type 0 where
  pub type : ℕ
  pub value : Option Bytes

-- `length` is an `int` that is never negative; `tokens` has the slots that were allocated.
pub record TokenStream : Type 0 where
  pub type : ℕ
  pub length : ℕ
  pub tokens : List Token

-- A token slot of zero bytes.
abbrev pub blank : Token
blank = record { type = 0; value = none }

-- `type` is what stands in the fresh memory: the code sets it later.
unfoldable pub tokenstream_alloc : Bool → ℕ → ℕ → Option TokenStream
tokenstream_alloc allocated type token_length =
    if not allocated
    then none
    else some (record { type = type; length = 0; tokens = replicate token_length blank })

unfoldable pub tokenstream_reset : TokenStream → Exec TokenStream
unfolding wipe
tokenstream_reset ts = do
  tokens ← wipe blank ts.length ts.tokens
  ret (record ts { tokens = tokens; length = 0 })

unfoldable pub tokenstream_add_token : TokenStream → ℕ → Option Bytes → Exec TokenStream
tokenstream_add_token ts type value = do
  tokens ← put ts.tokens ts.length (record { type = type % 0x100; value = value })
  ret (record ts { tokens = tokens; length = ts.length + 1 })

-- The token loop of `protocol_buf_to_tokenstream` with `n` rounds left, at byte `cur`.
unfoldable pub read_tokens : ℕ → ℕ → Bytes → ℕ → List Token → Exec (List Token)
unfolding string_at
read_tokens zero i in_buf cur tokens = ret tokens
read_tokens (suc n) i in_buf cur tokens = do
  type ← load in_buf cur
  value ← string_at in_buf (cur + 1)
  next ← put tokens i (record { type = type; value = some value })
  read_tokens n (i + 1) in_buf (cur + 1 + (length value + 1)) next

-- `none` is -1. `in_buf_len` is not looked at.
unfoldable pub buf_to_tokenstream : Bytes → ℕ → ℕ → TokenStream → Exec (Option TokenStream)
unfolding read_int read_tokens wipe
buf_to_tokenstream in_buf in_buf_len start_loc ts = do
  stream_type ← read_int in_buf start_loc
  token_len ← read_int in_buf (start_loc + 4)
  if token_len == 0 || leb (2 ^ 31) token_len then ret none else (do
    cleared ← wipe blank token_len ts.tokens
    tokens ← read_tokens token_len 0 in_buf (start_loc + 8) cleared
    ret (some (record { type = stream_type; length = token_len; tokens = tokens })))

-- One round of the token loop of `protocol_tokenstream_to_buf`: a token with no type or no value is
-- passed over. Returns the place behind the last byte written, and the buffer.
unfoldable pub write_token : Token → Bytes → ℕ → Exec (ℕ × Bytes)
unfolding put_string
write_token token out_buf cur =
    if token.type == token_none then ret (cur, out_buf) else elim token.value [
      | none ↦ ret (cur, out_buf)
      | some value ↦ (do
        typed ← put out_buf cur token.type
        copied ← put_string typed (cur + 1) value
        ret (cur + 1 + (length value + 1), copied))
    ]

unfoldable pub write_tokens : ℕ → ℕ → List Token → Bytes → ℕ → Exec (ℕ × Bytes)
unfolding write_token
write_tokens zero i tokens out_buf cur = ret (cur, out_buf)
write_tokens (suc n) i tokens out_buf cur = do
  token ← load tokens i
  (cur', out_buf') ← write_token token out_buf cur
  write_tokens n (i + 1) tokens out_buf' cur'

-- `out_buf_len` is not looked at.
unfoldable pub tokenstream_to_buf : TokenStream → Bytes → ℕ → ℕ → Exec (ℕ × Bytes)
unfolding write_int write_tokens
tokenstream_to_buf ts out_buf out_buf_len start_loc = do
  typed ← write_int out_buf start_loc ts.type
  counted ← write_int typed (start_loc + 4) ts.length
  write_tokens ts.length 0 ts.tokens counted (start_loc + 8)

-- The two arrays of `protocol_parse_token_stream` and how much of them is filled.
pub record Split : Type 0 where
  pub argc : ℕ
  pub varc : ℕ
  pub args : List (Option Bytes)
  pub vars : List (Option Bytes)

unfoldable pub split_token : Token → Split → Exec Split
split_token token s =
    if token.type == token_arg
    then (do
      args ← put s.args s.argc token.value
      ret (record s { args = args; argc = s.argc + 1 }))
    else if token.type == token_var
    then (do
      vars ← put s.vars s.varc token.value
      ret (record s { vars = vars; varc = s.varc + 1 }))
    else ret s

unfoldable pub split_tokens : ℕ → ℕ → List Token → Split → Exec Split
unfolding split_token
split_tokens zero i tokens s = ret s
split_tokens (suc n) i tokens s = do
  token ← load tokens i
  next ← split_token token s
  split_tokens n (i + 1) tokens next

-- `args` and `vars` are the caller's arrays. The type comes out as an `unsigned char`.
unfoldable pub parse_token_stream :
    TokenStream
    → List (Option Bytes)
    → List (Option Bytes)
    → Exec (ℕ × List (Option Bytes) × List (Option Bytes))
unfolding split_tokens
parse_token_stream ts args vars = do
  s ← split_tokens ts.length 0 ts.tokens (record { argc = 0; varc = 0; args = args; vars = vars })
  ended_args ← put s.args s.argc none
  ended_vars ← put s.vars s.varc none
  ret (ts.type % 0x100, ended_args, ended_vars)

-- What `protocol_send` hands to `socket_send`: the length at the front of the buffer, and the
-- buffer. `none` is the return of -1.
unfoldable pub frame : Bytes → ℕ → TokenStream → Exec (Option (ℕ × Bytes))
unfolding tokenstream_to_buf write_int
frame data_buf buf_len ts = do
  (written, filled) ← tokenstream_to_buf ts data_buf buf_len 4
  if written == 0
      then ret none
      else (do framed ← write_int filled 0 (written + 4); ret (some (written + 4, framed)))

unfoldable pub protocol_read : Bytes → ℕ → TokenStream → Exec (Option TokenStream)
protocol_read data_buf buf_len ts = do
  msg_len ← read_int data_buf 0
  buf_to_tokenstream data_buf ((msg_len + 2 ^ 32 - 4) % 2 ^ 32) 4 ts
