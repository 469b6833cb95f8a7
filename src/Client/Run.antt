-- ===== src/Client/Run.antt =====
-- src/client.h: sending a command, the reply, watching a path, and `run_cmd`. The system calls are
-- parameters; what `client_eval_cmds` prints is left out.
use dpatch.Prelude.{
  ℕ, zero, suc, ◌==◌, ℤ, pos, negsuc, Bool, true, false, not, List, [], ◌∷◌, ◌++◌, Option, none,
  some, if◌then◌else◌,
}
use dpatch.Exec.{Exec, fault, ret, load, ◌>>=◌}
use dpatch.Memory.{Bytes}
use dpatch.Config.{Config}
use dpatch.Net.Connect.{
  Received, failed, bytes, Network, Connection, buffer, connection_init, connection_close,
}
use dpatch.Protocol.{TokenStream, msg_err, tokenstream_alloc, tokenstream_reset, protocol_read}
use dpatch.Protocol.Send.{protocol_send}
use dpatch.Client.{client_eval_cmds}
use dpatch.Server.{copy_text}

-- The lines that CLIENT_PRINT writes, with what is formatted into them.
pub data Line : Type 0 where
  sending : ℤ → Line
  not_sent : Line
  invalid_reply : Line
  error_reply : Bytes → Line
  success_reply : Bytes → Line
  timed_out : ℕ → Line
  no_stream : Line

-- The client's token stream, and what it has done: lines printed, bytes sent, descriptors closed.
pub record Client : Type 0 where
  pub token_stream : TokenStream
  pub printed : List Line
  pub sent : List Bytes
  pub closed : List ℕ

-- What the system answers while one command is sent and its reply awaited.
pub record Exchange : Type 0 where
  pub net : Network
  pub send : ℕ → Bytes → ℤ
  pub polled : ℤ
  pub received : Received

-- CLIENT_PRINT
unfoldable pub print : Config → Line → Client → Client
print config line client =
    if config.args.quiet then client else record client { printed = client.printed ++ line ∷ [] }

-- `false` is -1, here and below.
unfoldable pub send_cmd : Config → Exchange → Bytes → Client → Exec (Bool × Client)
unfolding protocol_send print
send_cmd config x out_buf client = do
  (count, out, buf) ← protocol_send x.send out_buf config.settings.buffer_size client.token_stream
  let told =
      print config (sending config.args.port) (record client { sent = client.sent ++ out ∷ [] })
  elim count [
    | negsuc n ↦ ret (false, print config not_sent told)
    | pos zero ↦ ret (false, print config not_sent told)
    | pos (suc n) ↦ ret (true, told)
  ]

-- The reply as a line. The value is only looked at if there is something to print.
unfoldable pub print_reply : Config → Client → Exec (Bool × Client)
unfolding print
print_reply config client = if config.args.quiet then ret (true, client) else (do
  token ← load client.token_stream.tokens 0
  elim token.value [
    | none ↦ fault
    | some text ↦ ret (
      true,
      print config
          (if client.token_stream.type == msg_err then error_reply text else success_reply text)
          client,
    )
  ])

-- What the socket gave.
unfoldable pub take_reply : Config → Bytes → Received → Client → Exec (Bool × Client)
unfolding copy_text protocol_read print print_reply
take_reply config in_buf failed client = ret (true, client)
take_reply config in_buf (bytes []) client = ret (true, client)
take_reply config in_buf (bytes (b ∷ bs)) client = do
  filled ← copy_text in_buf 0 (b ∷ bs)
  read ← protocol_read filled config.settings.buffer_size client.token_stream
  elim read [
    | none ↦ ret (true, print config invalid_reply client)
    | some ts ↦ print_reply config (record client { token_stream = ts })
  ]

unfoldable pub poll_response : Config → Exchange → Bytes → Client → Exec (Bool × Client)
unfolding take_reply print
poll_response config x in_buf client = elim x.polled [
  | pos (suc n) ↦ take_reply config in_buf x.received client
  | pos zero ↦ ret (false, print config (timed_out config.settings.client_timeout_ms) client)
  | negsuc n ↦ ret (false, print config (timed_out config.settings.client_timeout_ms) client)
]

-- Over an open connection, which is closed only if all goes well.
unfoldable pub talk : Config → Exchange → Connection → Client → Exec (Bool × Client)
unfolding send_cmd poll_response connection_close
talk config x conn client = do
  (was_sent, client1) ← send_cmd config x (buffer conn.out_buf) client
  if not was_sent then ret (false, client1) else (do
    (was_polled, client2) ← poll_response config x (buffer conn.in_buf) client1
    if not was_polled
        then ret (false, client2)
        else (let (fds, conn') = connection_close conn in
            ret (true, record client2 { closed = client2.closed ++ fds })))

-- The command of the arguments, sent over a connection of its own.
unfoldable pub run_once : Config → List (Option Bytes) → Exchange → Client → Exec (Bool × Client)
unfolding client_eval_cmds connection_init talk
run_once config argv x client = do
  (known, msg) ← client_eval_cmds argv config.args client.token_stream
  let client1 : Client = record client { token_stream = msg }
  if not known
      then ret (false, client1)
      else (let (status, conn) = connection_init x.net config in
          elim status [
            | pos (suc n) ↦ talk config x conn client1
            | pos zero ↦ ret (false, client1)
            | negsuc n ↦ ret (false, client1)
          ])

-- A round of the watch: what `poll` and `read` on the watch answer, and the exchange after a change.
pub record WatchRound : Type 0 where
  pub polled : ℤ
  pub count : ℤ
  pub exchange : Exchange

abbrev pub is_positive : ℤ → Bool
is_positive (pos (suc n)) = true
is_positive (pos zero) = false
is_positive (negsuc n) = false

unfoldable pub watch_round :
    Config → List (Option Bytes) → WatchRound → Client → Exec (Bool × Client)
unfolding tokenstream_reset run_once
watch_round config argv round client =
    if not (is_positive round.polled)
    then ret (true, client)
    else if not (is_positive round.count)
    then ret (true, client)
    else (do
      cleared ← tokenstream_reset client.token_stream
      run_once config argv round.exchange (record client { token_stream = cleared }))

-- `true` says that the watch goes on: it ends with an error only.
unfoldable pub poll_watch :
    Config → List (Option Bytes) → List WatchRound → Client → Exec (Bool × Client)
unfolding watch_round
poll_watch config argv [] client = ret (true, client)
poll_watch config argv (round ∷ rounds) client = do
  (going, client1) ← watch_round config argv round client
  if going then poll_watch config argv rounds client1 else ret (false, client1)

-- What the system answers to `run_cmd`. `watch` and `inotify` are the descriptors or an error.
pub record Answers : Type 0 where
  pub stream_granted : Bool
  pub stream_type : ℕ
  pub inotify : ℤ
  pub watch : ℤ
  pub rounds : List WatchRound
  pub once : Exchange

-- The watch on a path, until it ends.
unfoldable pub run_watch : Config → List (Option Bytes) → Answers → Client → Exec (Bool × Client)
unfolding poll_watch
run_watch config argv system client = elim system.inotify [
  | negsuc n ↦ ret (false, client)
  | pos fd ↦ elim system.watch [
    | negsuc n ↦ ret (false, record client { closed = client.closed ++ fd ∷ [] })
    | pos wd ↦ (do
      (going, client1) ← poll_watch config argv system.rounds client
      if going
          then ret (true, client1)
          else ret (false, record client1 { closed = client1.closed ++ wd ∷ fd ∷ [] }))
  ]
]

-- `none` for the client if there is no memory for its stream.
unfoldable pub run_cmd :
    Config → List (Option Bytes) → Answers → Exec (Bool × List Line × Option Client)
unfolding tokenstream_alloc run_watch run_once
run_cmd config argv system =
    elim (tokenstream_alloc system.stream_granted system.stream_type
      config.settings.protocol_token_count) [
        | none ↦ ret (false, (if config.args.quiet then [] else no_stream ∷ []), none)
        | some ts ↦ (do
          let client : Client = record { token_stream = ts; printed = []; sent = []; closed = [] }
          (ok, client1) ← elim config.args.watch_path [
            | none ↦ run_once config argv system.once client
            | some path ↦ run_watch config argv system client
          ]
          ret (ok, client1.printed, some client1))
      ]
