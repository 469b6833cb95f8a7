-- ===== src/Agent/EndToEnd.antt =====
-- `dpatch set FILE` from the command line through the agent and back to the client's output.
use dpatch.Prelude.{
  ℕ, suc, ◌-◌, ◌^◌, ◌<◌, ◌≤◌, ◌≡◌, ◌∙◌, refl, ap, ℤ, true, false, List, [], ◌∷◌, ◌++◌, Option, some,
  length, replicate, length-replicate, drop-replicate, length-append, arith, ascii,
}
use dpatch.Exec.{ret}
use dpatch.Memory.{Bytes}
use dpatch.Memory.Place.{IsText}
use dpatch.Config.{Config, Settings}
use dpatch.Net.Connect.{Network, bytes}
use dpatch.Net.Opened.{connects, opened}
use dpatch.Net.Transfer.{Takes, Progresses}
use dpatch.Protocol.{blank, msg_workspace_set, msg_success}
use dpatch.Protocol.Request.{request, request_size, request_bytes, length-request_bytes}
use dpatch.Protocol.Reply.{reply_size, reply_bytes}
use dpatch.Server.{copy_text}
use dpatch.Server.Launch.{copy_text-overlay}
use dpatch.Client.Run.{Client, run_once}
use dpatch.Client.Reply.{ready}
use dpatch.Client.Once.{Commands, has_sent, has_printed, has_closed, run_once-request}
use dpatch.Agent.{Server, System, ClientPacket}
use dpatch.Agent.Sockets.{Watched}
use dpatch.Agent.Loops.{take_received}
use dpatch.Agent.Workspace.{set_text, WorkspaceSet, CanSet, server_eval_packet-WorkspaceSet}

IsText-append : (v w : Bytes) → IsText v → IsText w → IsText (v ++ w)
IsText-append [] w h k = k
IsText-append (b ∷ v) w (nz, h) k = (nz, IsText-append v w h k)

set_text-IsText : (path : Bytes) → IsText path → IsText (set_text path)
set_text-IsText path t =
    let front : IsText (ascii "Workspace '") = ground arith in
    let behind : IsText (ascii "' set as active") = ground arith in
    IsText-append (ascii "Workspace '") (path ++ ascii "' set as active") front
      (IsText-append path (ascii "' set as active") t behind)

-- What the agent does with the bytes of the request, read into a cleared buffer.
take_received-WorkspaceSet :
    (sys : System) (settings : Settings) (watched : Watched) (s : Server) (i sock m : ℕ)
    (path : Bytes)
    → CanSet sys settings s sock path
    → 2 ≤ length s.token_stream.tokens
    → request_size path ≤ m
    → request_size path < 2 ^ 32
    → (tail : Bytes) × (s' : Server) × (take_received sys settings watched
          (record s { in_buf = replicate m 0 })
          i
          sock
          (bytes (request_bytes msg_workspace_set path))
        ≡ ret s')
      × WorkspaceSet s s' sock path tail
unfolding take_received
take_received-WorkspaceSet sys settings watched s i sock m path can slots room small =
    let out = request_bytes msg_workspace_set path in
    let size = length-request_bytes msg_workspace_set path in
    let packet : ClientPacket = record { socket = sock; client = i; len = length out } in
    let k = m - length out in
    let copied : copy_text (replicate m 0) 0 out ≡ ret (out ++ replicate k 0) =
      copy_text-overlay [] out (replicate m 0) 0 refl
        (omega (arith, size, room, length-replicate {A = ℕ} m 0))
      ∙ ap (λ (b : Bytes). ret (out ++ b)) (drop-replicate {A = ℕ} (length out) m 0) in
    let (tail, s', done, set) =
      server_eval_packet-WorkspaceSet sys settings packet s path k can slots small in
    (tail, s', rw (copied, done) refl, set)

-- A client that is not quiet, with its command line, its connection and room for the answer.
pub record Asks (config : Config) (net : Network) (argv : List (Option Bytes)) (n : ℕ)
    (in_buf path : Bytes) : Type 0 where
  pub loud : config.args.quiet ≡ false
  pub commands : Commands argv config.args msg_workspace_set path
  pub linked : connects net config.args.run_mode ≡ true
  pub in_given : net.in_granted ≡ some in_buf
  pub out_given : net.out_granted ≡ some (replicate n 0)
  pub can_ask : request_size path ≤ n
  pub can_hear : reply_size (set_text path) ≤ length in_buf
  pub small : reply_size (set_text path) < 2 ^ 32

-- `dpatch set FILE` is done and answered: over sockets that take all, with a command line that
-- stands for that message, a connection, and room for the file's name and for both messages in all
-- buffers, the client sends the request and prints that the workspace is set as active, and the
-- agent that reads the request into a cleared buffer, and may read the file, has the file's name
-- as its workspace, has sent the answer that the client reads, and has closed the socket.
pub run_once-WorkspaceSet :
    (config : Config) (net : Network) (send : ℕ → Bytes → ℤ) (wait : ℕ) (argv : List (Option Bytes))
    (t l c n : ℕ) (in_buf : Bytes) (client : Client) (sys : System) (settings : Settings)
    (watched : Watched) (s : Server) (i sock m : ℕ) (path : Bytes)
    → Takes send
    → Progresses send
    → Asks config net argv n in_buf path
    → CanSet sys settings s sock path
    → 2 ≤ length s.token_stream.tokens
    → request_size path ≤ m
    → let fresh : Client = record client {
      token_stream = record { type = t; length = l; tokens = replicate (suc (suc c)) blank };
    } in
      let asking : Client = record client {
        token_stream = request msg_workspace_set path (replicate c blank);
      } in
      let asked = request_bytes msg_workspace_set path in
      (tail : Bytes) × (s' : Server) × (take_received sys settings watched
          (record s { in_buf = replicate m 0 })
          i
          sock
          (bytes asked)
        ≡ ret s')
      × WorkspaceSet s s' sock path tail
      × (run_once config argv
            (ready net send wait (reply_bytes msg_success (set_text path) tail))
            fresh
          ≡ ret (
            true,
            has_closed
                (opened net)
                (has_printed msg_success (set_text path) (has_sent config asked asking)),
          ))
run_once-WorkspaceSet config net send wait argv t l c n in_buf client sys settings watched s i sock
      m path takes progresses asks can slots room =
    let small : request_size path < 2 ^ 32 = omega (
      arith,
      asks.small,
      length-append (ascii "Workspace '") (path ++ ascii "' set as active"),
      length-append path (ascii "' set as active"),
    ) in
    let (tail, s', done, set) =
      take_received-WorkspaceSet sys settings watched s i sock m path can slots room small in
    let heard =
      run_once-request config asks.loud net send wait takes progresses msg_workspace_set path n
        in_buf msg_success (set_text path) tail asks.can_ask
        (record {
          is_text = set_text-IsText path can.is_text;
          type_fits = omega arith;
          size_fits = asks.small;
          fits = omega (arith, set.size, asks.can_hear);
        })
        argv t l c client asks.commands asks.linked asks.in_given asks.out_given in
    (tail, s', done, set, heard)
