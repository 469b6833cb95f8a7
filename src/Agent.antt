-- ===== src/Agent.antt =====
-- src/server.h: the agent around its two stores. A round of its loop is a function of what the system
-- answers in that round; what the agent does to the outside is a list of effects.
pub mod Respond
pub mod Packet
pub mod Sockets
pub mod Loops
pub mod Answer
pub mod Answering
pub mod Kept
pub mod Replies
pub mod Evaluate
pub mod Serve
pub mod Rounds
pub mod Start
pub mod Running
pub mod Watch
pub mod Reply
pub mod Printed
pub mod Workspace
pub mod EndToEnd
pub mod Quiet
pub mod Incoming
mod Tests
mod Scenarios
mod Rest
use dpatch.Prelude.{ℕ, ℤ, Bool, List, [], ◌∷◌, ◌++◌, Option}
use dpatch.Memory.{Bytes}
use dpatch.Net.Connect.{Received}
use dpatch.Stack.{Stack}
use dpatch.Store.{Store}
use dpatch.Protocol.{TokenStream}
use dpatch.Server.{Task, TaskProcess, Spawn}

-- Bytes that went out on a socket, a descriptor that was closed, a line of output of a process.
pub data Effect : Type 0 where
  sent : ℕ → Bytes → Effect
  closed : ℕ → Effect
  logged : Bytes → Bytes → Effect

-- A line that the agent writes into its log about a packet, a reply or a socket: the format with what
-- is printed in it. All are LOG_WARN but `task_queued`, `task_started` and `workspace_used`, which are
-- LOG_INFO.
pub data Report : Type 0 where
  response_failed : ℕ → Report
  invalid_message : Report
  task_missing task_queued task_failed task_started : Option Bytes → Report
  workspace_refused workspace_used : Bytes → Report
  read_failed : ℕ → Report
  incoming_failed : Report

-- `Server` with its connection. `socket` is the listening one; `effects` is the history and `log` the
-- agent's own lines, oldest first.
pub record Server : Type 0 where
  pub socket : ℕ
  pub in_buf : Bytes
  pub out_buf : Bytes
  pub workspace : Bytes
  pub token_stream : TokenStream
  pub client_stack : Stack ℕ
  pub process_store : Store TaskProcess
  pub task_store : Store Task
  pub effects : List Effect
  pub log : List Report

-- One more line of the log.
abbrev pub note : Report → Server → Server
note line server = record server { log = server.log ++ line ∷ [] }

-- What the system answers in one round. `ready` is what `select` leaves of the descriptors, `spawn`
-- and `spawn_queued` answer the launch for a client's packet and for the end of a process.
pub record System : Type 0 where
  pub ready : ℕ → Bool
  pub accepted : ℤ
  pub nonblock_set : Bool
  pub timeouts_set : Bool
  pub send : ℕ → ℕ → Bytes → ℤ
  pub receive : ℕ → Received
  pub waited : ℕ → ℤ
  pub spawn : ℕ → Spawn
  pub spawn_queued : ℕ → Spawn
  pub files : Bytes → Option Bytes
  pub may_read : Bytes → Bool

-- `ClientPacket`; its data is the agent's `in_buf`.
pub record ClientPacket : Type 0 where
  pub socket : ℕ
  pub client : ℕ
  pub len : ℕ
