-- ===== src/Main.antt =====
-- src/main.c: from the command line to the agent or the client. The signal handlers besides `finish`
-- only print.
pub mod Modes
mod Tests
use dpatch.Prelude.{
  ℕ, ℤ, pos, negsuc, Bool, true, false, List, [], Option, none, some, if◌then◌else◌,
}
use dpatch.Exec.{Exec, ret, ◌>>=◌}
use dpatch.Memory.{Bytes}
use dpatch.Config.{Config, RunMode, runmode_cmd, runmode_server, config_init}
use dpatch.Arena.{Arena, arena_init, arena_free}
use dpatch.Log.{Log, log_init, log_close}
use dpatch.Net.Connect.{Network}
use dpatch.Client.Run.{Client, Answers, run_cmd}
use dpatch.Agent.{Server, System}
use dpatch.Agent.Start.{Tables, run_as_server}

-- ALLOC_PAGE_SIZE
abbrev pub alloc_page_size : ℕ
alloc_page_size = 65536

-- ALLOC_PAGE_COUNT
abbrev pub alloc_page_count : ℤ
alloc_page_count = pos 2

-- What the process has come to: its exit code, or it still runs.
pub data State : Type 0 where
  exited : ℤ → State
  serving : Server → State
  watching : Client → State

-- What the system answers. `atoi` is that of the C library, and `indices` stands in the fresh memory
-- for the words of the command line, if there is any.
pub record World : Type 0 where
  pub granted : ℕ → Bool
  pub atoi : Bytes → ℤ
  pub config_granted : Bool
  pub indices : Option (List ℕ)
  pub log_opens : Bool
  pub network : Network
  pub tables : Tables
  pub rounds : List System
  pub answers : Answers

-- `finish`: what is left of the arena and the log, and the exit.
unfoldable pub finish : ℤ → Arena → Log → State × Arena × Log
unfolding arena_free log_close
finish sig arena log = (exited sig, (arena_free arena).1, log_close log)

-- The client's result, as long as its watch does not go on.
unfoldable pub main_cmd :
    World → Config → List (Option Bytes) → Arena → Log → Exec (State × Arena × Log)
unfolding run_cmd finish
main_cmd world config argv arena log = do
  (ok, printed, client) ← run_cmd config argv world.answers
  if ok
      then ret (elim config.args.watch_path [
        | none ↦ finish (pos 0) arena log
        | some path ↦ elim client [
          | none ↦ finish (pos 0) arena log
          | some c ↦ (watching c, arena, log)
        ]
      ])
      else ret (finish (negsuc 0) arena log)

unfoldable pub main_server : World → Config → Arena → Log → Exec (State × Arena × Log)
unfolding run_as_server finish
main_server world config arena log = do
  started ← run_as_server world.network world.tables config world.rounds
  ret (elim started [
    | none ↦ finish (negsuc 0) arena log
    | some server ↦ (serving server, arena, log)
  ])

-- `switch (config->args.run_mode)`
unfoldable pub main_mode :
    RunMode → World → Config → List (Option Bytes) → Arena → Log → Exec (State × Arena × Log)
unfolding main_cmd main_server
main_mode runmode_server world config argv arena log = main_server world config arena log
main_mode runmode_cmd world config argv arena log = main_cmd world config argv arena log

-- Behind the arena and the command line.
unfoldable pub main_configured :
    World → Config → List (Option Bytes) → Arena → Log → Exec (State × Arena × Log)
unfolding log_init main_mode
main_configured world config argv arena log =
    let log1 = (log_init world.log_opens config.args.log_file log).1 in
    if config.args.help
    then ret (exited (pos 1), arena, log1)
    else main_mode config.args.run_mode world config argv arena log1

-- A failure to open the log file does not end the process; a failure to make the arena does, and
-- one to allocate the configuration, which exits with EXIT_FAILURE. The help is printed with the
-- log left open.
unfoldable pub main : World → ℕ → List (Option Bytes) → Log → Exec (State × Arena × Log)
unfolding arena_init config_init main_configured
main world argc argv log = elim (arena_init world.granted alloc_page_size alloc_page_count true) [
  | none ↦ ret (exited (negsuc 0), [], log)
  | some arena ↦ (do
    configured ← config_init world.atoi world.config_granted world.indices argc argv
    elim configured [
      | none ↦ ret (exited (pos 1), arena, log)
      | some config ↦ main_configured world config argv arena log
    ])
]
