-- ===== src/Main/Tests.antt =====
-- `dpatch -h`
use dpatch.Prelude.{
  ℕ, ◌≡◌, ◌⊎◌, refl, pos, negsuc, true, false, List, [], ◌∷◌, Option, none, some, replicate,
  length-replicate,
}
use dpatch.Exec.{ret}
use dpatch.Memory.{Bytes}
use dpatch.Config.{Config, config_init, config_default_settings}
use dpatch.Arena.{Arena, arena_init}
use dpatch.Log.{Log}
use dpatch.Net.Connect.{Network, failed}
use dpatch.Client.Run.{Exchange}
use dpatch.Agent.Start.{Tables}
use dpatch.Agent.Running.{Fits}
use dpatch.Main.{exited, World, main, alloc_page_size, alloc_page_count}
use dpatch.Main.Modes.{Started, main-Started}

abbrev net : Network
net = record {
  in_granted = some (replicate 1024 0);
  out_granted = some (replicate 1024 0);
  socket = pos 3;
  reuse_address = pos 0;
  receive_timeout = pos 0;
  send_timeout = pos 0;
  bind = pos 0;
  listen = pos 0;
  connect = negsuc 0;
}

abbrev tables : Tables
tables = record {
  workspace = some (replicate 256 0);
  stream_granted = true;
  stream_type = 0;
  clients_granted = true;
  clients = replicate 30 0;
  processes_granted = true;
  open_processes = replicate 5 0;
  tasks_granted = true;
  open_tasks = replicate 5 0;
}

fits : Fits net tables config_default_settings
fits = record {
  in_size = length-replicate {A = ℕ} 1024 0;
  out_size = length-replicate {A = ℕ} 1024 0;
  workspace_size = length-replicate {A = ℕ} 256 0;
  clients_size = length-replicate {A = ℕ} 30 0;
  processes_size = length-replicate {A = ℕ} 5 0;
  tasks_size = length-replicate {A = ℕ} 5 0;
}

abbrev silent : Exchange
silent = record { net = net; send = λ k offered. negsuc 0; polled = negsuc 0; received = failed }

abbrev world : World
world = record {
  granted = λ i. true;
  atoi = λ text. pos 0;
  config_granted = true;
  indices = some (0 ∷ 0 ∷ []);
  log_opens = true;
  network = net;
  tables = tables;
  rounds = [];
  answers = record {
    stream_granted = true;
    stream_type = 0;
    inotify = negsuc 0;
    watch = negsuc 0;
    rounds = [];
    once = silent;
  };
}

abbrev argv : List (Option Bytes)
argv = some (b'd' ∷ []) ∷ some (b'-' ∷ b'h' ∷ []) ∷ none ∷ []

abbrev quiet_log : Log
quiet_log = record { output = none; stdout = [] }

abbrev pages : Arena
pages =
    record { size = 65536; current = 0; eom = false; region = replicate 65536 0 }
    ∷ record { size = 65536; current = 0; eom = true; region = replicate 65536 0 }
    ∷ []

helped : main world 2 argv quiet_log ≡ ret (exited (pos 1), pages, quiet_log)
unfolding main
helped = refl

refused :
    main (record world { config_granted = false }) 2 argv quiet_log
    ≡ ret (exited (pos 1), pages, quiet_log)
unfolding main
refused = refl

main-Started_example :
    ((arena_init (λ i. true) alloc_page_size alloc_page_count true ≡ none)
      × (exited (pos 1) ≡ exited (negsuc 0)))
    ⊎ ((config_init world.atoi true world.indices 2 argv ≡ ret none)
        × (exited (pos 1) ≡ exited (pos 1)))
    ⊎ ((config : Config) × (config_init world.atoi true world.indices 2 argv ≡ ret (some config))
        × Started world config (exited (pos 1)))
main-Started_example = main-Started world 2 argv quiet_log fits helped
