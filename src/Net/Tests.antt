-- ===== src/Net/Tests.antt =====
-- A socket that takes three bytes at a time.
use dpatch.Prelude.{
  ℕ, zero, suc, ◌≡◌, refl, ℤ, pos, min, [], ◌∷◌, length, arith, negsuc, some, none, true, false,
  ◌⊎◌,
}
use dpatch.Memory.{Bytes}
use dpatch.Config.{Config, config_default_settings, runmode_server}
use dpatch.Net.Connect.{Network, connection_init, is_negative}
use dpatch.Net.Opened.{opened, connection_init-opened}
use dpatch.Net.{socket_send, socket_read}
use dpatch.Net.Transfer.{Takes, Progresses, socket_send-whole}

abbrev three : ℕ → Bytes → ℤ
three k bytes = pos (min 3 (length bytes))

three-Takes : Takes three
three-Takes k bytes s e = ground arith

three-Progresses : Progresses three
three-Progresses k [] h = absurd (omega arith)
three-Progresses k (a ∷ []) h = (0, refl)
three-Progresses k (a ∷ b ∷ []) h = (1, refl)
three-Progresses k (a ∷ b ∷ c ∷ rest) h = (2, ground arith)

abbrev seven : Bytes
seven = 1 ∷ 2 ∷ 3 ∷ 4 ∷ 5 ∷ 6 ∷ 7 ∷ []

socket_send-whole_example : socket_send three seven 7 ≡ (7, seven)
socket_send-whole_example =
    socket_send-whole three three-Takes seven 7 three-Progresses (omega arith)

-- A peer that closes after two answers.
abbrev closing : ℕ → ℕ → Bytes
closing zero n = 8 ∷ 8 ∷ []
closing (suc zero) n = 9 ∷ []
closing (suc (suc k)) n = []

closed_early : socket_read closing seven 7 ≡ (3, 8 ∷ 8 ∷ 9 ∷ 4 ∷ 5 ∷ 6 ∷ 7 ∷ [])
unfolding socket_read
closed_early = refl

-- An agent's connection for which there is no output buffer.
abbrev half_open : Network
half_open = record {
  in_granted = some (0 ∷ 0 ∷ []);
  out_granted = none;
  socket = pos 3;
  reuse_address = pos 0;
  receive_timeout = pos 0;
  send_timeout = pos 0;
  bind = pos 0;
  listen = pos 0;
  connect = negsuc 0;
}

abbrev config : Config
config = record {
  args = record {
    run_mode = runmode_server;
    mode_detached = false;
    help = false;
    quiet = false;
    watch_path = none;
    ws_file = none;
    log_file = none;
    port = pos 9999;
    arg_indices = [];
    arg_count = 0;
  };
  settings = config_default_settings;
}

connection_init-opened_example :
    ((true ≡ true) × (connection_init half_open config ≡ (pos 1, opened half_open)))
    ⊎ ((true ≡ false) × (is_negative (connection_init half_open config).0 ≡ true))
connection_init-opened_example = connection_init-opened half_open config
