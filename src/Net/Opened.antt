-- ===== src/Net/Opened.antt =====
-- When `connection_init` succeeds, and what it leaves then.
use dpatch.Prelude.{
  ◌≡◌, ◌⊎◌, inl, inr, ◌&&◌, pos, negsuc, Bool, true, false, not, Bool-cases, if◌then◌else◌, arith,
}
use dpatch.Config.{Config, RunMode, runmode_cmd, runmode_server}
use dpatch.Net.Connect.{Connection, Network, is_negative, is_zero, is_some, attach, connection_init}

-- The calls that have to succeed in one of the two modes.
abbrev pub attaches : Network → RunMode → Bool
attaches net runmode_server = not (is_negative net.bind) && not (is_negative net.listen)
attaches net runmode_cmd = not (is_negative net.connect)

-- Every call succeeds and there is memory for the input buffer.
abbrev pub connects : Network → RunMode → Bool
connects net mode =
    not (is_negative net.socket)
    && is_some net.in_granted
    && not (is_negative net.reuse_address)
    && is_zero net.receive_timeout
    && is_zero net.send_timeout
    && attaches net mode

-- The socket and both buffers, as they were given.
abbrev pub opened : Network → Connection
opened net = record { socket = net.socket; in_buf = net.in_granted; out_buf = net.out_granted }

attach-attaches :
    (net : Network) (mode : RunMode)
    → attach net mode ≡ (if attaches net mode then pos 1 else negsuc 0)
unfolding attach
attach-attaches net runmode_server = ground arith
attach-attaches net runmode_cmd = ground arith

-- connection_init returns 1, with the socket and both buffers as they were given, the output
-- buffer unchecked, if the socket and every other call succeed and there is memory for the input
-- buffer, where an agent has to bind and listen and a client to connect; else it returns a
-- negative number.
pub connection_init-opened :
    (net : Network) (config : Config)
    → let mode = config.args.run_mode in
      ((connects net mode ≡ true) × (connection_init net config ≡ (pos 1, opened net)))
      ⊎ ((connects net mode ≡ false) × (is_negative (connection_init net config).0 ≡ true))
unfolding connection_init
connection_init-opened net config =
    let attached = attach-attaches net config.args.run_mode in
    elim (Bool-cases (connects net config.args.run_mode)) [
      | inl e ↦ inl (e, ground (arith, attached, e))
      | inr e ↦ inr (e, ground (arith, attached, e))
    ]
