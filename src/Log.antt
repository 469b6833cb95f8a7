-- ===== src/Log.antt =====
-- src/log.h: the lines of the log, on stdout and in the log file. The date is an argument, what
-- `strftime` has written.
pub mod Lines
mod Tests
use dpatch.Prelude.{
  ℕ, ◌-◌, ◌≡◌, ℤ, pos, negsuc, Bool, true, false, List, [], ◌∷◌, ◌++◌, Option, none, some, leb,
  if◌then◌else◌, take, ascii,
}
use dpatch.Memory.{Bytes}

abbrev pub log_msg_max : ℕ
log_msg_max = 8196

abbrev pub log_date_max : ℕ
log_date_max = 32

-- LOG_OUT_MAX
abbrev pub log_out_max : ℕ
log_out_max = 8260

-- The five macros, in the order of LOG_LEVEL.
pub data Level : Type 0 where
  err warn info debug trace : Level

abbrev pub rank : Level → ℕ
rank err = 1
rank warn = 2
rank info = 3
rank debug = 4
rank trace = 5

abbrev pub color : Level → Bytes
color err = 27 ∷ ascii "[31m"
color warn = 27 ∷ ascii "[33m"
color info = 27 ∷ ascii "[32m"
color debug = 27 ∷ ascii "[36m"
color trace = 27 ∷ ascii "[37m"

abbrev pub tag : Level → Bytes
tag err = ascii "ERROR"
tag warn = ascii "WARN"
tag info = ascii "INFO"
tag debug = ascii "DEBUG"
tag trace = ascii "TRACE"

-- LOG_CLR_NORMAL
abbrev pub normal : Bytes
normal = 27 ∷ ascii "[0m"

-- `output` is what has been written to `__log_output_fd`, `none` while that is NULL.
pub record Log : Type 0 where
  pub output : Option Bytes
  pub stdout : Bytes

-- `opens` says whether `fopen` succeeds; the file is then empty.
unfoldable pub log_init : Bool → Option Bytes → Log → ℤ × Log
log_init opens none log = (pos 0, log)
log_init opens (some path) log =
    if opens
    then (pos 0, record log { output = some [] })
    else (negsuc 0, record log { output = none })

unfoldable pub log_close : Log → Log
log_close log = record log { output = none }

-- The two buffers of `log__print`, cut where `vsnprintf` and `snprintf` cut. `msg` is the message with
-- its arguments formatted into it.
abbrev pub log_line : Bytes → Bytes → Bytes → Bytes → Bytes
log_line clr date tag_text msg =
    take (log_out_max - 1)
      (clr ++ (date ++ (b' ' ∷ (tag_text ++ (normal ++ b' ' ∷ take (log_msg_max - 1) msg)))))

-- A line for the log file, if there is one.
abbrev pub append_to : Option Bytes → Bytes → Option Bytes
append_to none line = none
append_to (some written) line = some (written ++ line)

unfoldable pub log_print : Bytes → Bytes → Bytes → Bytes → Log → Log
log_print clr tag_text date msg log =
    let line = log_line clr date tag_text msg ++ b'\n' ∷ [] in
    record log { stdout = log.stdout ++ line; output = append_to log.output line }

-- The macro of a level under a LOG_LEVEL.
unfoldable pub log_at : ℕ → Level → Bytes → Bytes → Log → Log
unfolding log_print
log_at log_level level date msg log =
    if leb (rank level) log_level then log_print (color level) (tag level) date msg log else log
