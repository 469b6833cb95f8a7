-- ===== src/Log/Lines.antt =====
-- What stands in the log.
use dpatch.Prelude.{
  ℕ, ◌-◌, ◌<◌, ◌≤◌, ◌≡◌, ◌∙◌, refl, sym, ap, inl, inr, Bool-cases, List, [], ◌∷◌, ◌++◌, Option,
  none, some, length, leb, take, take-whole, length-append, length-take, append_assoc, append-nil,
  arith, if◌then◌else◌,
}
use dpatch.Memory.{Bytes}
use dpatch.Log.{
  Level, err, warn, info, debug, trace, rank, color, tag, normal, log_date_max, log_msg_max,
  log_out_max, Log, append_to, log_line, log_print, log_at,
}

-- The date fits its buffer and no message is longer than its own: all of the line is printed.
abbrev pub whole_line : Level → Bytes → Bytes → Bytes
whole_line level date msg =
    color level ++ (date ++ (b' ' ∷ (tag level ++ (normal ++ b' ' ∷ take (log_msg_max - 1) msg))))

length-color : (level : Level) → length (color level) ≡ 5
length-color err = refl
length-color warn = refl
length-color info = refl
length-color debug = refl
length-color trace = refl

length-tag : (level : Level) → length (tag level) ≤ 5
length-tag err = omega arith
length-tag warn = omega arith
length-tag info = omega arith
length-tag debug = omega arith
length-tag trace = omega arith

log_line-whole :
    (level : Level) (date msg : Bytes)
    → length date < log_date_max
    → log_line (color level) date (tag level) msg ≡ whole_line level date msg
log_line-whole level date msg h =
    let text = take (log_msg_max - 1) msg in
    let behind = normal ++ b' ' ∷ text in
    take-whole (log_out_max - 1) (whole_line level date msg) (
      omega (
        arith,
        length-append (color level) (date ++ (b' ' ∷ (tag level ++ behind))),
        length-append date (b' ' ∷ (tag level ++ behind)),
        length-append (tag level) behind,
        length-take (log_msg_max - 1) msg,
        length-color level,
        length-tag level,
        h,
      ))

-- A message with its level and date.
abbrev pub Message : Type 0
Message = Level × Bytes × Bytes

-- The lines of the messages that a LOG_LEVEL lets through.
abbrev pub lines : ℕ → List Message → Bytes
lines log_level [] = []
lines log_level ((level, date, msg) ∷ rest) =
    (if leb (rank level) log_level then whole_line level date msg ++ b'\n' ∷ [] else [])
    ++ lines log_level rest

abbrev pub AllDated : List Message → Type 0
AllDated [] = Unit
AllDated ((level, date, msg) ∷ rest) = (length date < log_date_max) × AllDated rest

-- One call of a macro after the other.
abbrev pub log_all : ℕ → List Message → Log → Log
log_all log_level [] log = log
log_all log_level ((level, date, msg) ∷ rest) log =
    log_all log_level rest (log_at log_level level date msg log)

-- Bytes behind what is on stdout and in the file, if there is one.
abbrev pub extended : Bytes → Log → Log
extended text log = record log { stdout = log.stdout ++ text; output = append_to log.output text }

append_to-append :
    (o : Option Bytes) (x y : Bytes) → append_to (append_to o x) y ≡ append_to o (x ++ y)
append_to-append none x y = refl
append_to-append (some f) x y = ap (λ b. some b) (append_assoc f x y)

append_to-nil : (o : Option Bytes) → append_to o [] ≡ o
append_to-nil none = refl
append_to-nil (some f) = ap (λ b. some b) (append-nil f)

extended-append : (x y : Bytes) (log : Log) → extended y (extended x log) ≡ extended (x ++ y) log
extended-append x y log = cc (append_assoc log.stdout x y, append_to-append log.output x y)

extended-nil : (log : Log) → extended [] log ≡ log
extended-nil log = cc (append-nil log.stdout, append_to-nil log.output)

log_at-extended :
    (log_level : ℕ) (level : Level) (date msg : Bytes) (log : Log)
    → length date < log_date_max
    → log_at log_level level date msg log
      ≡ extended
          (if leb (rank level) log_level then whole_line level date msg ++ b'\n' ∷ [] else [])
          log
unfolding log_at log_print
log_at-extended log_level level date msg log h = elim (Bool-cases (leb (rank level) log_level)) [
  | inl e ↦ rw (e, log_line-whole level date msg h) refl
  | inr e ↦ rw e (sym (extended-nil log))
]

-- Calls of the log's macros, with dates shorter than 32 bytes, put exactly the lines of the
-- messages that LOG_LEVEL lets through on stdout and behind what the log file holds, if there is
-- one; each line has its color, date, tag and message in full, but that a message is cut at 8195
-- bytes.
pub log_all-lines :
    (log_level : ℕ) (messages : List Message) (log : Log)
    → AllDated messages
    → log_all log_level messages log ≡ extended (lines log_level messages) log
log_all-lines log_level [] log h = sym (extended-nil log)
log_all-lines log_level ((level, date, msg) ∷ rest) log (dated, later) =
    let line : Bytes =
      if leb (rank level) log_level then whole_line level date msg ++ b'\n' ∷ [] else [] in
    ap (log_all log_level rest) (log_at-extended log_level level date msg log dated)
    ∙ log_all-lines log_level rest (extended line log) later
    ∙ extended-append line (lines log_level rest) log
