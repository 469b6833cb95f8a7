-- ===== src/Log/Tests.antt =====
-- Two messages, of which LOG_LEVEL 3 prints one.
use dpatch.Prelude.{◌≡◌, [], ◌∷◌, some, arith, ascii}
use dpatch.Memory.{Bytes}
use dpatch.Log.{Log, warn, trace}
use dpatch.Log.Lines.{log_all, lines, extended, log_all-lines}

abbrev date : Bytes
date = ascii "2020/01/01 10:00:00"

abbrev empty : Log
empty = record { output = some []; stdout = [] }

log_all-lines_example :
    log_all 3 ((warn, date, ascii "late") ∷ (trace, date, ascii "in") ∷ []) empty
    ≡ extended (lines 3 ((warn, date, ascii "late") ∷ (trace, date, ascii "in") ∷ [])) empty
log_all-lines_example =
    log_all-lines 3 ((warn, date, ascii "late") ∷ (trace, date, ascii "in") ∷ []) empty
      (omega arith, (omega arith, tt))
