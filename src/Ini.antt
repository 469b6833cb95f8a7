-- ===== src/Ini.antt =====
-- src/ini.h: the parser of workspace files, a machine over one buffer of 2048 bytes. The four areas of
-- the buffer follow each other, so a place is an offset from its start. `end` of the source is the
-- last byte of a range; here `stop` is the byte behind it. The handler is a function on its data.
mod Tests
pub mod Fuel
pub mod Comment
pub mod Trim
pub mod Scan
pub mod Entry
pub mod Parsed
pub mod Print
pub mod Owed
pub mod RoundTrip
use dpatch.Prelude.{
  ℕ, zero, suc, ◌+◌, ◌-◌, ◌==◌, ◌||◌, ◌&&◌, Bool, true, false, not, List, [], ◌∷◌, Option, none,
  some, ltb, leb, if◌then◌else◌, length, replicate,
}
use dpatch.Exec.{Exec, fault, ret, ◌>>=◌, load, put}
use dpatch.Memory.{Bytes, string_at, put_string}

abbrev pub buf_size : ℕ
buf_size = 2048

abbrev pub line_buf_size : ℕ
line_buf_size = 512

-- Where `state.section`, `state.key` and `state.value` point into the buffer.
abbrev pub section_at : ℕ
section_at = 512

abbrev pub key_at : ℕ
key_at = 768

abbrev pub value_at : ℕ
value_at = 1024

pub data IniRetCode : Type 0 where
  ini_ok ini_null ini_invalid : IniRetCode

pub data IniParseMode : Type 0 where
  startline section key value multiline handle : IniParseMode

-- `mode == PARSEMODE_VALUE`
abbrev pub in_value : IniParseMode → Bool
in_value startline = false
in_value section = false
in_value key = false
in_value value = true
in_value multiline = false
in_value handle = false

-- `mode == PARSEMODE_MULTILINE`
abbrev pub in_multiline : IniParseMode → Bool
in_multiline startline = false
in_multiline section = false
in_multiline key = false
in_multiline value = false
in_multiline multiline = true
in_multiline handle = false

-- `buf` is the memory behind the four pointers, `value_loc` an offset into it, and `user_data`
-- what the handler keeps behind `data`.
pub record IniParseState {ℓ} (D : Type ℓ) : Type ℓ where
  pub buf : Bytes
  pub value_loc : ℕ
  pub save_loc : ℕ
  pub mode : IniParseMode
  pub user_data : D

abbrev pub is_space : ℕ → Bool
is_space c = c == b' ' || c == b'\t'

-- The first loop of `trim_start_end`: the first byte from `start` on that is no space.
unfoldable pub trim_start : Bytes → ℕ → Exec ℕ
trim_start [] start = fault
trim_start (c ∷ cs) zero = if is_space c then (do n ← trim_start cs zero; ret (suc n)) else ret zero
trim_start (c ∷ cs) (suc start) = do n ← trim_start cs start; ret (suc n)

-- The second loop, with the byte looked at in front of `stop`; in front of 0 it leaves the buffer.
unfoldable pub trim_end : Bytes → ℕ → Exec ℕ
trim_end buf zero = fault
trim_end buf (suc stop) = do
  c ← load buf stop
  if is_space c || c == b'\n' then trim_end buf stop else ret (suc stop)

unfoldable pub trim_start_end : Bytes → ℕ → ℕ → Exec (ℕ × ℕ)
unfolding trim_start trim_end
trim_start_end buf start stop = do
  start' ← trim_start buf start
  stop' ← trim_end buf stop
  ret (start', stop')

-- The loop of `copy_to_buf` with `n` bytes left.
unfoldable pub copy_bytes : ℕ → Bytes → ℕ → ℕ → Exec Bytes
copy_bytes zero buf i i2 = ret buf
copy_bytes (suc n) buf i i2 = do
  c ← load buf i
  buf' ← put buf i2 c
  copy_bytes n buf' (i + 1) (i2 + 1)

-- `base` is `out_buf` and `out` the place `out_buf + out_loc`. Returns the place behind the copy,
-- which is in front of `out` if the range is turned around.
unfoldable pub copy_to_buf : Bytes → ℕ → ℕ → ℕ → ℕ → Exec (ℕ × Bytes)
unfolding copy_bytes
copy_to_buf buf start stop base out = do
  (out', parted) ←
      if ltb base out then (do buf' ← put buf out b'\n'; ret (out + 1, buf')) else ret (out, buf)
  copied ← copy_bytes (stop - start) parted start out'
  if ltb (out' + stop) start
      then fault
      else (do ended ← put copied (out' + stop - start) 0; ret (out' + stop - start, ended))

unfoldable pub copy_trimmed_to_buf : Bytes → ℕ → ℕ → ℕ → ℕ → Exec (ℕ × Bytes)
unfolding trim_start_end copy_to_buf
copy_trimmed_to_buf buf start stop base out = do
  (start', stop') ← trim_start_end buf start stop
  copy_to_buf buf start' stop' base out

-- How a round of the loop of `parse_line` ends: with the next byte, or with a break, after which
-- the status is INI_OK or INI_INVALID.
pub data Round : Type 0 where
  next stop invalid : Round

module _ {ℓ} {D : Type ℓ} (handler : D → Bytes → Bytes → Bytes → Exec D) where
  -- `handler(data, state->section, state->key, state->value)`
  unfoldable pub call_handler : IniParseState D → Exec (IniParseState D)
  call_handler s = do
    named ← string_at s.buf section_at
    keyed ← string_at s.buf key_at
    valued ← string_at s.buf value_at
    kept ← handler s.user_data named keyed valued
    ret (record s { user_data = kept })

  -- The cases on the first byte of a line that is no space.
  abbrev pub start_entry : IniParseState D → ℕ → Round × IniParseState D
  start_entry s c =
      if c == b'\n'
      then (
        stop,
        if in_multiline s.mode
            then s
            else record s { mode = startline; save_loc = 0; value_loc = value_at },
      )
      else if c == b'['
      then (next, record s { mode = section; save_loc = 1; value_loc = value_at })
      else if c == b'#'
      then (stop, s)
      else (next, record s { mode = key; save_loc = 0; value_loc = value_at })

  unfoldable pub first_char : IniParseState D → ℕ → Exec (Round × IniParseState D)
  unfolding call_handler
  first_char s c =
      if is_space c
      then (if in_value s.mode
          then ret (next, record s { mode = multiline; save_loc = 1 })
          else ret (invalid, s))
      else (do
        handled ← if in_value s.mode then call_handler s else ret s
        ret (start_entry handled c))

  abbrev pub in_mode : IniParseMode → IniParseState D → ℕ → ℕ → Exec (IniParseState D)
  in_mode startline s i c = ret s
  in_mode section s i c =
      if c == b']'
      then (do
        (loc, buf) ← copy_trimmed_to_buf s.buf s.save_loc i section_at section_at
        ret (record s { buf = buf; mode = startline; save_loc = 0 }))
      else ret s
  in_mode key s i c =
      if c == b'='
      then (do
        (loc, buf) ← copy_trimmed_to_buf s.buf 0 i key_at key_at
        ret (record s { buf = buf; mode = value; save_loc = i + 1 }))
      else ret s
  in_mode value s i c = ret s
  in_mode multiline s i c =
      if is_space c then ret (record s { save_loc = i }) else ret (record s { mode = value })
  in_mode handle s i c = ret s

  unfoldable pub next_char : IniParseState D → ℕ → ℕ → Exec (IniParseState D)
  unfolding copy_trimmed_to_buf
  next_char s i c = in_mode s.mode s i c

  -- The loop of `parse_line` at byte `i`, with `n` bytes of the buffer left from there. Returns
  -- whether the status is INI_OK, where the loop ended, and the state.
  unfoldable pub scan : ℕ → ℕ → IniParseState D → Exec (Bool × ℕ × IniParseState D)
  unfolding first_char next_char
  scan zero i s = fault
  scan (suc n) i s = do
    c ← load s.buf i
    if c == 0 then ret (true, i, s) else (do
      (round, s') ← if i == 0 then first_char s c else (do s'' ← next_char s i c; ret (next, s''))
      elim round [
        | next ↦ scan n (i + 1) s'
        | stop ↦ ret (true, i, s')
        | invalid ↦ ret (false, i, s')
      ])

  -- `true` is INI_OK and `false` INI_INVALID.
  unfoldable pub parse_line : IniParseState D → Exec (Bool × IniParseState D)
  unfolding scan copy_trimmed_to_buf
  parse_line s = do
    (ok, i, s') ← scan (length s.buf) 0 s
    if ok && in_value s'.mode
        then (do
          (loc, buf) ← copy_trimmed_to_buf s'.buf s'.save_loc i value_at s'.value_loc
          ret (ok, record s' { buf = buf; value_loc = loc }))
        else ret (ok, s')

-- The bytes that `fgets` takes of a file, up to `n` or a newline, and the rest of the file.
abbrev pub split_line : ℕ → Bytes → Bytes × Bytes
split_line zero file = ([], file)
split_line (suc n) [] = ([], [])
split_line (suc n) (c ∷ cs) =
    let (line, rest) = split_line n cs in if c == b'\n' then (c ∷ [], cs) else (c ∷ line, rest)

-- `fgets(state.line, INI_LINE_BUF_SIZE, fp)` leaves room for the zero behind the line.
unfoldable pub fgets : Bytes → Bytes × Bytes
fgets file = split_line (line_buf_size - 1) file

module _ {ℓ} {D : Type ℓ} (handler : D → Bytes → Bytes → Bytes → Exec D) where
  -- The loop of `ini_parse` over what is left of the file, for at most `n` lines.
  unfoldable pub parse_lines : ℕ → Bytes → IniParseState D → Exec (Bool × IniParseState D)
  unfolding parse_line fgets
  parse_lines zero file s = ret (true, s)
  parse_lines (suc n) [] s = ret (true, s)
  parse_lines (suc n) (c ∷ cs) s =
      let (line, rest) = fgets (c ∷ cs) in
      (do
        buf ← put_string s.buf 0 line
        (ok, s') ← parse_line handler (record s { buf = buf })
        if ok then parse_lines n rest s' else ret (false, s'))

  -- `none` is the file that could not be opened. A line takes at least one byte, so there are no
  -- more lines than bytes.
  unfoldable pub ini_parse : Option Bytes → D → Exec (IniRetCode × D)
  unfolding parse_lines call_handler
  ini_parse none user_data = ret (ini_null, user_data)
  ini_parse (some file) user_data = do
    (ok, s) ← parse_lines (length file) file (record {
      buf = replicate buf_size 0;
      value_loc = value_at;
      save_loc = 0;
      mode = startline;
      user_data = user_data;
    })
    if ok
        then (do
          s' ← if in_value s.mode then call_handler handler s else ret s
          ret (ini_ok, s'.user_data))
        else ret (ini_invalid, s.user_data)
