-- ===== src/Ini/Tests.antt =====
-- Workspace files, and the laws at them. The handler keeps what it is given.
use dpatch.Prelude.{◌≡◌, refl, true, List, [], ◌∷◌, ◌++◌, none, some, arith, replicate}
use dpatch.Exec.{Exec, fault, ret}
use dpatch.Memory.{Bytes, put_string, string_at}
use dpatch.Ini.{IniParseState, startline, value, ini_ok, ini_null, ini_parse, parse_line}
use dpatch.Ini.Entry.{IsTrimmed, entry, stored}
use dpatch.Ini.Parsed.{parse_line-entry}
use dpatch.Ini.Print.{IsEntry}
use dpatch.Ini.RoundTrip.{ini_parse-print_entries}
use dpatch.Ini.Comment.{parse_line-comment}

abbrev keep :
    List (Bytes × Bytes × Bytes) → Bytes → Bytes → Bytes → Exec (List (Bytes × Bytes × Bytes))
keep calls named keyed valued = ret (calls ++ (named, keyed, valued) ∷ [])

-- [a]
-- c = x
--   y
abbrev file : Bytes
file =
    b'[' ∷ b'a' ∷ b']' ∷ b'\n' ∷ b'c' ∷ b' ' ∷ b'=' ∷ b' ' ∷ b'x' ∷ b'\n' ∷ b' ' ∷ b' ' ∷ b'y'
    ∷ b'\n' ∷ []

parsed :
    ini_parse keep (some file) []
    ≡ ret (ini_ok, (b'a' ∷ [], b'c' ∷ [], b'x' ∷ b'\n' ∷ b'y' ∷ []) ∷ [])
unfolding ini_parse put_string string_at
parsed = refl

missing : ini_parse keep none [] ≡ ret (ini_null, [])
unfolding ini_parse put_string string_at
missing = refl

-- A comment behind a value leaves the buffer.
commented : ini_parse keep (some (b'c' ∷ b'=' ∷ b'x' ∷ b'\n' ∷ b'#' ∷ b'\n' ∷ [])) [] ≡ fault
unfolding ini_parse put_string string_at
commented = refl

abbrev in_comment : IniParseState (List (Bytes × Bytes × Bytes))
in_comment = record {
  buf = b'#' ∷ b'!' ∷ b'\n' ∷ 0 ∷ [];
  value_loc = 1024;
  save_loc = 0;
  mode = startline;
  user_data = [];
}

parse_line-comment_example : parse_line keep in_comment ≡ ret (true, in_comment)
parse_line-comment_example = parse_line-comment keep startline (b'!' ∷ b'\n' ∷ 0 ∷ []) 1024 0 []

-- ab = xy
abbrev name-IsTrimmed : IsTrimmed (b'a' ∷ b'b' ∷ [])
name-IsTrimmed = record {
  first = b'a';
  rest = b'b' ∷ [];
  front = b'a' ∷ [];
  last = b'b';
  starts = refl;
  ends = refl;
  first_shows = refl;
  last_shows = refl;
}

abbrev text-IsTrimmed : IsTrimmed (b'x' ∷ b'y' ∷ [])
text-IsTrimmed = record {
  first = b'x';
  rest = b'y' ∷ [];
  front = b'x' ∷ [];
  last = b'y';
  starts = refl;
  ends = refl;
  first_shows = refl;
  last_shows = refl;
}

abbrev entry_areas : Bytes → Bytes → Bytes
entry_areas keys values =
    entry (b'a' ∷ b'b' ∷ []) (b' ' ∷ []) (b' ' ∷ []) (b'x' ∷ b'y' ∷ []) (b'\n' ∷ [])
      (replicate 759 0 ++ (keys ++ values))

abbrev in_entry : IniParseState (List (Bytes × Bytes × Bytes))
in_entry = record {
  buf = entry_areas (replicate 256 0) (replicate 1024 0);
  value_loc = 1024;
  save_loc = 0;
  mode = startline;
  user_data = [];
}

parse_line-entry_example :
    parse_line keep in_entry
    ≡ ret (
      true,
      record {
        buf =
            entry_areas
              (stored (b'a' ∷ b'b' ∷ []) (replicate 256 0))
              (stored (b'x' ∷ b'y' ∷ []) (replicate 1024 0));
        value_loc = 1026;
        save_loc = 4;
        mode = value;
        user_data = [];
      },
    )
parse_line-entry_example =
    parse_line-entry keep (b'a' ∷ b'b' ∷ []) (b' ' ∷ []) (b' ' ∷ []) (b'x' ∷ b'y' ∷ []) (b'\n' ∷ [])
      (replicate 759 0) (replicate 256 0) (replicate 1024 0) name-IsTrimmed text-IsTrimmed
      (refl, tt) (refl, tt) (refl, tt) (refl, refl, (refl, refl, (refl, refl, tt)))
      (refl, tt, (refl, tt, (refl, tt, (refl, tt, tt)))) refl refl (omega arith) (omega arith)
      in_entry [] refl refl refl refl

abbrev ab_xy : Bytes × Bytes
ab_xy = (b'a' ∷ b'b' ∷ [], b'x' ∷ b'y' ∷ [])

ab_xy-IsEntry : IsEntry ab_xy
ab_xy-IsEntry = record {
  name_trimmed = name-IsTrimmed;
  text_trimmed = text-IsTrimmed;
  no_section = refl;
  no_comment = refl;
  name_plain = (refl, refl, (refl, refl, tt));
  text_plain = (refl, tt, (refl, tt, tt));
  one_line = (refl, (refl, (refl, (refl, (refl, tt)))));
  fits = omega arith;
  name_fits = omega arith;
}

ini_parse-print_entries_example :
    ini_parse keep
      (some
        (b'a' ∷ b'b' ∷ b'=' ∷ b'x' ∷ b'y' ∷ b'\n' ∷ b'a' ∷ b'b' ∷ b'=' ∷ b'x' ∷ b'y' ∷ b'\n' ∷ []))
      []
    ≡ ret (ini_ok, ([], ab_xy.0, ab_xy.1) ∷ ([], ab_xy.0, ab_xy.1) ∷ [])
ini_parse-print_entries_example =
    ini_parse-print_entries keep (ab_xy ∷ ab_xy ∷ []) []
      (([], ab_xy.0, ab_xy.1) ∷ ([], ab_xy.0, ab_xy.1) ∷ []) (ab_xy-IsEntry, (ab_xy-IsEntry, tt))
      refl
