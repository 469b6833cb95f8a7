-- ===== src/Memory.antt =====
-- Byte buffers: little-endian `int`s, C strings, and the lemmas that place a write between what
-- stands before and behind it.
pub mod Place
pub mod Sizes
use dpatch.Prelude.{
  ℕ, zero, suc, ◌+◌, ◌*◌, ◌/◌, ◌%◌, ◌^◌, ◌<◌, ◌≡◌, ◌==◌, refl, List, [], ◌∷◌, if◌then◌else◌,
}
use dpatch.Exec.{Exec, fault, ret, ◌>>=◌, load, put}

abbrev pub Bytes : Type 0
Bytes = List ℕ

-- `*(int*)(buf + at)`, as the 32-bit pattern.
unfoldable pub read_int : Bytes → ℕ → Exec ℕ
read_int buf at = do
  b0 ← load buf at
  b1 ← load buf (at + 1)
  b2 ← load buf (at + 2)
  b3 ← load buf (at + 3)
  ret (b0 + 0x100 * b1 + 0x10000 * b2 + 0x1000000 * b3)

-- `*(int*)(buf + at) = n`
unfoldable pub write_int : Bytes → ℕ → ℕ → Exec Bytes
write_int buf at n = do
  buf1 ← put buf at (n % 0x100)
  buf2 ← put buf1 (at + 1) (n / 0x100 % 0x100)
  buf3 ← put buf2 (at + 2) (n / 0x10000 % 0x100)
  put buf3 (at + 3) (n / 0x1000000 % 0x100)

-- The C string at `at`: the bytes up to the first zero. `while (buf[at + c] != '\0') c++` leaves
-- its length in `c`, and leaves the buffer if no zero follows.
unfoldable pub string_at : Bytes → ℕ → Exec Bytes
string_at [] at = fault
string_at (b ∷ bs) zero = if b == 0 then ret [] else (do s ← string_at bs zero; ret (b ∷ s))
string_at (b ∷ bs) (suc at) = string_at bs at

-- The copy loop over a C string, with the zero behind it.
unfoldable pub put_string : Bytes → ℕ → Bytes → Exec Bytes
put_string buf at [] = put buf at 0
put_string buf at (b ∷ bs) = do next ← put buf at b; put_string next (at + 1) bs

-- `memset(p, 0, n)` over the first `n` items of an array.
unfoldable pub wipe {ℓ} : {A : Type ℓ} → A → ℕ → List A → Exec (List A)
wipe blank zero xs = ret xs
wipe blank (suc n) [] = fault
wipe blank (suc n) (x ∷ xs) = do rest ← wipe blank n xs; ret (blank ∷ rest)
