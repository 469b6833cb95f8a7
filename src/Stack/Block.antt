-- ===== src/Stack/Block.antt =====
-- src/stack.h, `stack_reset`, over the bytes of the block that `stack_new` takes from MMALLOC: the
-- header `Stack`, with `count`, `capacity`, `item_size` and `data` as eight bytes each, and the items
-- behind it. The items of the other operations do not show what this one does to the header.
pub mod Reset
use dpatch.Prelude.{ℕ, zero, suc, ◌+◌, ◌*◌, ◌%◌, ◌^◌, Bool, true}
use dpatch.Exec.{Exec, ret, ◌>>=◌, load}
use dpatch.Memory.{Bytes, wipe}

-- A little-endian number of `n` bytes.
unfoldable pub read_bytes : ℕ → Bytes → ℕ → Exec ℕ
read_bytes zero block at = ret 0
read_bytes (suc n) block at = do
  low ← load block at
  high ← read_bytes n block (at + 1)
  ret (low + 0x100 * high)

-- Where the fields of the header start.
abbrev pub count_at : ℕ
count_at = 0

abbrev pub capacity_at : ℕ
capacity_at = 8

abbrev pub item_size_at : ℕ
item_size_at = 16

-- `memset` starts at the header. `s->count = 0` is eight zero bytes at its front.
unfoldable pub stack_reset : Bytes → Exec (Bool × Bytes)
stack_reset block = do
  item_size ← read_bytes 8 block item_size_at
  count ← read_bytes 8 block count_at
  cleared ← wipe 0 (item_size * count % 2 ^ 64) block
  emptied ← wipe 0 8 cleared
  ret (true, emptied)
