-- ===== src/Stack/Block/Reset.antt =====
-- What `stack_reset` of src/stack.h clears, byte by byte, and what that leaves of the header.
use Prim.Native.Nat.{max}
use dpatch.Prelude.{
  ℕ, zero, suc, ◌+◌, ◌*◌, ◌%◌, ◌^◌, ◌<◌, ◌≤◌, ◌≡◌, refl, ap, true, List, [], ◌∷◌, ◌++◌, length,
  drop, replicate, arith,
}
use dpatch.Exec.{ret, load}
use dpatch.Memory.{Bytes, wipe}
use dpatch.Stack.Block.{read_bytes, count_at, capacity_at, item_size_at, stack_reset}

-- An array of which the first `n` items have become `blank`.
abbrev pub blanked {ℓ} : {A : Type ℓ} → A → ℕ → List A → List A
blanked blank n xs = replicate n blank ++ drop n xs

wipe-blanked {ℓ} :
    {A : Type ℓ} (blank : A) (n : ℕ) (xs : List A)
    → n ≤ length xs
    → wipe blank n xs ≡ ret (blanked blank n xs)
unfolding wipe
wipe-blanked blank zero xs h = refl
wipe-blanked blank (suc n) [] h = absurd (omega arith)
wipe-blanked blank (suc n) (x ∷ xs) h = rw (wipe-blanked blank n xs (omega arith))

length-blanked {ℓ} :
    {A : Type ℓ} (blank : A) (n : ℕ) (xs : List A)
    → n ≤ length xs
    → length (blanked blank n xs) ≡ length xs
length-blanked blank zero xs h = refl
length-blanked blank (suc n) [] h = absurd (omega arith)
length-blanked blank (suc n) (x ∷ xs) h = ap suc (length-blanked blank n xs (omega arith))

blanked-blanked {ℓ} :
    {A : Type ℓ} (blank : A) (m n : ℕ) (xs : List A)
    → n ≤ length xs
    → blanked blank m (blanked blank n xs) ≡ blanked blank (max m n) xs
blanked-blanked blank zero n xs h = let e : max zero n ≡ n = omega arith in rw e
blanked-blanked blank (suc m) zero xs h = let e : max (suc m) zero ≡ suc m = omega arith in rw e
blanked-blanked blank (suc m) (suc n) [] h = absurd (omega arith)
blanked-blanked blank (suc m) (suc n) (x ∷ xs) h =
    let e : max (suc m) (suc n) ≡ suc (max m n) = omega arith in
    rw e (ap (◌∷◌ blank) (blanked-blanked blank m n xs (omega arith)))

load-replicate {ℓ} :
    {A : Type ℓ} (n at : ℕ) (a : A) (xs : List A) → at < n → load (replicate n a ++ xs) at ≡ ret a
load-replicate zero at a xs h = absurd (omega arith)
load-replicate (suc n) zero a xs h = refl
load-replicate (suc n) (suc at) a xs h = load-replicate n at a xs (omega arith)

read_bytes-blanked :
    (width m at : ℕ) (block : Bytes)
    → at + width ≤ m
    → read_bytes width (blanked 0 m block) at ≡ ret 0
unfolding read_bytes
read_bytes-blanked zero m at block h = refl
read_bytes-blanked (suc width) m at block h = rw (
  load-replicate m at 0 (drop m block) (omega arith),
  read_bytes-blanked width m (at + 1) block (omega arith),
)

-- On a block of fewer than 2^64 bytes from which count and item_size can be read, and which has at
-- least as many bytes as the items in use take, and at least eight, stack_reset returns 1 and has
-- made zero exactly the first bytes of the block, from the header on: as many as the items in use
-- take, and eight at least; every byte behind these is as it was.
pub stack_reset-blanked :
    (block : Bytes) (count item_size : ℕ)
    → read_bytes 8 block count_at ≡ ret count
    → read_bytes 8 block item_size_at ≡ ret item_size
    → 8 ≤ length block
    → item_size * count ≤ length block
    → length block < 2 ^ 64
    → stack_reset block ≡ ret (true, blanked 0 (max 8 (item_size * count)) block)
unfolding stack_reset
stack_reset-blanked block count item_size c i header items small =
    let whole : item_size * count % 2 ^ 64 ≡ item_size * count = omega arith in
    let room : 8 ≤ length (blanked 0 (item_size * count) block) =
      omega (arith, length-blanked 0 (item_size * count) block items) in
    rw (
      i,
      c,
      whole,
      wipe-blanked 0 (item_size * count) block items,
      wipe-blanked 0 8 (blanked 0 (item_size * count) block) room,
      blanked-blanked 0 8 (item_size * count) block items,
    )

-- After a reset of sixteen bytes of items or more the capacity is 0.
stack_reset-no_capacity :
    (block : Bytes) (count item_size : ℕ)
    → read_bytes 8 block count_at ≡ ret count
    → read_bytes 8 block item_size_at ≡ ret item_size
    → 16 ≤ item_size * count
    → item_size * count ≤ length block
    → length block < 2 ^ 64
    → (after : Bytes) × (stack_reset block ≡ ret (true, after))
      × (read_bytes 8 after capacity_at ≡ ret 0)
stack_reset-no_capacity block count item_size c i many items small =
    let covered : capacity_at + 8 ≤ max 8 (item_size * count) = omega arith in
    (
      blanked 0 (max 8 (item_size * count)) block,
      stack_reset-blanked block count item_size c i (omega arith) items small,
      read_bytes-blanked 8 (max 8 (item_size * count)) capacity_at block covered,
    )
