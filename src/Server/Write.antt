-- ===== src/Server/Write.antt =====
-- `task_write`: where the texts of a task stand in its memory.
use dpatch.Prelude.{
  ℕ, ◌+◌, ◌<◌, ◌≡◌, refl, sym, [], ◌∷◌, ◌++◌, arith, if◌then◌else◌, ltb, lt→ltb, not_lt→ltb, dec_lt,
  length, length-append, length-drop, overlay, drop, append_assoc,
}
use dpatch.Exec.{fault, ret}
use dpatch.Memory.{Bytes}
use dpatch.Memory.Place.{put-append, put_outside, end_written}
use dpatch.Server.{Task, copy_text}
use dpatch.Server.Load.{task_write}
use dpatch.Server.Launch.{copy_text-overlay}

copy_text-fault :
    (pre v xs : Bytes) (at : ℕ)
    → at ≡ length pre
    → length xs < length v
    → copy_text (pre ++ xs) at v ≡ fault
unfolding copy_text
copy_text-fault pre [] xs at e h = absurd (omega arith)
copy_text-fault pre (b ∷ v) [] at e h =
    rw (put_outside pre [] at 0 b (omega arith) (omega arith)) refl
copy_text-fault pre (b ∷ v) (x ∷ xs) at e h =
    rw (put-append pre (x ∷ xs) at 0 b (omega arith) (omega arith)) (
      rw (sym (append_assoc pre (b ∷ []) xs)) (
        copy_text-fault (pre ++ b ∷ []) v xs (at + 1) (omega (arith, length-append pre (b ∷ [])))
          (omega arith)))

-- If its memory has room behind what it holds, task_write puts the value and the end character there,
-- changes nothing else of it, and returns the place of the value; otherwise it overruns the memory.
pub task_write-overlay :
    (task : Task) (pre xs value : Bytes) (end_char : ℕ)
    → task.buf ≡ pre ++ xs
    → task.buf_loc ≡ length pre
    → task_write task value end_char ≡ (
        if ltb (length value) (length xs)
        then ret (
          length pre,
          record task {
            buf = pre ++ overlay (value ++ end_char ∷ []) xs;
            buf_loc = length pre + (length value + 1);
          },
        )
        else fault)
unfolding task_write
task_write-overlay task pre xs value end_char eb el = elim (dec_lt (length value) (length xs)) [
  | yes fits ↦
      let copied = copy_text-overlay pre value xs (length pre) refl (omega arith) in
      let ended = end_written pre value xs (length pre) end_char refl fits in
      simp (eb, el, copied, ended, lt→ltb (length value) (length xs) fits)
  | no over ↦
      let no_room = not_lt→ltb (length value) (length xs) over in
      elim (dec_lt (length xs) (length value)) [
        | yes short ↦
            let failed = copy_text-fault pre value xs (length pre) refl short in
            simp (eb, el, failed, no_room)
        | no enough ↦
            let copied = copy_text-overlay pre value xs (length pre) refl (omega arith) in
            let failed =
              put_outside pre (overlay value xs) (length pre + length value) (length value) end_char
                refl
                (omega (
                  arith,
                  length-append value (drop (length value) xs),
                  length-drop (length value) xs,
                )) in
            simp (eb, el, copied, failed, no_room)
      ]
]
