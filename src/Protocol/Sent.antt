-- ===== src/Protocol/Sent.antt =====
-- All of `protocol_send`, over a socket that takes what it is offered.
use dpatch.Prelude.{
  ℕ, suc, ◌+◌, ◌≤◌, ◌≡◌, refl, sym, ap, ap₂, ◌∙◌, ℤ, pos, ◌++◌, some, length, take, drop, arith,
  length-append, length-take, length-drop, take-add, take-append, drop-append, take-append-drop,
  not_lt→ltb, overlay, replicate, drop-replicate, take-replicate, ◌-◌, if◌then◌else◌,
}
use dpatch.Exec.{fault, ret}
use dpatch.Memory.{Bytes}
use dpatch.Memory.Place.{int_bytes}
use dpatch.Net.Transfer.{Takes, Progresses, socket_send-whole}
use dpatch.Protocol.{TokenStream, frame}
use dpatch.Protocol.Send.{protocol_send}
use dpatch.Protocol.Encode.{message}
use dpatch.Protocol.RoundTrip.{frame_length, frame-message}

-- What a buffer holds behind the message that is written into it.
abbrev pub behind_message : TokenStream → Bytes → Bytes
behind_message ts buf = drop (length (message ts)) (drop 4 buf)

-- In a zeroed buffer these are zeros.
pub behind_message-zeros :
    (ts : TokenStream) (n : ℕ)
    → frame_length ts ≤ n
    → take 4 (behind_message ts (replicate n 0)) ≡ replicate 4 0
behind_message-zeros ts n room =
    ap (λ (b : Bytes). take 4 (drop (length (message ts)) b)) (drop-replicate {A = ℕ} 4 n 0)
    ∙ ap (λ (b : Bytes). take 4 b) (drop-replicate {A = ℕ} (length (message ts)) (n - 4) 0)
    ∙ take-replicate {A = ℕ} 4 (n - 4 - length (message ts)) 0 (omega (arith, room))

module _ (send : ℕ → Bytes → ℤ) (takes : Takes send) (progresses : Progresses send)
    (ts : TokenStream) (within : ts.length ≤ length ts.tokens) (buf : Bytes) (len : ℕ)
    (room : frame_length ts ≤ length buf) where
  filled : Bytes
  filled = int_bytes (frame_length ts) ++ overlay (message ts) (drop 4 buf)

  frame-filled : frame buf len ts ≡ ret (some (frame_length ts, filled))
  unfolding filled
  frame-filled =
      ap (λ b. frame b len ts) (sym (take-append-drop 4 buf))
      ∙ frame-message ts within (take 4 buf) (drop 4 buf) len
          (omega (arith, length-take 4 buf, room))
      ∙ ap (λ b. if b then fault else ret (some (frame_length ts, filled)))
          (not_lt→ltb (length (drop 4 buf)) (length (message ts))
            (omega (arith, length-drop 4 buf, room)))

  length-filled : length filled ≡ length buf
  unfolding filled
  length-filled = omega (
    arith,
    length-append (message ts) (behind_message ts buf),
    length-drop (length (message ts)) (drop 4 buf),
    length-drop 4 buf,
    room,
  )

  take-filled :
      take (frame_length ts) filled
      ≡ int_bytes (frame_length ts) ++ (message ts ++ take 4 (behind_message ts buf))
  unfolding filled
  take-filled =
      let parts : frame_length ts ≡ suc (suc (suc (suc (length (message ts) + 4)))) = omega arith in
      ap (λ k. take k (int_bytes (frame_length ts) ++ overlay (message ts) (drop 4 buf))) parts
      ∙ ap (◌++◌ (int_bytes (frame_length ts))) (
          take-add (length (message ts)) 4 (overlay (message ts) (drop 4 buf))
          ∙ ap₂ (λ l r. l ++ take 4 r) (take-append (message ts) (behind_message ts buf))
              (drop-append (message ts) (behind_message ts buf)))

  -- Over a socket that takes all, protocol_send with room for its message sends the length, the
  -- message and the four bytes behind it, and returns their number.
  pub protocol_send-whole :
      protocol_send send buf len ts
      ≡ ret (
        pos (frame_length ts),
        int_bytes (frame_length ts) ++ (message ts ++ take 4 (behind_message ts buf)),
        int_bytes (frame_length ts) ++ overlay (message ts) (drop 4 buf),
      )
  unfolding protocol_send filled
  protocol_send-whole =
      let long = length-filled in
      rw
        (
          frame-filled,
          not_lt→ltb (length filled) (frame_length ts) (omega (arith, long, room)),
          socket_send-whole send takes filled (frame_length ts) progresses
              (omega (arith, long, room)),
          take-filled,
        )
        refl
