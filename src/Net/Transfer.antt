-- ===== src/Net/Transfer.antt =====
-- What `socket_send` puts on the wire and where `socket_read` puts what it gets.
use dpatch.Prelude.{
  ℕ, zero, suc, ◌+◌, ◌-◌, ◌≤◌, ◌<◌, ◌≡◌, ◌⊎◌, inl, inr, refl, sym, ap, ap₂, ◌∙◌, ℤ, pos, negsuc, [],
  ◌++◌, length, take, drop, take-add, take-take, append_assoc, append-nil, length-take, length-drop,
  le→leb, not_le→leb, arith, dec_lt,
}
use dpatch.Memory.{Bytes}
use dpatch.Net.{send_from, socket_send}

-- `send` takes no more bytes than it is offered.
abbrev pub Takes : (ℕ → Bytes → ℤ) → Type 0
Takes send = (k : ℕ) (bytes : Bytes) (s : ℕ) → send k bytes ≡ pos s → s ≤ length bytes

-- The socket takes a byte at least of each offer.
abbrev pub Progresses : (ℕ → Bytes → ℤ) → Type 0
Progresses send =
    (k : ℕ) (bytes : Bytes) → 0 < length bytes → (s : ℕ) × (send k bytes ≡ pos (suc s))

pub ℤ-cases : (a : ℤ) → (a ≡ pos 0) ⊎ ((s : ℕ) × (a ≡ pos (suc s))) ⊎ ((s : ℕ) × (a ≡ negsuc s))
ℤ-cases (pos zero) = inl refl
ℤ-cases (pos (suc s)) = inr (inl (s, refl))
ℤ-cases (negsuc s) = inr (inr (s, refl))

-- What went out from `sent` on continues the prefix of the buffer up to the count.
abbrev pub Continues : Bytes → ℕ → ℕ → ℕ × Bytes → Type 0
Continues buf size sent (total, out) =
    (sent ≤ total) × (total ≤ size) × (take sent buf ++ out ≡ take total buf)

module _ (send : ℕ → Bytes → ℤ) (takes : Takes send) where
  nothing-Continues :
      (buf : Bytes) (size sent : ℕ) → sent ≤ size → Continues buf size sent (sent, [])
  nothing-Continues buf size sent h = (omega arith, h, append-nil (take sent buf))

  send_from-Continues :
      (n k : ℕ) (buf : Bytes) (size sent : ℕ)
      → size ≤ length buf
      → sent ≤ size
      → Continues buf size sent (send_from send n k buf size sent)
  unfolding send_from
  send_from-Continues zero k buf size sent long h = nothing-Continues buf size sent h
  send_from-Continues (suc n) k buf size sent long h =
      let offered = take (size - sent) (drop sent buf) in
      elim (dec_lt sent size) [
        | no full ↦ rw (le→leb size sent (omega arith)) (nothing-Continues buf size sent h)
        | yes more ↦ rw (not_le→leb size sent (omega arith)) (elim (ℤ-cases (send k offered)) [
          | inl e ↦ rw e (nothing-Continues buf size sent h)
          | inr (inr (s, e)) ↦ rw e (nothing-Continues buf size sent h)
          | inr (inl (s, e)) ↦
              let fits = takes k offered (suc s) e in
              let size_offered : length offered ≡ size - sent =
                omega (arith, length-take (size - sent) (drop sent buf), length-drop sent buf) in
              let (total, out) = send_from send n (k + 1) buf size (sent + suc s) in
              let (from, within, prefix) =
                send_from-Continues n (k + 1) buf size (sent + suc s) long (omega arith) in
              rw e (
                omega arith,
                within,
                sym (append_assoc (take sent buf) (take (suc s) offered) out)
                    ∙ ap (λ front. front ++ out)
                        (ap (◌++◌ (take sent buf))
                            (take-take (suc s) (size - sent) (drop sent buf) (omega arith))
                          ∙ sym (take-add sent (suc s) buf))
                    ∙ prefix,
              )
        ])
      ]

  -- Over a send that takes no more than it is offered, socket_send of a buffer of at least the
  -- size given returns a count up to the size, and what went out is the prefix of the buffer of
  -- that length.
  pub socket_send-prefix :
      (buf : Bytes) (size : ℕ)
      → size ≤ length buf
      → let (total, out) = socket_send send buf size in (total ≤ size) × (out ≡ take total buf)
  unfolding socket_send
  socket_send-prefix buf size long =
      let (from, within, prefix) = send_from-Continues size 0 buf size 0 long (omega arith) in
      (within, prefix)

  send_from-whole :
      (n k : ℕ) (buf : Bytes) (size sent : ℕ)
      → Progresses send
      → size ≤ length buf
      → sent ≤ size
      → size ≤ sent + n
      → (send_from send n k buf size sent).0 ≡ size
  unfolding send_from
  send_from-whole zero k buf size sent p long h enough = omega arith
  send_from-whole (suc n) k buf size sent p long h enough =
      let offered = take (size - sent) (drop sent buf) in
      elim (dec_lt sent size) [
        | no full ↦ rw (le→leb size sent (omega arith)) (omega arith)
        | yes more ↦
            let size_offered : length offered ≡ size - sent =
              omega (arith, length-take (size - sent) (drop sent buf), length-drop sent buf) in
            let (s, e) = p k offered (omega arith) in
            let fits = takes k offered (suc s) e in
            rw (not_le→leb size sent (omega arith), e)
              (send_from-whole n (k + 1) buf size (sent + suc s) p long (omega arith) (omega arith))
      ]

  -- Over a send that takes a byte at least of each offer and no more than it is offered,
  -- socket_send of a buffer of at least the size given sends exactly that many bytes of it, in
  -- order.
  pub socket_send-whole :
      (buf : Bytes) (size : ℕ)
      → Progresses send
      → size ≤ length buf
      → socket_send send buf size ≡ (size, take size buf)
  unfolding socket_send
  socket_send-whole buf size p long =
      let (within, prefix) = socket_send-prefix buf size long in
      let all = send_from-whole size 0 buf size 0 p long (omega arith) (omega arith) in
      ap₂ (λ (n : ℕ) (out : Bytes). (n, out)) all (prefix ∙ ap (λ n. take n buf) all)
