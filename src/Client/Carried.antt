-- ===== src/Client/Carried.antt =====
-- A token stream from the client's buffer over a socket into the agent's buffer, which
-- `connection_init_set` has cleared.
use dpatch.Prelude.{
  ℕ, ◌+◌, ◌-◌, ◌%◌, ◌<◌, ◌≤◌, ◌^◌, ◌≡◌, refl, sym, ap, ◌∙◌, ℤ, List, [], ◌∷◌, ◌++◌, length,
  length-append, append_assoc, arith, none, some, Option, overlay, take, replicate,
  length-replicate, replicate-add, drop-replicate,
}
use dpatch.Exec.{Exec, ret, ◌>>=◌}
use dpatch.Memory.{Bytes}
use dpatch.Memory.Place.{int_bytes}
use dpatch.Net.Transfer.{Takes, Progresses}
use dpatch.Protocol.{TokenStream, token_arg, token_var}
use dpatch.Protocol.Wire.{live, TextOrNull}
use dpatch.Protocol.Encode.{message}
use dpatch.Protocol.Send.{protocol_send}
use dpatch.Protocol.Sent.{behind_message-zeros, protocol_send-whole}
use dpatch.Protocol.RoundTrip.{frame_length}
use dpatch.Protocol.Deliver.{receive, receive-framed, sent_values, needed}
use dpatch.Server.{copy_text}
use dpatch.Server.Launch.{copy_text-overlay}

-- The agent reads the bytes of a socket into its cleared buffer of `m` bytes, and sorts the tokens.
abbrev pub hear :
    ℕ
    → TokenStream
    → List (Option Bytes)
    → List (Option Bytes)
    → Bytes
    → Exec (Option (ℕ × List (Option Bytes) × List (Option Bytes)))
hear m rs args vars got =
    copy_text (replicate m 0) 0 got >>= λ buf. receive rs args vars (some (length got, buf))

module _ (send : ℕ → Bytes → ℤ) (takes : Takes send) (progresses : Progresses send)
    (ts : TokenStream) (within : ts.length ≤ length ts.tokens) where
  -- What is in the agent's buffer behind the bytes that were sent from a zeroed buffer.
  heard_buffer :
      (m : ℕ)
      → frame_length ts ≤ m
      → needed ts within + 4 ≤ m
      → let w = frame_length ts in
        let unsent = ts.length - length (live (take ts.length ts.tokens)) in
        copy_text (replicate m 0) 0 (int_bytes w ++ (message ts ++ replicate 4 0))
        ≡ ret (
            int_bytes w
            ++ (message ts
                ++ (replicate (unsent + unsent) 0
                    ++ replicate (m - 4 - length (message ts) - (unsent + unsent)) 0)))
  heard_buffer m fits room =
      let w = frame_length ts in
      let unsent = ts.length - length (live (take ts.length ts.tokens)) in
      let out = int_bytes w ++ (message ts ++ replicate 4 0) in
      let size : length out ≡ w = omega (arith, length-append (message ts) (replicate 4 0)) in
      let behind : replicate {A = ℕ} 4 0 ++ replicate (m - length out) 0
          ≡ replicate (unsent + unsent) 0
            ++ replicate (m - 4 - length (message ts) - (unsent + unsent)) 0 =
        sym (replicate-add 4 (m - length out) 0)
        ∙ ap (λ k. replicate k 0) (omega (arith, size, room, fits))
        ∙ replicate-add (unsent + unsent) (m - 4 - length (message ts) - (unsent + unsent)) 0 in
      copy_text-overlay [] out (replicate m 0) 0 refl
        (omega (arith, size, fits, length-replicate {A = ℕ} m 0))
      ∙ ap (λ (b : Bytes). ret (out ++ b)) (drop-replicate {A = ℕ} (length out) m 0)
      ∙ ap (λ (b : Bytes). ret (int_bytes w ++ b))
          (append_assoc (message ts) (replicate 4 0) (replicate (m - length out) 0)
            ∙ ap (◌++◌ (message ts)) behind)

  -- A stream that is sent from a zeroed buffer over a socket that takes all is read and sorted.
  pub hear-protocol_send :
      (rs : TokenStream) (n m len : ℕ) (args vars : List (Option Bytes))
      → frame_length ts ≤ n
      → frame_length ts ≤ m
      → needed ts within + 4 ≤ m
      → frame_length ts < 2 ^ 32
      → ts.type < 2 ^ 32
      → 0 < ts.length
      → ts.length < 2 ^ 31
      → ts.length ≤ length rs.tokens
      → TextOrNull (take ts.length ts.tokens)
      → length (sent_values token_arg ts) < length args
      → length (sent_values token_var ts) < length vars
      → (protocol_send send (replicate n 0) len ts >>= λ sent. hear m rs args vars sent.1)
        ≡ ret (
            some (
              ts.type % 0x100,
              overlay (sent_values token_arg ts ++ none ∷ []) args,
              overlay (sent_values token_var ts ++ none ∷ []) vars,
            ))
  hear-protocol_send rs n m len args vars can_send can_hear room hw ht h0 h31 fits texts ha hv =
      let unsent = ts.length - length (live (take ts.length ts.tokens)) in
      let sent =
        protocol_send-whole send takes progresses ts within (replicate n 0) len
          (omega (arith, can_send, length-replicate {A = ℕ} n 0)) in
      let out = int_bytes (frame_length ts) ++ (message ts ++ replicate 4 0) in
      rw (sent, behind_message-zeros ts n can_send, heard_buffer m can_hear room)
        (receive-framed ts within rs (replicate (m - 4 - length (message ts) - (unsent + unsent)) 0)
          args vars hw ht h0 h31 fits texts ha hv (length out))
