-- ===== src/Protocol/RoundTrip.antt =====
-- `protocol_send` and `protocol_read` end to end, from one stream to the other.
use dpatch.Prelude.{
  lt→ltb, not_lt→ltb, ℕ, suc, ◌+◌, ◌-◌, ◌%◌, ◌<◌, ◌≤◌, ◌^◌, ◌≡◌, refl, sym, ap, ap₂, ◌∙◌, List, [],
  ◌∷◌, ◌++◌, if◌then◌else◌, length, append_assoc, length-append, arith, none, some, Option, drop,
  overlay, ltb, take, length-take, dec_lt, replicate, length-replicate,
}
use dpatch.Exec.{fault, ret}
use dpatch.Memory.{Bytes}
use dpatch.Memory.Place.{int_bytes, write_int-overlay, read_int-int_bytes}
use dpatch.Protocol.{buf_to_tokenstream, Token, TokenStream, frame, protocol_read}
use dpatch.Protocol.Wire.{
  wires, live, live_cons, padding, TextOrNull, AllText, live-AllText, wires-append, wires-padding,
  AllText-padding, AllText-append,
}
use dpatch.Protocol.Encode.{message, tokenstream_to_buf-message}
use dpatch.Protocol.Decode.{buf_to_tokenstream-wires}

-- The length that `protocol_send` puts in front and sends: four more than the bytes it has written.
abbrev pub frame_length : TokenStream → ℕ
frame_length ts = 4 + length (message ts) + 4

frame-message_four :
    (ts : TokenStream) (a b c d : ℕ) (xs : Bytes) (len : ℕ)
    → ts.length ≤ length ts.tokens
    → frame (a ∷ b ∷ c ∷ d ∷ xs) len ts ≡ (
        if ltb (length xs) (length (message ts))
        then fault
        else ret (some (frame_length ts, int_bytes (frame_length ts) ++ overlay (message ts) xs)))
unfolding frame
frame-message_four ts a b c d xs len within =
    let w = frame_length ts in
    let sent = tokenstream_to_buf-message ts within (a ∷ b ∷ c ∷ d ∷ []) xs len in
    let fronted =
      write_int-overlay [] (a ∷ b ∷ c ∷ d ∷ overlay (message ts) xs) 0 w refl (omega arith) in
    elim (dec_lt (length xs) (length (message ts))) [
      | yes short ↦ rw (sent, lt→ltb _ _ short)
      | no fits ↦ rw (sent, not_lt→ltb _ _ fits) (ground (arith, fronted))
    ]

module _ (ts : TokenStream) (within : ts.length ≤ length ts.tokens) where
  -- protocol_send puts in front of the message, and sends, a length that is four more than the
  -- place behind the message; it overruns a buffer too short for the message.
  pub frame-message :
      (front xs : Bytes) (len : ℕ)
      → length front ≡ 4
      → frame (front ++ xs) len ts ≡ (
          if ltb (length xs) (length (message ts))
          then fault
          else ret (some (frame_length ts, int_bytes (frame_length ts) ++ overlay (message ts) xs)))
  frame-message [] xs len four = absurd (omega arith)
  frame-message (a ∷ []) xs len four = absurd (omega arith)
  frame-message (a ∷ b ∷ []) xs len four = absurd (omega arith)
  frame-message (a ∷ b ∷ c ∷ []) xs len four = absurd (omega arith)
  frame-message (a ∷ b ∷ c ∷ d ∷ []) xs len four = frame-message_four ts a b c d xs len within
  frame-message (a ∷ b ∷ c ∷ d ∷ e ∷ front) xs len four = absurd (omega arith)

-- The tokens that the receiver reads: those sent, and one of type NONE for each that was not.
abbrev pub received : TokenStream → List Token
received ts =
    let sent = live (take ts.length ts.tokens) in
    sent ++ replicate (ts.length - length sent) padding

length-live_cons :
    (type : ℕ) (value : Option Bytes) (ts : List Token)
    → length (live_cons type value ts) ≤ suc (length ts)
length-live_cons type none ts = omega arith
length-live_cons type (some v) ts = ground arith

length-live : (ts : List Token) → length (live ts) ≤ length ts
length-live [] = omega arith
length-live (t ∷ ts) = omega (arith, length-live ts, length-live_cons t.type t.value (live ts))

module _ (ts : TokenStream) (within : ts.length ≤ length ts.tokens) where
  pub length-received : length (received ts) ≡ ts.length
  length-received =
      let sent = live (take ts.length ts.tokens) in
      omega (
        arith,
        length-append sent (replicate (ts.length - length sent) padding),
        length-replicate (ts.length - length sent) padding,
        length-live (take ts.length ts.tokens),
        length-take ts.length ts.tokens,
      )

  -- From a framed message with zero bytes behind it, protocol_read restores the type, the token
  -- count and the tokens that were sent, in order, followed by NONE tokens up to the count,
  -- whatever the stream held before.
  pub protocol_read-received :
      (rs : TokenStream) (w len : ℕ) (post : Bytes)
      → ts.type < 2 ^ 32
      → 0 < ts.length
      → ts.length < 2 ^ 31
      → ts.length ≤ length rs.tokens
      → w < 2 ^ 32
      → TextOrNull (take ts.length ts.tokens)
      → let unsent = ts.length - length (live (take ts.length ts.tokens)) in
        protocol_read
          (int_bytes w ++ (message ts ++ (replicate (unsent + unsent) 0 ++ post)))
          len
          rs
        ≡ ret (
            some (record {
              type = ts.type;
              length = ts.length;
              tokens = received ts ++ drop ts.length rs.tokens;
            }))
  unfolding protocol_read
  protocol_read-received rs w len post ht h0 h31 room hw texts =
      let sent = live (take ts.length ts.tokens) in
      let unsent = ts.length - length sent in
      let toks = received ts in
      let n : length toks ≡ ts.length = length-received in
      let all : AllText toks =
        AllText-append sent (replicate unsent padding)
          (live-AllText (take ts.length ts.tokens) texts) (AllText-padding unsent) in
      let shape : wires toks ++ post ≡ wires sent ++ (replicate (unsent + unsent) 0 ++ post) =
        ap (λ b. b ++ post)
          (wires-append sent (replicate unsent padding)
            ∙ ap (◌++◌ (wires sent)) (wires-padding unsent))
        ∙ append_assoc (wires sent) (replicate (unsent + unsent) 0) post in
      let read =
        buf_to_tokenstream-wires rs (int_bytes w) post ((w + 2 ^ 32 - 4) % 2 ^ 32) ts.type toks ht
          (omega arith) (omega arith) (omega arith) all in
      rw (read_int-int_bytes [] (message ts ++ (replicate (unsent + unsent) 0 ++ post)) 0 w refl hw)
        (ap₂
            (λ k z.
              buf_to_tokenstream (int_bytes w ++ (int_bytes ts.type ++ (int_bytes k ++ z)))
                ((w + 2 ^ 32 - 4) % 2 ^ 32) 4 rs)
            (sym n) (sym shape)
          ∙ read
          ∙ ap
              (λ k.
                ret
                  (some (record { type = ts.type; length = k; tokens = toks ++ drop k rs.tokens })))
              n)
