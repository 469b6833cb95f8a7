-- ===== src/Protocol/Reply.antt =====
-- A message of one argument, as the agent's replies are: made, sent and read.
use dpatch.Prelude.{
  ℕ, ◌+◌, ◌^◌, ◌<◌, ◌≤◌, ◌≡◌, refl, ap, ◌∙◌, ℤ, pos, List, [], ◌∷◌, ◌++◌, some, length, take, drop,
  arith, length-append, length-take, length-drop, overlay,
}
use dpatch.Exec.{ret}
use dpatch.Memory.{Bytes, wipe}
use dpatch.Memory.Place.{IsText, int_bytes, wipe-overlay}
use dpatch.Net.Transfer.{Takes, Progresses}
use dpatch.Protocol.{
  Token, TokenStream, blank, token_arg, tokenstream_reset, tokenstream_add_token, protocol_read,
}
use dpatch.Protocol.Send.{protocol_send}
use dpatch.Protocol.Encode.{message}
use dpatch.Protocol.Sent.{behind_message, protocol_send-whole}
use dpatch.Protocol.RoundTrip.{frame_length, protocol_read-received}

abbrev pub argument : Bytes → Token
argument text = record { type = token_arg; value = some text }

-- A stream of one argument, with the other slots behind it.
abbrev pub reply : ℕ → Bytes → List Token → TokenStream
reply type text slots = record { type = type; length = 1; tokens = argument text ∷ slots }

-- The bytes that go out: the length field, type, count, the token's type, its text, its zero, and the
-- four bytes behind them.
abbrev pub reply_size : Bytes → ℕ
reply_size text = 18 + length text

-- What goes out of a reply, with four bytes behind the message.
abbrev pub reply_bytes : ℕ → Bytes → Bytes → Bytes
reply_bytes type text tail = int_bytes (reply_size text) ++ (message (reply type text []) ++ tail)

pub length-message :
    (type : ℕ) (text : Bytes) (slots : List Token)
    → length (message (reply type text slots)) ≡ 10 + length text
length-message type text slots =
    omega (arith, length-append (1 ∷ (text ++ 0 ∷ [])) [], length-append text (0 ∷ []))

-- A stream that is reset and given one argument.
pub reply_made :
    (ts : TokenStream) (text : Bytes)
    → ts.length ≤ length ts.tokens
    → 0 < length ts.tokens
    → (cleared : TokenStream) × (slots : List Token) × (tokenstream_reset ts ≡ ret cleared)
      × (tokenstream_add_token cleared token_arg (some text) ≡ ret (reply ts.type text slots))
unfolding tokenstream_reset tokenstream_add_token
reply_made ts text fits room =
    let (ys, e, l, d) = wipe-overlay blank ts.length ts.tokens fits in made ys e (omega arith)
  where
    made :
        (ys : List Token)
        → wipe blank ts.length ts.tokens ≡ ret ys
        → 0 < length ys
        → (cleared : TokenStream) × (slots : List Token) × (tokenstream_reset ts ≡ ret cleared)
          × (tokenstream_add_token cleared token_arg (some text) ≡ ret (reply ts.type text slots))
    made [] e h = absurd (omega arith)
    made (y ∷ ys) e h = (record ts { tokens = y ∷ ys; length = 0 }, ys, rw e refl, ground arith)

module _ (send : ℕ → Bytes → ℤ) (takes : Takes send) (progresses : Progresses send) where
  -- What goes out of a reply over a socket that takes all.
  pub protocol_send-reply :
      (buf : Bytes) (len type : ℕ) (text : Bytes) (slots : List Token)
      → reply_size text ≤ length buf
      → (buf' : Bytes) × (tail : Bytes) × (length tail ≡ 4)
        × (protocol_send send buf len (reply type text slots)
            ≡ ret (
              pos (reply_size text),
              int_bytes (reply_size text) ++ (message (reply type text slots) ++ tail),
              buf',
            ))
  protocol_send-reply buf len type text slots room =
      let ts = reply type text slots in
      let size = length-message type text slots in
      let framed_size : frame_length ts ≡ reply_size text = omega (arith, size) in
      let behind = behind_message ts buf in
      let whole =
        protocol_send-whole send takes progresses ts (omega arith) buf len
          (omega (arith, size, room)) in
      (
        int_bytes (reply_size text) ++ overlay (message ts) (drop 4 buf),
        take 4 behind,
        omega (
          arith,
          length-take 4 behind,
          length-drop (length (message ts)) (drop 4 buf),
          length-drop 4 buf,
          size,
          room,
        ),
        whole
            ∙ ap
                (λ k. ret (
                  pos k,
                  int_bytes k ++ (message ts ++ take 4 behind),
                  int_bytes k ++ overlay (message ts) (drop 4 buf),
                ))
                framed_size,
      )

-- A reply is read from a buffer that starts with what went out.
pub protocol_read-reply :
    (rs : TokenStream) (len type : ℕ) (text : Bytes) (slots : List Token) (post : Bytes)
    → IsText text
    → type < 2 ^ 32
    → reply_size text < 2 ^ 32
    → 0 < length rs.tokens
    → protocol_read
        (int_bytes (reply_size text) ++ (message (reply type text slots) ++ post))
        len
        rs
      ≡ ret (some (reply type text (drop 1 rs.tokens)))
protocol_read-reply rs len type text slots post t ht hw room =
    protocol_read-received (reply type text slots) (omega arith) rs (reply_size text) len post ht
      (omega arith) (omega arith) room hw (t, tt)
