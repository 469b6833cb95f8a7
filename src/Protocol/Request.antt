-- ===== src/Protocol/Request.antt =====
-- A command of one word behind its name, as the client sends it and the agent reads it: the count
-- includes a slot that is never filled.
use dpatch.Prelude.{
  ℕ, ◌+◌, ◌^◌, ◌<◌, ◌≤◌, ◌≡◌, ap, ap₂, ◌∙◌, ℤ, pos, List, [], ◌∷◌, ◌++◌, some, length, take, drop,
  replicate, length-replicate, arith, length-append, append_assoc, overlay,
}
use dpatch.Exec.{ret}
use dpatch.Memory.{Bytes}
use dpatch.Memory.Place.{IsText, int_bytes}
use dpatch.Net.Transfer.{Takes, Progresses}
use dpatch.Protocol.{Token, TokenStream, blank, protocol_read}
use dpatch.Protocol.Send.{protocol_send}
use dpatch.Protocol.Wire.{padding}
use dpatch.Protocol.Encode.{message}
use dpatch.Protocol.RoundTrip.{frame_length, protocol_read-received}
use dpatch.Protocol.Sent.{behind_message, behind_message-zeros, protocol_send-whole}
use dpatch.Protocol.Reply.{argument}

-- The client's stream, and the agent's after the read.
abbrev pub request : ℕ → Bytes → List Token → TokenStream
request type text slots = record { type = type; length = 2; tokens = blank ∷ argument text ∷ slots }

abbrev pub requested : ℕ → Bytes → List Token → TokenStream
requested type text slots = record {
  type = type;
  length = 2;
  tokens = argument text ∷ padding ∷ slots;
}

abbrev pub request_size : Bytes → ℕ
request_size text = 18 + length text

-- What goes out, from a buffer of zero bytes.
abbrev pub request_bytes : ℕ → Bytes → Bytes
request_bytes type text =
    int_bytes (request_size text) ++ (message (request type text []) ++ replicate 4 0)

length-message :
    (type : ℕ) (text : Bytes) (slots : List Token)
    → length (message (request type text slots)) ≡ 10 + length text
length-message type text slots =
    omega (arith, length-append (1 ∷ (text ++ 0 ∷ [])) [], length-append text (0 ∷ []))

pub length-request_bytes :
    (type : ℕ) (text : Bytes) → length (request_bytes type text) ≡ request_size text
length-request_bytes type text = omega (
  arith,
  length-append (message (request type text [])) (replicate 4 0),
  length-message type text [],
)

module _ (send : ℕ → Bytes → ℤ) (takes : Takes send) (progresses : Progresses send) where
  pub protocol_send-request :
      (n len type : ℕ) (text : Bytes) (slots : List Token)
      → request_size text ≤ n
      → (buf : Bytes) × (protocol_send send (replicate n 0) len (request type text slots)
          ≡ ret (pos (request_size text), request_bytes type text, buf))
  protocol_send-request n len type text slots room =
      let ts = request type text slots in
      let size = length-message type text slots in
      let zeros = length-replicate {A = ℕ} n 0 in
      let whole =
        protocol_send-whole send takes progresses ts (omega arith) (replicate n 0) len
          (omega (arith, size, room, zeros)) in
      let behind : take 4 (behind_message ts (replicate n 0)) ≡ replicate 4 0 =
        behind_message-zeros ts n (omega (arith, size, room)) in
      let framed_size : frame_length ts ≡ request_size text = omega (arith, size) in
      (
        int_bytes (request_size text) ++ overlay (message ts) (drop 4 (replicate n 0)),
        whole
            ∙ ap₂
                (λ k (b : Bytes). ret (
                  pos k,
                  int_bytes k ++ (message ts ++ b),
                  int_bytes k ++ overlay (message ts) (drop 4 (replicate n 0)),
                ))
                framed_size behind,
      )

-- The bytes of a request with zero bytes behind them are read as the word and an empty token.
pub protocol_read-request :
    (rs : TokenStream) (len type : ℕ) (text : Bytes) (k : ℕ)
    → IsText text
    → type < 2 ^ 32
    → request_size text < 2 ^ 32
    → 2 ≤ length rs.tokens
    → protocol_read (request_bytes type text ++ replicate k 0) len rs
      ≡ ret (some (requested type text (drop 2 rs.tokens)))
protocol_read-request rs len type text k t ht hw room =
    let ts = request type text [] in
    let shape : request_bytes type text ++ replicate k 0
        ≡ int_bytes (request_size text)
          ++ (message ts ++ (replicate 2 0 ++ (replicate 2 0 ++ replicate k 0))) =
      ap (λ (b : Bytes). int_bytes (request_size text) ++ b)
        (append_assoc (message ts) (replicate 4 0) (replicate k 0)) in
    ap (λ (b : Bytes). protocol_read b len rs) shape
    ∙ protocol_read-received ts (omega arith) rs (request_size text) len
        (replicate 2 0 ++ replicate k 0) ht (omega arith) (omega arith) room hw (tt, (t, tt))
