-- ===== src/Protocol/Deliver.antt =====
-- From the sender's stream to the receiver's arguments: `protocol_send`, `protocol_read` and
-- `protocol_parse_token_stream` in a row.
use dpatch.Prelude.{
  ℕ, zero, suc, ◌+◌, ◌-◌, ◌%◌, ◌<◌, ◌≤◌, ◌^◌, ◌≡◌, ◌≢◌, refl, sym, ap, ◌∙◌, List, [], ◌∷◌, ◌++◌,
  length, append-nil, length-append, arith, none, some, Option, drop, overlay, lt→ltb, not_lt→ltb,
  take, replicate, length-replicate, replicate-add, drop-replicate, take-append,
}
use dpatch.Exec.{Exec, ret, ◌>>=◌}
use dpatch.Memory.{Bytes}
use dpatch.Memory.Place.{int_bytes}
use dpatch.Protocol.{
  Token, TokenStream, token_arg, token_var, frame, protocol_read, parse_token_stream,
}
use dpatch.Protocol.Wire.{live, padding, TextOrNull}
use dpatch.Protocol.Encode.{message}
use dpatch.Protocol.Parse.{values_of, parse_token_stream-values}
use dpatch.Protocol.RoundTrip.{
  frame_length, received, length-received, frame-message, protocol_read-received,
}

values_of-append :
    (type : ℕ) (xs ys : List Token)
    → values_of type (xs ++ ys) ≡ values_of type xs ++ values_of type ys
values_of-append type [] ys = refl
values_of-append type (x ∷ xs) ys = ground (arith, values_of-append type xs ys)

values_of-padding : (type n : ℕ) → type ≢ 0 → values_of type (replicate n padding) ≡ []
values_of-padding type zero h = refl
values_of-padding type (suc n) h = ground (arith, values_of-padding type n h)

-- The values of one type that a stream sends.
abbrev pub sent_values : ℕ → TokenStream → List (Option Bytes)
sent_values type ts = values_of type (live (take ts.length ts.tokens))

values_of-received :
    (type : ℕ) (ts : TokenStream) → type ≢ 0 → values_of type (received ts) ≡ sent_values type ts
values_of-received type ts h =
    let sent = live (take ts.length ts.tokens) in
    values_of-append type sent (replicate (ts.length - length sent) padding)
    ∙ ap (◌++◌ (values_of type sent)) (values_of-padding type (ts.length - length sent) h)
    ∙ append-nil (values_of type sent)

-- The receiver reads the framed bytes into its stream `rs` and sorts them into its arrays.
abbrev pub receive :
    TokenStream
    → List (Option Bytes)
    → List (Option Bytes)
    → Option (ℕ × Bytes)
    → Exec (Option (ℕ × List (Option Bytes) × List (Option Bytes)))
receive rs args vars none = ret none
receive rs args vars (some (w, buf)) = protocol_read buf 0 rs >>= elim [
  | none ↦ ret none
  | some got ↦ parse_token_stream got args vars >>= λ split. ret (some split)
]

pub zeros_behind :
    (m n k : ℕ)
    → n + k ≤ m
    → drop {A = ℕ} n (replicate m 0) ≡ replicate k 0 ++ replicate (m - n - k) 0
zeros_behind m n k h =
    let e : m - n ≡ k + (m - n - k) = omega arith in
    drop-replicate {A = ℕ} n m 0 ∙ ap (λ j. replicate j 0) e ∙ replicate-add k (m - n - k) 0

module _ (ts : TokenStream) (within : ts.length ≤ length ts.tokens) where
  -- Zero bytes of a buffer that the message and the NONE tokens behind it take.
  abbrev pub needed : ℕ
  needed =
      let unsent = ts.length - length (live (take ts.length ts.tokens)) in
      length (message ts) + (unsent + unsent)

  -- A framed message in a receiver's buffer, with enough zero bytes behind it, is read and sorted.
  pub receive-framed :
      (rs : TokenStream) (post : Bytes) (args vars : List (Option Bytes))
      → frame_length ts < 2 ^ 32
      → ts.type < 2 ^ 32
      → 0 < ts.length
      → ts.length < 2 ^ 31
      → ts.length ≤ length rs.tokens
      → TextOrNull (take ts.length ts.tokens)
      → length (sent_values token_arg ts) < length args
      → length (sent_values token_var ts) < length vars
      → (size : ℕ)
      → let w = frame_length ts in
        let unsent = ts.length - length (live (take ts.length ts.tokens)) in
        receive rs args vars
          (some (size, int_bytes w ++ (message ts ++ (replicate (unsent + unsent) 0 ++ post))))
        ≡ ret (
            some (
              ts.type % 0x100,
              overlay (sent_values token_arg ts ++ none ∷ []) args,
              overlay (sent_values token_var ts ++ none ∷ []) vars,
            ))
  receive-framed rs post args vars hw ht h0 h31 fits texts ha hv size =
      let w = frame_length ts in
      let got : TokenStream = record {
        type = ts.type;
        length = ts.length;
        tokens = received ts ++ drop ts.length rs.tokens;
      } in
      let n : length (received ts) ≡ ts.length = length-received ts within in
      let first : take ts.length got.tokens ≡ received ts =
        ap (λ k. take k (received ts ++ drop ts.length rs.tokens)) (sym n)
        ∙ take-append (received ts) (drop ts.length rs.tokens) in
      let a : values_of token_arg (take ts.length got.tokens) ≡ sent_values token_arg ts =
        ap (values_of token_arg) first ∙ values_of-received token_arg ts (omega arith) in
      let v : values_of token_var (take ts.length got.tokens) ≡ sent_values token_var ts =
        ap (values_of token_var) first ∙ values_of-received token_var ts (omega arith) in
      let parsed =
        parse_token_stream-values got
          (omega (arith, length-append (received ts) (drop ts.length rs.tokens))) args vars in
      rw (protocol_read-received ts within rs w 0 post ht h0 h31 fits hw texts)
        (rw (parsed, a, v, lt→ltb _ _ ha, lt→ltb _ _ hv))

  -- Over a zeroed buffer with room for the message and two bytes for each token not sent, what
  -- protocol_send frames is read by protocol_read and sorted by protocol_parse_token_stream into
  -- exactly the arguments and the variables that were sent, in order, each list with a NULL behind
  -- it, and the low byte of the type, if both arrays have room for the NULL.
  pub receive-frame :
      (rs : TokenStream) (front : Bytes) (m len : ℕ) (args vars : List (Option Bytes))
      → length front ≡ 4
      → needed ≤ m
      → frame_length ts < 2 ^ 32
      → ts.type < 2 ^ 32
      → 0 < ts.length
      → ts.length < 2 ^ 31
      → ts.length ≤ length rs.tokens
      → TextOrNull (take ts.length ts.tokens)
      → length (sent_values token_arg ts) < length args
      → length (sent_values token_var ts) < length vars
      → (frame (front ++ replicate m 0) len ts >>= receive rs args vars)
        ≡ ret (
            some (
              ts.type % 0x100,
              overlay (sent_values token_arg ts ++ none ∷ []) args,
              overlay (sent_values token_var ts ++ none ∷ []) vars,
            ))
  receive-frame rs front m len args vars four room hw ht h0 h31 fits texts ha hv =
      let unsent = ts.length - length (live (take ts.length ts.tokens)) in
      let post : Bytes = replicate (m - length (message ts) - (unsent + unsent)) 0 in
      rw (frame-message ts within front (replicate m 0) len four) (
        rw
          (not_lt→ltb (length {A = ℕ} (replicate m 0)) (length (message ts))
            (omega (arith, length-replicate {A = ℕ} m 0)))
          (rw (zeros_behind m (length (message ts)) (unsent + unsent) room)
            (receive-framed rs post args vars hw ht h0 h31 fits texts ha hv (frame_length ts))))
