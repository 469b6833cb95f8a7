-- ===== src/Protocol/Encode.antt =====
-- `protocol_tokenstream_to_buf` writes exactly the wire format, and overruns a buffer that is too
-- short for it.
use dpatch.Prelude.{
  take-append-drop, ltb, ap₂, ℕ, suc, ◌+◌, ◌<◌, ◌≤◌, ◌≡◌, ◌==◌, refl, sym, ap, ◌∙◌, List, [], ◌∷◌,
  ◌++◌, if◌then◌else◌, inl, inr, length, append_assoc, length-append, arith, none, some, Option,
  drop, overlay, overlay-append, drop-drop, length-drop, Bool-cases, take, length-take, dec_lt,
}
use dpatch.Exec.{fault, ret}
use dpatch.Memory.{Bytes}
use dpatch.Memory.Place.{
  int_bytes, load-append, put-append, put_outside, write_int-overlay, put_string-overlay,
  put_string-fault, write_int-fault,
}
use dpatch.Protocol.{Token, TokenStream, token_none, write_token, write_tokens, tokenstream_to_buf}
use dpatch.Protocol.Wire.{wire, wires, live, live_cons}

-- The bytes of one token, by the test that the loop makes.
abbrev sent : Token → Bytes
sent t = if t.type == token_none then [] else wire t

wires-live_cons :
    (type : ℕ) (value : Option Bytes) (ts : List Token)
    → wires (live_cons type value ts) ≡ sent (record { type = type; value = value }) ++ wires ts
wires-live_cons type none ts = ground arith
wires-live_cons type (some v) ts = ground arith

write_token-overlay :
    (type : ℕ) (value : Option Bytes) (pre xs : Bytes) (at : ℕ)
    → let t : Token = record { type = type; value = value } in
      at ≡ length pre
      → length (sent t) ≤ length xs
      → write_token t (pre ++ xs) at ≡ ret (at + length (sent t), pre ++ overlay (sent t) xs)
unfolding write_token
write_token-overlay type none pre xs at e h = ground arith
write_token-overlay type (some v) pre [] at e h = ground arith
write_token-overlay type (some v) pre (x ∷ xs) at e h = elim (Bool-cases (type == token_none)) [
  | inl skip ↦ ground arith
  | inr sends ↦
      let room : length v < length xs = ground (arith, length-append v (0 ∷ [])) in
      ground (
        arith,
        put-append pre (x ∷ xs) at 0 type (omega arith) (omega arith),
        append_assoc pre (type ∷ []) xs,
        put_string-overlay (pre ++ type ∷ []) v xs (at + 1)
            (omega (arith, length-append pre (type ∷ []))) room,
        append_assoc pre (type ∷ []) (overlay (v ++ 0 ∷ []) xs),
        length-append v (0 ∷ []),
      )
]

write_token-fault :
    (type : ℕ) (value : Option Bytes) (pre xs : Bytes) (at : ℕ)
    → let t : Token = record { type = type; value = value } in
      at ≡ length pre → length xs < length (sent t) → write_token t (pre ++ xs) at ≡ fault
unfolding write_token
write_token-fault type none pre xs at e h = ground arith
write_token-fault type (some v) pre [] at e h = elim (Bool-cases (type == token_none)) [
  | inl skip ↦ absurd (ground arith)
  | inr sends ↦ ground (arith, put_outside pre [] at 0 type (omega arith) (omega arith))
]
write_token-fault type (some v) pre (x ∷ xs) at e h = elim (Bool-cases (type == token_none)) [
  | inl skip ↦ absurd (ground arith)
  | inr sends ↦
      let short : length xs ≤ length v = ground (arith, length-append v (0 ∷ [])) in
      ground (
        arith,
        put-append pre (x ∷ xs) at 0 type (omega arith) (omega arith),
        append_assoc pre (type ∷ []) xs,
        put_string-fault (pre ++ type ∷ []) v xs (at + 1)
            (omega (arith, length-append pre (type ∷ []))) short,
      )
]

write_token-sent :
    (t : Token) (pre xs : Bytes) (at : ℕ)
    → at ≡ length pre
    → length (sent t) ≤ length xs
    → write_token t (pre ++ xs) at ≡ ret (at + length (sent t), pre ++ overlay (sent t) xs)
write_token-sent t = write_token-overlay t.type t.value

write_token-short :
    (t : Token) (pre xs : Bytes) (at : ℕ)
    → at ≡ length pre
    → length xs < length (sent t)
    → write_token t (pre ++ xs) at ≡ fault
write_token-short t = write_token-fault t.type t.value

-- The loop from token `i` on: the tokens before it are `done`, the bytes before `at` are `pre`.
write_tokens-overlay :
    (rest done more : List Token) (pre xs : Bytes) (i at : ℕ)
    → i ≡ length done
    → at ≡ length pre
    → length (wires (live rest)) ≤ length xs
    → write_tokens (length rest) i (done ++ (rest ++ more)) (pre ++ xs) at
      ≡ ret (at + length (wires (live rest)), pre ++ overlay (wires (live rest)) xs)
unfolding write_tokens
write_tokens-overlay [] done more pre xs i at ei e h = ground arith
write_tokens-overlay (t ∷ ts) done more pre xs i at ei e h =
    let s = sent t in
    let w = wires (live ts) in
    let split : wires (live (t ∷ ts)) ≡ s ++ w = wires-live_cons t.type t.value (live ts) in
    let fits : length s + length w ≤ length xs =
      omega (arith, ap length split, length-append s w) in
    let rest = drop (length s) xs in
    let now =
      write_tokens-overlay ts (done ++ t ∷ []) more (pre ++ s) rest (i + 1) (at + length s)
        (omega (arith, length-append done (t ∷ []))) (omega (arith, length-append pre s))
        (omega (arith, length-drop (length s) xs)) in
    rw split (
      rw (load-append done (t ∷ (ts ++ more)) i 0 (omega arith)) (
        rw (write_token-sent t pre xs at e (omega arith)) (
          rw (sym (append_assoc pre s rest)) (
            rw (sym (append_assoc done (t ∷ []) (ts ++ more))) (
              now
              ∙ ap₂ (λ n (b : Bytes). ret (n, b)) (omega (arith, length-append s w))
                  (append_assoc pre s (overlay w rest)
                    ∙ ap (◌++◌ pre) (sym (overlay-append s w xs))))))))

write_tokens-fault :
    (rest done more : List Token) (pre xs : Bytes) (i at : ℕ)
    → i ≡ length done
    → at ≡ length pre
    → length xs < length (wires (live rest))
    → write_tokens (length rest) i (done ++ (rest ++ more)) (pre ++ xs) at ≡ fault
unfolding write_tokens
write_tokens-fault [] done more pre xs i at ei e h = absurd (omega arith)
write_tokens-fault (t ∷ ts) done more pre xs i at ei e h =
    let s = sent t in
    let w = wires (live ts) in
    let split : wires (live (t ∷ ts)) ≡ s ++ w = wires-live_cons t.type t.value (live ts) in
    let long : length xs < length s + length w =
      omega (arith, ap length split, length-append s w) in
    rw (load-append done (t ∷ (ts ++ more)) i 0 (omega arith))
      (elim (dec_lt (length xs) (length s)) [
        | yes short ↦ rw (write_token-short t pre xs at e short)
        | no fits ↦
            let rest = drop (length s) xs in
            rw (write_token-sent t pre xs at e (omega arith)) (
              rw (sym (append_assoc pre s rest)) (
                rw (sym (append_assoc done (t ∷ []) (ts ++ more))) (
                  write_tokens-fault ts (done ++ t ∷ []) more (pre ++ s) rest (i + 1)
                    (at + length s) (omega (arith, length-append done (t ∷ [])))
                    (omega (arith, length-append pre s))
                    (omega (arith, length-drop (length s) xs)))))
      ])

-- What is put on the wire for a stream: its type, its token count, and the tokens to send.
abbrev pub message : TokenStream → Bytes
message ts = int_bytes ts.type ++ (int_bytes ts.length ++ wires (live (take ts.length ts.tokens)))

-- The bytes behind two fields of four bytes and `w`.
behind_header :
    (pre t n w xs : Bytes)
    → (pre ++ t) ++ n ++ overlay w (drop 4 (drop 4 xs))
      ≡ pre
        ++ (t ++ (n ++ (w ++ drop (suc (suc (suc (suc (suc (suc (suc (suc (length w))))))))) xs)))
behind_header pre t n w xs =
    let k : 4 + (4 + length w) ≡ suc (suc (suc (suc (suc (suc (suc (suc (length w)))))))) =
      omega arith in
    append_assoc (pre ++ t) n (overlay w (drop 4 (drop 4 xs)))
    ∙ append_assoc pre t (n ++ overlay w (drop 4 (drop 4 xs)))
    ∙ ap (λ d. pre ++ (t ++ (n ++ (w ++ d))))
        (drop-drop (length w) 4 (drop 4 xs) ∙ drop-drop (4 + length w) 4 xs ∙ ap (λ j. drop j xs) k)

module _ (ts : TokenStream) (within : ts.length ≤ length ts.tokens) where
  -- The loop over the whole stream, behind its header.
  all_tokens :
      (pre xs : Bytes) (at : ℕ)
      → at ≡ length pre
      → write_tokens ts.length 0 ts.tokens (pre ++ xs) at ≡ (
          if ltb (length xs) (length (wires (live (take ts.length ts.tokens))))
          then fault
          else ret (
            at + length (wires (live (take ts.length ts.tokens))),
            pre ++ overlay (wires (live (take ts.length ts.tokens))) xs,
          ))
  all_tokens pre xs at e =
      let rest = take ts.length ts.tokens in
      let more = drop ts.length ts.tokens in
      let count : length rest ≡ ts.length = omega (arith, length-take ts.length ts.tokens) in
      elim (dec_lt (length xs) (length (wires (live rest)))) [
        | yes short ↦ ground (
          arith,
          write_tokens-fault rest [] more pre xs 0 at refl e short,
          count,
          take-append-drop ts.length ts.tokens,
        )
        | no fits ↦ ground (
          arith,
          write_tokens-overlay rest [] more pre xs 0 at refl e (omega arith),
          count,
          take-append-drop ts.length ts.tokens,
        )
      ]

  -- protocol_tokenstream_to_buf writes exactly the type, the token count and each token that has a
  -- type and a value, behind what stands before, and returns the place behind them; a buffer too
  -- short for that is overrun, and no other is.
  pub tokenstream_to_buf-message :
      (pre xs : Bytes) (len : ℕ)
      → tokenstream_to_buf ts (pre ++ xs) len (length pre) ≡ (
          if ltb (length xs) (length (message ts))
          then fault
          else ret (length pre + length (message ts), pre ++ overlay (message ts) xs))
  unfolding tokenstream_to_buf
  tokenstream_to_buf-message pre xs len =
      let t = int_bytes ts.type in
      let n = int_bytes ts.length in
      let behind = drop 4 xs in
      let typed = pre ++ t in
      let l : length typed ≡ length pre + 4 = length-append pre t in
      elim (dec_lt (length xs) 4) [
        | yes short ↦ rw (write_int-fault pre xs (length pre) ts.type refl short) (ground arith)
        | no wide ↦ rw (write_int-overlay pre xs (length pre) ts.type refl (omega arith)) (
            rw (sym (append_assoc pre t behind)) (elim (dec_lt (length xs) 8) [
              | yes short ↦
                  rw
                    (write_int-fault typed behind (length pre + 4) ts.length (omega arith)
                      (omega (arith, length-drop 4 xs)))
                    (ground arith)
              | no wider ↦
                  rw
                    (write_int-overlay typed behind (length pre + 4) ts.length (omega arith)
                      (omega (arith, length-drop 4 xs)))
                    (rw (sym (append_assoc typed n (drop 4 behind))) (
                      rw
                        (all_tokens (typed ++ n) (drop 4 behind) (length pre + 8)
                          (omega (arith, length-append typed n)))
                        (ground (
                          arith,
                          length-drop 4 xs,
                          length-drop 4 behind,
                          behind_header pre t n (wires (live (take ts.length ts.tokens))) xs,
                        ))))
            ]))
      ]
