-- ===== src/Protocol/Decode.antt =====
-- `protocol_buf_to_tokenstream` reads back what stands on the wire.
use dpatch.Prelude.{
  subst, ℕ, suc, ◌+◌, ◌<◌, ◌≤◌, ◌^◌, ◌≡◌, refl, sym, ap, ap₂, ◌∙◌, List, [], ◌∷◌, ◌++◌, inl, inr,
  length, append_assoc, length-append, arith, some, drop, overlay, Option-cases,
}
use dpatch.Exec.{ret}
use dpatch.Memory.{Bytes, read_int, string_at}
use dpatch.Memory.Place.{
  IsText, int_bytes, load-append, put-append, string_at-append, read_int-int_bytes, wipe-overlay,
}
use dpatch.Protocol.{Token, TokenStream, blank, read_tokens, buf_to_tokenstream}
use dpatch.Protocol.Wire.{wires, AllText, HasText}

-- The bytes of one token with text `v`, in front of `rest`.
abbrev token_bytes : ℕ → Bytes → Bytes → Bytes
token_bytes type v rest = type ∷ (v ++ 0 ∷ rest)

-- One round of the loop: the token is read into slot `i`, and `cur` goes behind its zero.
read_tokens_step :
    (n type i cur : ℕ) (v pre rest : Bytes) (done slots : List Token) (s : Token)
    → i ≡ length done
    → cur ≡ length pre
    → IsText v
    → read_tokens (suc n) i (pre ++ token_bytes type v rest) cur (done ++ s ∷ slots)
      ≡ read_tokens n
          (i + 1)
          ((pre ++ token_bytes type v []) ++ rest)
          (cur + 1 + (length v + 1))
          ((done ++ record { type = type; value = some v } ∷ []) ++ slots)
unfolding read_tokens
read_tokens_step n type i cur v pre rest done slots s ei ec h =
    let tok : Token = record { type = type; value = some v } in
    let behind : (pre ++ type ∷ []) ++ (v ++ 0 ∷ rest) ≡ pre ++ token_bytes type v rest =
      append_assoc pre (type ∷ []) (v ++ 0 ∷ rest) in
    let text : string_at (pre ++ token_bytes type v rest) (cur + 1) ≡ ret v =
      ap (λ b. string_at b (cur + 1)) (sym behind)
      ∙ string_at-append (pre ++ type ∷ []) v rest (cur + 1)
          (omega (arith, length-append pre (type ∷ []))) h in
    rw (load-append pre (token_bytes type v rest) cur 0 (omega arith)) (
      rw text (
        rw (put-append done (s ∷ slots) i 0 tok (omega arith) (omega arith)) (
          ap₂ (λ b l. read_tokens n (i + 1) b (cur + 1 + (length v + 1)) l)
            (ap (λ z. pre ++ type ∷ z) (sym (append_assoc v (0 ∷ []) rest))
              ∙ sym (append_assoc pre (token_bytes type v []) rest))
            (sym (append_assoc done (tok ∷ []) slots)))))

token_shape :
    (type : ℕ) (v w post : Bytes)
    → ((type ∷ (v ++ 0 ∷ [])) ++ w) ++ post ≡ token_bytes type v (w ++ post)
token_shape type v w post =
    ap (◌∷◌ type) (append_assoc (v ++ 0 ∷ []) w post ∙ append_assoc v (0 ∷ []) (w ++ post))

-- The loop from slot `i` on, with `done` read so far.
read_tokens-wires :
    (toks done slots : List Token) (pre post : Bytes) (i cur : ℕ)
    → i ≡ length done
    → cur ≡ length pre
    → length toks ≤ length slots
    → AllText toks
    → read_tokens (length toks) i (pre ++ (wires toks ++ post)) cur (done ++ slots)
      ≡ ret (done ++ overlay toks slots)
read_tokens-wires [] done slots pre post i cur ei ec l h = unfold read_tokens in refl
read_tokens-wires (t ∷ ts) done [] pre post i cur ei ec l h = absurd (omega arith)
read_tokens-wires (t ∷ ts) done (s ∷ slots) pre post i cur ei ec l (ht, hs) =
    elim (Option-cases t.value) [
      | inl absent ↦ absurd (subst HasText absent ht)
      | inr (v, present) ↦
          let tok : Token = record { type = t.type; value = some v } in
          let same : tok ≡ t = λ j. record { type = t.type; value = sym present j } in
          let read = token_bytes t.type v [] in
          let step =
            read_tokens_step (length ts) t.type i cur v pre (wires ts ++ post) done slots s ei ec
              (subst HasText present ht) in
          let later =
            read_tokens-wires ts (done ++ tok ∷ []) slots (pre ++ read) post (i + 1)
              (cur + 1 + (length v + 1)) (omega (arith, length-append done (tok ∷ [])))
              (omega (arith, length-append pre read, length-append v (0 ∷ []))) (omega arith) hs in
          subst
            (λ (u : Token).
              read_tokens (suc (length ts)) i (pre ++ (wires (u ∷ ts) ++ post)) cur
                (done ++ s ∷ slots)
              ≡ ret (done ++ overlay (u ∷ ts) (s ∷ slots)))
            same
            (ap (λ b. read_tokens (suc (length ts)) i (pre ++ b) cur (done ++ s ∷ slots))
                (token_shape t.type v (wires ts) post)
              ∙ step
              ∙ later
              ∙ ap ret (append_assoc done (tok ∷ []) (overlay ts slots)))
    ]

-- A stream read from a message: the type and the count as sent, the tokens in front, and the old
-- slots behind them.
pub buf_to_tokenstream-wires :
    (ts : TokenStream) (pre post : Bytes) (len type : ℕ) (toks : List Token)
    → type < 2 ^ 32
    → 0 < length toks
    → length toks < 2 ^ 31
    → length toks ≤ length ts.tokens
    → AllText toks
    → buf_to_tokenstream
        (pre ++ (int_bytes type ++ (int_bytes (length toks) ++ (wires toks ++ post))))
        len
        (length pre)
        ts
      ≡ ret (
          some (record {
            type = type;
            length = length toks;
            tokens = toks ++ drop (length toks) ts.tokens;
          }))
unfolding buf_to_tokenstream
buf_to_tokenstream-wires ts pre post len type toks ht h0 h31 room texts =
    let rest = wires toks ++ post in
    let behind = int_bytes (length toks) ++ rest in
    let (cleared, wiped, l, d) = wipe-overlay blank (length toks) ts.tokens room in
    let type_read = read_int-int_bytes pre behind (length pre) type refl ht in
    let count_read : read_int (pre ++ (int_bytes type ++ behind)) (length pre + 4)
        ≡ ret (length toks) =
      ap (λ b. read_int b (length pre + 4)) (sym (append_assoc pre (int_bytes type) behind))
      ∙ read_int-int_bytes (pre ++ int_bytes type) rest (length pre + 4) (length toks)
          (omega (arith, length-append pre (int_bytes type))) (omega arith) in
    let header = (pre ++ int_bytes type) ++ int_bytes (length toks) in
    let shape : header ++ rest ≡ pre ++ (int_bytes type ++ behind) =
      append_assoc (pre ++ int_bytes type) (int_bytes (length toks)) rest
      ∙ append_assoc pre (int_bytes type) behind in
    let tokens_read : read_tokens (length toks) 0 (pre ++ (int_bytes type ++ behind))
          (length pre + 8) cleared
        ≡ ret (toks ++ drop (length toks) cleared) =
      ap (λ b. read_tokens (length toks) 0 b (length pre + 8) cleared) (sym shape)
      ∙ read_tokens-wires toks [] cleared header post 0 (length pre + 8) refl
          (omega (
            arith,
            length-append (pre ++ int_bytes type) (int_bytes (length toks)),
            length-append pre (int_bytes type),
          ))
          (omega arith) texts in
    rw type_read (rw count_read (ground (arith, wiped, tokens_read, d)))
