-- ===== src/Protocol/Sizes.antt =====
-- The buffers and token arrays of src/protocol.h keep their sizes.
use dpatch.Prelude.{
  ℕ, zero, suc, ◌+◌, ◌%◌, ◌^◌, ◌≡◌, ◌==◌, ◌||◌, ◌∙◌, ap, sym, inl, inr, ℤ, pos, negsuc, List, [],
  Option, some, Option-cases, leb, ltb, length,
}
use dpatch.Exec.{ret, load, put, bind_elim, if_elim, option_elim}
use dpatch.Memory.{Bytes, read_int, write_int, string_at, put_string, wipe}
use dpatch.Memory.Sizes.{
  SameSize, put-SameSize, wipe-SameSize, write_int-SameSize, put_string-SameSize,
}
use dpatch.Net.{socket_send}
use dpatch.Protocol.{
  Token, TokenStream, blank, token_none, tokenstream_reset, tokenstream_add_token, read_tokens,
  buf_to_tokenstream, write_token, write_tokens, tokenstream_to_buf, frame, protocol_read,
}
use dpatch.Protocol.Send.{protocol_send}

pub tokenstream_reset-SameSize :
    (ts : TokenStream) {ts' : TokenStream}
    → tokenstream_reset ts ≡ ret ts'
    → SameSize ts.tokens ts'.tokens
unfolding tokenstream_reset
tokenstream_reset-SameSize ts {ts'} h =
    bind_elim (wipe blank ts.length ts.tokens) _ h λ tokens e h1.
      let same : record ts { tokens = tokens; length = 0 } ≡ ts' = cc h1 in
      ap (λ (t : TokenStream). length t.tokens) (sym same)
      ∙ wipe-SameSize blank ts.length ts.tokens e

pub tokenstream_add_token-SameSize :
    (ts : TokenStream) (type : ℕ) (value : Option Bytes) {ts' : TokenStream}
    → tokenstream_add_token ts type value ≡ ret ts'
    → SameSize ts.tokens ts'.tokens
unfolding tokenstream_add_token
tokenstream_add_token-SameSize ts type value {ts'} h =
    bind_elim (put ts.tokens ts.length (record { type = type % 0x100; value = value })) _ h
      λ tokens e h1.
        let same : record ts { tokens = tokens; length = ts.length + 1 } ≡ ts' = cc h1 in
        ap (λ (t : TokenStream). length t.tokens) (sym same)
        ∙ put-SameSize ts.tokens ts.length (record { type = type % 0x100; value = value }) e

read_tokens-SameSize :
    (n i : ℕ) (buf : Bytes) (cur : ℕ) (tokens : List Token) {tokens' : List Token}
    → read_tokens n i buf cur tokens ≡ ret tokens'
    → SameSize tokens tokens'
unfolding read_tokens
read_tokens-SameSize zero i buf cur tokens {tokens'} h =
    let same : tokens ≡ tokens' = cc h in ap length (sym same)
read_tokens-SameSize (suc n) i buf cur tokens h = bind_elim (load buf cur) _ h λ type _ h1.
    bind_elim (string_at buf (cur + 1)) _ h1 λ value _ h2.
      bind_elim (put tokens i (record { type = type; value = some value })) _ h2 λ next e h3.
        read_tokens-SameSize n (i + 1) buf (cur + 1 + (length value + 1)) next h3
        ∙ put-SameSize tokens i (record { type = type; value = some value }) e

pub protocol_read-SameSize :
    (buf : Bytes) (len : ℕ) (ts : TokenStream) {ts' : TokenStream}
    → protocol_read buf len ts ≡ ret (some ts')
    → SameSize ts.tokens ts'.tokens
unfolding protocol_read buf_to_tokenstream
protocol_read-SameSize buf len ts {ts'} h = bind_elim (read_int buf 0) _ h λ msg_len _ h1.
    bind_elim (read_int buf 4) _ h1 λ type _ h2. bind_elim (read_int buf (4 + 4)) _ h2 λ count _ h3.
      if_elim (count == 0 || leb (2 ^ 31) count) _ _ h3 (λ _ e. absurd (cc e))
        λ _ h4. bind_elim (wipe blank count ts.tokens) _ h4 λ cleared e5 h5.
          bind_elim (read_tokens count 0 buf (4 + 8) cleared) _ h5 λ tokens e6 h6.
            let same : record { type = type; length = count; tokens = tokens } ≡ ts' = cc h6 in
            ap (λ (t : TokenStream). length t.tokens) (sym same)
            ∙ read_tokens-SameSize count 0 buf (4 + 8) cleared e6
            ∙ wipe-SameSize blank count ts.tokens e5

write_token-SameSize :
    (token : Token) (buf : Bytes) (cur : ℕ) {r : ℕ × Bytes}
    → write_token token buf cur ≡ ret r
    → SameSize buf r.1
unfolding write_token
write_token-SameSize token buf cur {r} h =
    if_elim (token.type == token_none) _ _ h (λ _ e. skipped (cc e))
      λ _ h1. elim (Option-cases token.value) [
        | inl e ↦ skipped (cc (rw e at h1))
        | inr (value, e) ↦
            let h2 = rw e at h1 in
            bind_elim (put buf cur token.type) _ h2 λ typed e3 h3.
              bind_elim (put_string typed (cur + 1) value) _ h3 λ copied e4 h4.
                let same : (cur + 1 + (length value + 1), copied) ≡ r = cc h4 in
                ap (λ (q : ℕ × Bytes). length q.1) (sym same)
                ∙ put_string-SameSize typed (cur + 1) value e4
                ∙ put-SameSize buf cur token.type e3
      ]
  where
    skipped : (cur, buf) ≡ r → SameSize buf r.1
    skipped same = ap (λ (q : ℕ × Bytes). length q.1) (sym same)

write_tokens-SameSize :
    (n i : ℕ) (tokens : List Token) (buf : Bytes) (cur : ℕ) {r : ℕ × Bytes}
    → write_tokens n i tokens buf cur ≡ ret r
    → SameSize buf r.1
unfolding write_tokens
write_tokens-SameSize zero i tokens buf cur {r} h =
    let same : (cur, buf) ≡ r = cc h in ap (λ (q : ℕ × Bytes). length q.1) (sym same)
write_tokens-SameSize (suc n) i tokens buf cur h = bind_elim (load tokens i) _ h λ token _ h1.
    bind_elim (write_token token buf cur) _ h1 λ (cur', buf') e h2.
      write_tokens-SameSize n (i + 1) tokens buf' cur' h2 ∙ write_token-SameSize token buf cur e

frame-SameSize :
    (buf : Bytes) (len : ℕ) (ts : TokenStream) {w : ℕ} {buf' : Bytes}
    → frame buf len ts ≡ ret (some (w, buf'))
    → SameSize buf buf'
unfolding frame tokenstream_to_buf
frame-SameSize buf len ts {w} {buf'} h =
    bind_elim (tokenstream_to_buf ts buf len 4) _ h λ (written, filled) e h1.
      bind_elim (write_int buf 4 ts.type) _ e λ typed e2 h2.
        bind_elim (write_int typed (4 + 4) ts.length) _ h2 λ counted e3 h3.
          if_elim (written == 0) _ _ h1 (λ _ e4. absurd (cc e4))
            λ _ h4. bind_elim (write_int filled 0 (written + 4)) _ h4 λ framed e5 h5.
              let same : (written + 4, framed) ≡ (w, buf') = cc h5 in
              ap (λ (q : ℕ × Bytes). length q.1) (sym same)
              ∙ write_int-SameSize filled 0 (written + 4) e5
              ∙ write_tokens-SameSize ts.length 0 ts.tokens counted (4 + 8) h3
              ∙ write_int-SameSize typed (4 + 4) ts.length e3
              ∙ write_int-SameSize buf 4 ts.type e2

pub protocol_send-SameSize :
    (send : ℕ → Bytes → ℤ) (buf : Bytes) (len : ℕ) (ts : TokenStream) {r : ℤ × Bytes × Bytes}
    → protocol_send send buf len ts ≡ ret r
    → SameSize buf r.2
unfolding protocol_send
protocol_send-SameSize send buf len ts {r} h = bind_elim (frame buf len ts) _ h λ framed e h1.
    option_elim framed _ _ h1
      (λ _ h2.
        let same : (negsuc 0, [], buf) ≡ r = cc h2 in
        ap (λ (q : ℤ × Bytes × Bytes). length q.2) (sym same))
      λ (size, buf') f h2.
        if_elim (ltb (length buf') size) _ _ h2 (λ _ e3. absurd (cc e3))
          λ _ h3.
            let (n, out) = socket_send send buf' size in
            let same : (pos n, out, buf') ≡ r = cc h3 in
            ap (λ (q : ℤ × Bytes × Bytes). length q.2) (sym same)
            ∙ frame-SameSize buf len ts (e ∙ ap (λ o. ret o) f)
