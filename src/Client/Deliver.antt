-- ===== src/Client/Deliver.antt =====
-- From the command line of a client to the arguments and variables that the agent sorts out.
use dpatch.Prelude.{
  ℕ, zero, suc, ◌+◌, ◌-◌, ◌%◌, ◌≤◌, ◌<◌, ◌^◌, ◌≡◌, ℤ, inl, inr, refl, sym, ap, ap₂, subst, ◌∙◌,
  List, [], ◌∷◌, ◌++◌, length, overlay, drop, take, append_assoc, length-append, arith, Bool-cases,
  true, Option, none, some, replicate, length-replicate, take-replicate, take-append,
}
use dpatch.Exec.{ret, ◌>>=◌}
use dpatch.Memory.{Bytes}
use dpatch.Memory.Place.{IsText}
use dpatch.Config.{Args}
use dpatch.Protocol.{Token, TokenStream, blank, token_arg, token_var}
use dpatch.Protocol.Wire.{live, wires, TextOrNull}
use dpatch.Protocol.Parse.{values_of}
use dpatch.Protocol.Deliver.{sent_values}
use dpatch.Protocol.Send.{protocol_send}
use dpatch.Net.Transfer.{Takes, Progresses}
use dpatch.Client.Carried.{hear, hear-protocol_send}
use dpatch.Client.{eval_type, client_eval_cmds, env_flag, same_text}
use dpatch.Client.Message.{tokens_of, EnvHasValue, WordsFrom, client_eval_cmds-tokens_of}

abbrev pub AllWords : List Bytes → Type 0
AllWords [] = Unit
AllWords (w ∷ rest) = IsText w × AllWords rest

live-blank : (k : ℕ) (toks : List Token) → live (replicate k blank ++ toks) ≡ live toks
live-blank zero toks = refl
live-blank (suc k) toks = live-blank k toks

live-tokens_of : (words : List Bytes) → live (tokens_of words) ≡ tokens_of words
live-tokens_of [] = refl
live-tokens_of (w ∷ []) = refl
live-tokens_of (w ∷ v ∷ rest) = elim (Bool-cases (same_text w env_flag)) [
  | inl e ↦ rw e (ap (◌∷◌ (record { type = token_var; value = some v })) (live-tokens_of rest))
  | inr e ↦
      rw e (ap (◌∷◌ (record { type = token_arg; value = some w })) (live-tokens_of (v ∷ rest)))
]

tokens_of-TextOrNull : (words : List Bytes) → AllWords words → TextOrNull (tokens_of words)
tokens_of-TextOrNull [] h = tt
tokens_of-TextOrNull (w ∷ []) (hw, h) = (hw, tt)
tokens_of-TextOrNull (w ∷ v ∷ rest) (hw, (hv, h)) = elim (Bool-cases (same_text w env_flag)) [
  | inl e ↦ rw e (hv, tokens_of-TextOrNull rest h)
  | inr e ↦ rw e (hw, tokens_of-TextOrNull (v ∷ rest) (hv, h))
]

blank-TextOrNull :
    (k : ℕ) (toks : List Token) → TextOrNull toks → TextOrNull (replicate k blank ++ toks)
blank-TextOrNull zero toks h = h
blank-TextOrNull (suc k) toks h = (tt, blank-TextOrNull k toks h)

-- The stream of a command: blank slots for its words, then their tokens, then what was behind.
module _ (type k : ℕ) (words : List Bytes) (behind : List Token) where
  abbrev toks : List Token
  toks = tokens_of words

  abbrev pub command_stream : TokenStream
  command_stream = record {
    type = type;
    length = k + length toks;
    tokens = replicate k blank ++ (toks ++ behind);
  }

  sent_part : take (k + length toks) command_stream.tokens ≡ replicate k blank ++ toks
  sent_part =
      let n : length (replicate k blank ++ toks) ≡ k + length toks =
        omega (arith, length-append (replicate k blank) toks, length-replicate k blank) in
      ap₂ (λ j l. take j l) (sym n) (sym (append_assoc (replicate k blank) toks behind))
      ∙ take-append (replicate k blank ++ toks) behind

  live_part : live (take (k + length toks) command_stream.tokens) ≡ toks
  live_part = ap live sent_part ∙ live-blank k toks ∙ live-tokens_of words

  within : command_stream.length ≤ length command_stream.tokens
  within = omega (
    arith,
    length-append (replicate k blank) (toks ++ behind),
    length-append toks behind,
    length-replicate k blank,
  )

  length-live : length (live (take (k + length toks) command_stream.tokens)) ≡ length toks
  length-live = ap length live_part

  length-wires :
      length (wires (live (take (k + length toks) command_stream.tokens))) ≡ length (wires toks)
  length-wires = ap (λ l. length (wires l)) live_part

  sent : (t : ℕ) → sent_values t command_stream ≡ values_of t toks
  sent t = ap (values_of t) live_part

  -- The stream of a command arrives: `hear-protocol_send` at such a stream.
  pub hear-command_stream :
      (send : ℕ → Bytes → ℤ) (rs : TokenStream) (n m len : ℕ) (args vars : List (Option Bytes))
      → Takes send
      → Progresses send
      → 16 + length (wires toks) ≤ n
      → 16 + length (wires toks) ≤ m
      → 12 + length (wires toks) + (k + k) ≤ m
      → 16 + length (wires toks) < 2 ^ 32
      → type < 2 ^ 32
      → 0 < k
      → k + length toks < 2 ^ 31
      → k + length toks ≤ length rs.tokens
      → AllWords words
      → length (values_of token_arg toks) < length args
      → length (values_of token_var toks) < length vars
      → (protocol_send send (replicate n 0) len command_stream >>= λ sent.
          hear m rs args vars sent.1)
        ≡ ret (
            some (
              type % 0x100,
              overlay (values_of token_arg toks ++ none ∷ []) args,
              overlay (values_of token_var toks ++ none ∷ []) vars,
            ))
  hear-command_stream send rs n m len args vars takes progresses ask hearing room hw ht h0 h31 fits
        texts ha hv =
      let all : TextOrNull (take (k + length toks) command_stream.tokens) =
        subst TextOrNull (sym sent_part)
          (blank-TextOrNull k toks (tokens_of-TextOrNull words texts)) in
      hear-protocol_send send takes progresses command_stream within rs n m len args vars
        (omega (arith, length-wires, ask)) (omega (arith, length-wires, hearing))
        (omega (arith, length-live, length-wires, room)) (omega (arith, length-wires, hw)) ht
        (omega (arith, h0)) h31 fits all (omega (arith, ap length (sent token_arg), ha))
        (omega (arith, ap length (sent token_var), hv))
      ∙ ap₂
          (λ (a v : List (Option Bytes)).
            ret (some (type % 0x100, overlay (a ++ none ∷ []) args, overlay (v ++ none ∷ []) vars)))
          (sent token_arg) (sent token_var)

-- A client that makes its message of a command line in a fresh stream and sends it with
-- protocol_send from a buffer of zero bytes, over a socket that takes a byte at least of each
-- offer and no more than it is offered, reaches an agent that reads the bytes that were sent into
-- a cleared buffer and sorts them with protocol_read and protocol_parse_token_stream: it has
-- exactly the arguments and the variables of the command, in order, with a NULL behind each list,
-- and the low byte of its type, if there are two words at least and the first two give that type,
-- no word behind the first has a zero byte, the line does not end in -e, both streams, both
-- buffers and the two arrays have room, and type, count and length fit their integers.
pub hear-client_eval_cmds :
    (argv : List (Option Bytes)) (opts : Args) (first second : Bytes) (rest : List Bytes)
    (type0 type t l cap : ℕ) (send : ℕ → Bytes → ℤ) (rs : TokenStream) (n m len : ℕ)
    (args vars : List (Option Bytes))
    → let words = second ∷ rest in
      let k = suc (length rest) in
      let toks = tokens_of words in
      opts.arg_count ≡ suc k
      → WordsFrom argv opts 0 (first ∷ words)
      → EnvHasValue words
      → AllWords words
      → eval_type (some first) (2 ^ 32 - 1) ≡ ret (true, type0)
      → eval_type (some second) type0 ≡ ret (true, type)
      → type < 2 ^ 32
      → k + length toks ≤ cap
      → k + length toks ≤ length rs.tokens
      → k + length toks < 2 ^ 31
      → Takes send
      → Progresses send
      → 16 + length (wires toks) ≤ n
      → 16 + length (wires toks) ≤ m
      → 12 + length (wires toks) + (k + k) ≤ m
      → 16 + length (wires toks) < 2 ^ 32
      → length (values_of token_arg toks) < length args
      → length (values_of token_var toks) < length vars
      → (client_eval_cmds argv opts (record { type = t; length = l; tokens = replicate cap blank })
          >>= λ made.
              protocol_send send (replicate n 0) len made.1 >>= λ sent. hear m rs args vars sent.1)
        ≡ ret (
            some (
              type % 0x100,
              overlay (values_of token_arg toks ++ none ∷ []) args,
              overlay (values_of token_var toks ++ none ∷ []) vars,
            ))
hear-client_eval_cmds argv opts first second rest type0 type t l cap send rs n m len args vars count
      found values texts t0 t1 ht fits slots h31 takes progresses ask hearing room hw ha hv =
    let words = second ∷ rest in
    let k = suc (length rest) in
    let msg : TokenStream = record { type = t; length = l; tokens = replicate cap blank } in
    let made =
      client_eval_cmds-tokens_of argv opts first second rest type0 type msg count found values t0 t1
        (omega (arith, fits, length-replicate cap blank)) in
    let behind = drop (length (tokens_of words)) (drop k (replicate cap blank)) in
    let blanks : take k (replicate cap blank) ≡ replicate k blank =
      take-replicate k cap blank (omega (arith, fits)) in
    rw (made, blanks)
      (hear-command_stream type k words behind send rs n m len args vars takes progresses ask
        hearing room hw ht (omega arith) h31 slots texts ha hv)
