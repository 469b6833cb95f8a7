-- ===== src/Client/Once.antt =====
-- `dpatch set FILE` and `dpatch run TASK`: a command of two words from the command line to the reply.
use dpatch.Prelude.{
  ℕ, suc, ◌+◌, ◌-◌, ◌^◌, ◌<◌, ◌≤◌, ◌≡◌, refl, sym, ap, subst, inl, inr, ℤ, pos, true, false, List,
  [], ◌∷◌, ◌++◌, Option, some, length, drop, replicate, length-replicate, arith,
}
use dpatch.Exec.{ret}
use dpatch.Memory.{Bytes}
use dpatch.Memory.Place.{IsText}
use dpatch.Config.{Config, Args}
use dpatch.Net.Connect.{Network, Connection, connection_close}
use dpatch.Net.Opened.{connects, opened, connection_init-opened}
use dpatch.Net.Transfer.{Takes, Progresses}
use dpatch.Protocol.{Token, blank}
use dpatch.Protocol.Send.{protocol_send}
use dpatch.Protocol.Request.{request, request_size, request_bytes, protocol_send-request}
use dpatch.Protocol.Reply.{reply, reply_size, reply_bytes}
use dpatch.Client.{client_eval_cmds, eval_type, env_flag, same_text}
use dpatch.Client.Message.{WordsFrom, client_eval_cmds-tokens_of}
use dpatch.Client.Run.{Client, sending, print, send_cmd, poll_response, talk, run_once}
use dpatch.Client.Reply.{reply_line, ready, take_reply-reply}

-- A command line of two words that stands for a message of a type.
pub record Commands (argv : List (Option Bytes)) (args : Args) (type : ℕ) (word : Bytes)
    : Type 0 where
  pub name : Bytes
  pub first_type : ℕ
  pub two : args.arg_count ≡ 2
  pub found : WordsFrom argv args 0 (name ∷ word ∷ [])
  pub plain : same_text word env_flag ≡ false
  pub named : eval_type (some name) (2 ^ 32 - 1) ≡ ret (true, first_type)
  pub typed : eval_type (some word) first_type ≡ ret (true, type)

client_eval_cmds-request :
    (argv : List (Option Bytes)) (args : Args) (type t l c : ℕ) (word : Bytes)
    → Commands argv args type word
    → client_eval_cmds argv args
        (record { type = t; length = l; tokens = replicate (suc (suc c)) blank })
      ≡ ret (true, request type word (replicate c blank))
client_eval_cmds-request argv args type t l c word h =
    client_eval_cmds-tokens_of argv args h.name word [] h.first_type type
      (record { type = t; length = l; tokens = replicate (suc (suc c)) blank }) h.two h.found
      h.plain h.named h.typed (omega (arith, length-replicate c blank))

-- What the client has done behind a send, and behind its reply.
abbrev pub has_sent : Config → Bytes → Client → Client
has_sent config out client = record client {
  sent = client.sent ++ out ∷ [];
  printed = client.printed ++ sending config.args.port ∷ [];
}

abbrev pub has_printed : ℕ → Bytes → Client → Client
has_printed type text client = record client {
  token_stream = reply type text (drop 1 client.token_stream.tokens);
  printed = client.printed ++ reply_line type text ∷ [];
}

abbrev pub has_closed : Connection → Client → Client
has_closed conn client = record client { closed = client.closed ++ (connection_close conn).0 }

module _ (config : Config) (loud : config.args.quiet ≡ false) (net : Network) (send : ℕ → Bytes → ℤ)
    (wait : ℕ) (takes : Takes send) (progresses : Progresses send) where
  send_cmd-request :
      (out : Bytes) (client : Client) (n type : ℕ) (word : Bytes) (slots : List Token)
      → request_size word ≤ n
      → let asking : Client = record client { token_stream = request type word slots } in
        send_cmd config (ready net send wait out) (replicate n 0) asking
        ≡ ret (true, has_sent config (request_bytes type word) asking)
  unfolding send_cmd print
  send_cmd-request out client n type word slots room =
      let (buf, done) =
        protocol_send-request send takes progresses n config.settings.buffer_size type word slots
          room in
      let positive : request_size word ≡ suc (17 + length word) = omega arith in
      let done' =
        subst
          (λ k.
            protocol_send send (replicate n 0) config.settings.buffer_size (request type word slots)
            ≡ ret (pos k, request_bytes type word, buf))
          positive done in
      rw (done', loud) refl

  -- A reply that fits and has no zero bytes.
  pub record CanRead (in_buf : Bytes) (rtype : ℕ) (text tail : Bytes) : Type 0 where
    pub is_text : IsText text
    pub type_fits : rtype < 2 ^ 32
    pub size_fits : reply_size text < 2 ^ 32
    pub fits : length (reply_bytes rtype text tail) ≤ length in_buf

  module _ (type : ℕ) (word : Bytes) (n : ℕ) (in_buf : Bytes) (rtype : ℕ) (text tail : Bytes)
      (room : request_size word ≤ n) (reads : CanRead in_buf rtype text tail) where
    -- Over an open connection with zero bytes to send from.
    talk-request :
        (socket : ℤ) (client : Client) (slots : List Token)
        → let conn : Connection = record {
          socket = socket;
          in_buf = some in_buf;
          out_buf = some (replicate n 0);
        } in
          let asking : Client = record client { token_stream = request type word slots } in
          talk config (ready net send wait (reply_bytes rtype text tail)) conn asking
          ≡ ret (
            true,
            has_closed conn
                (has_printed rtype text (has_sent config (request_bytes type word) asking)),
          )
    unfolding talk poll_response
    talk-request socket client slots =
        let asking : Client = record client { token_stream = request type word slots } in
        let told = send_cmd-request (reply_bytes rtype text tail) client n type word slots room in
        let read =
          take_reply-reply config in_buf (has_sent config (request_bytes type word) asking) rtype
            text tail loud reads.is_text reads.type_fits reads.size_fits (omega arith) reads.fits in
        rw (told, read) refl

    -- The client's side of an exchange: it sends the request and prints the reply.
    pub run_once-request :
        (argv : List (Option Bytes)) (t l c : ℕ) (client : Client)
        → Commands argv config.args type word
        → connects net config.args.run_mode ≡ true
        → net.in_granted ≡ some in_buf
        → net.out_granted ≡ some (replicate n 0)
        → let fresh : Client = record client {
          token_stream = record { type = t; length = l; tokens = replicate (suc (suc c)) blank };
        } in
          let asking : Client = record client {
            token_stream = request type word (replicate c blank);
          } in
          run_once config argv (ready net send wait (reply_bytes rtype text tail)) fresh
          ≡ ret (
            true,
            has_closed
                (opened net)
                (has_printed rtype text (has_sent config (request_bytes type word) asking)),
          )
    unfolding run_once
    run_once-request argv t l c client commands linked i o =
        let asking : Client = record client {
          token_stream = request type word (replicate c blank);
        } in
        let x = ready net send wait (reply_bytes rtype text tail) in
        let made = client_eval_cmds-request argv config.args type t l c word commands in
        let conn : Connection = record {
          socket = net.socket;
          in_buf = some in_buf;
          out_buf = some (replicate n 0);
        } in
        let same : conn ≡ opened net = cc (i, o) in
        let talked =
          subst
            (λ (k : Connection).
              talk config x k asking
              ≡ ret (
                true,
                has_closed k
                    (has_printed rtype text (has_sent config (request_bytes type word) asking)),
              ))
            same (talk-request net.socket client (replicate c blank)) in
        elim (connection_init-opened net config) [
          | inr (e, _) ↦ absurd (cc (e, linked))
          | inl (_, e) ↦
              let talked' =
                subst
                  (λ (k : Connection).
                    talk config x k asking
                    ≡ ret (
                      true,
                      has_closed (opened net) (
                          has_printed rtype text
                            (has_sent config (request_bytes type word) asking)),
                    ))
                  (sym (ap (λ (q : ℤ × Connection). q.1) e)) talked in
              rw (made, e) talked'
        ]
