-- ===== src/Client/Reply.antt =====
-- The reply of the agent as the client prints it.
use dpatch.Prelude.{
  ℕ, suc, ◌^◌, ◌<◌, ◌≤◌, ◌≡◌, ◌==◌, ◌∙◌, refl, ap, ℤ, pos, true, false, ◌∷◌, [], ◌++◌, length, drop,
  append_assoc, overlay, if◌then◌else◌,
}
use dpatch.Exec.{ret}
use dpatch.Memory.{Bytes}
use dpatch.Memory.Place.{IsText, int_bytes}
use dpatch.Config.{Config}
use dpatch.Net.Connect.{bytes, Network}
use dpatch.Protocol.{msg_err}
use dpatch.Protocol.Encode.{message}
use dpatch.Protocol.Reply.{reply, reply_size, reply_bytes, protocol_read-reply}
use dpatch.Server.{copy_text}
use dpatch.Server.Launch.{copy_text-overlay}
use dpatch.Client.Run.{
  Client, Exchange, Line, error_reply, success_reply, print, print_reply, take_reply,
}

-- The line for a reply of a type.
abbrev pub reply_line : ℕ → Bytes → Line
reply_line type text = if type == msg_err then error_reply text else success_reply text

-- The exchange of a client to whose poll the socket is ready, with these bytes.
abbrev pub ready : Network → (ℕ → Bytes → ℤ) → ℕ → Bytes → Exchange
ready net send wait out = record {
  net = net;
  send = send;
  polled = pos (suc wait);
  received = bytes out;
}

-- The client prints what came, whatever its buffer held.
pub take_reply-reply :
    (config : Config) (in_buf : Bytes) (client : Client) (type : ℕ) (text tail : Bytes)
    → config.args.quiet ≡ false
    → IsText text
    → type < 2 ^ 32
    → reply_size text < 2 ^ 32
    → 0 < length client.token_stream.tokens
    → length (reply_bytes type text tail) ≤ length in_buf
    → take_reply config in_buf (bytes (reply_bytes type text tail)) client
      ≡ ret (
        true,
        record client {
          token_stream = reply type text (drop 1 client.token_stream.tokens);
          printed = client.printed ++ reply_line type text ∷ [];
        },
      )
unfolding take_reply print_reply print
take_reply-reply config in_buf client type text tail loud t ht hw room fits =
    let out = reply_bytes type text tail in
    let post : Bytes = tail ++ drop (length out) in_buf in
    let whole : overlay out in_buf
        ≡ int_bytes (reply_size text) ++ (message (reply type text []) ++ post) =
      ap (◌++◌ (int_bytes (reply_size text)))
        (append_assoc (message (reply type text [])) tail (drop (length out) in_buf)) in
    let copied : copy_text in_buf 0 out
        ≡ ret (int_bytes (reply_size text) ++ (message (reply type text []) ++ post)) =
      copy_text-overlay [] out in_buf 0 refl fits ∙ ap (λ b. ret b) whole in
    let read =
      protocol_read-reply client.token_stream config.settings.buffer_size type text [] post t ht hw
        room in
    rw (copied, read, loud) refl
