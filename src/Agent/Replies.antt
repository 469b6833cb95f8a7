-- ===== src/Agent/Replies.antt =====
-- The invariant of the agent through an answer.
use dpatch.Prelude.{ℕ, ◌≡◌, ◌∙◌, refl, subst, ℤ, pos, [], ◌∷◌, ◌++◌, Option, none, some, take, ◌-◌}
use dpatch.Exec.{ret, bind_elim}
use dpatch.Memory.{Bytes}
use dpatch.Stack.{stack_remove_at_fast}
use dpatch.Stack.Keep.{stack_remove_at_fast-Keeps}
use dpatch.Protocol.{TokenStream, token_arg, tokenstream_reset, tokenstream_add_token}
use dpatch.Protocol.Send.{protocol_send}
use dpatch.Protocol.Sizes.{
  tokenstream_reset-SameSize, tokenstream_add_token-SameSize, protocol_send-SameSize,
}
use dpatch.Agent.{Server, System, ClientPacket, sent, closed}
use dpatch.Agent.Respond.{server_send, server_respond, respond_fmt, response_status, warnings}
use dpatch.Agent.Kept.{
  IsSound, Kept, Kept-trans, with_clients, with_buffers, with_effects, with_log, with_stream,
}

-- What is returned beside the agent does not matter.
pub returned :
    {A : Type 0} (s s' : Server) (a : A) {r : A × Server}
    → Kept s s'
    → ret (a, s') ≡ ret r
    → Kept s r.1
returned {A} s s' a {r} k h =
    let same : (a, s') ≡ r = cc h in subst (λ (q : A × Server). Kept s q.1) same k

module _ (sys : System) (buffer_size : ℕ) where
  server_send-Kept :
      (s : Server) (sock type : ℕ) (text : Bytes) {r : ℤ × Server}
      → IsSound s
      → server_send sys buffer_size s sock type text ≡ ret r
      → Kept s r.1
  unfolding server_send
  server_send-Kept s sock type text v h =
      let typed : TokenStream = record (s.token_stream) { type = type } in
      bind_elim (tokenstream_reset typed) _ h λ cleared e1 h1.
        bind_elim (tokenstream_add_token cleared token_arg (some text)) _ h1 λ filled e2 h2.
          bind_elim (protocol_send (sys.send sock) s.out_buf buffer_size filled) _ h2
            λ (count, out, buf) e3 h3.
              let s1 : Server = record s { token_stream = filled } in
              let k1 : Kept s s1 = with_stream s v filled (
                tokenstream_add_token-SameSize cleared token_arg (some text) e2
                ∙ tokenstream_reset-SameSize typed e1) in
              let s2 : Server = record s1 { out_buf = buf } in
              let k2 : Kept s1 s2 =
                with_buffers s1 k1.sound s1.in_buf buf s1.workspace refl
                  (protocol_send-SameSize (sys.send sock) s.out_buf buffer_size filled e3) refl in
              let k3 = with_effects s2 k2.sound (sent sock out ∷ []) in
              returned s _ count (Kept-trans s s1 _ k1 (Kept-trans s1 s2 _ k2 k3)) h3

  pub server_respond-Kept :
      (s : Server) (packet : ClientPacket) (type : ℕ) (text : Bytes) {r : ℤ × Server}
      → IsSound s
      → server_respond sys buffer_size s packet type text ≡ ret r
      → Kept s r.1
  unfolding server_respond
  server_respond-Kept s packet type text v h =
      bind_elim (server_send sys buffer_size s packet.socket type text) _ h λ (count, s1) e1 h1.
        bind_elim (stack_remove_at_fast 0 s1.client_stack (pos packet.client)) _ h1
          λ (removed, clients) e2 h2.
            let k1 = server_send-Kept s packet.socket type text v e1 in
            let s2 : Server = record s1 { client_stack = clients } in
            let k2 : Kept s1 s2 =
              with_clients s1 k1.sound clients
                (stack_remove_at_fast-Keeps 0 s1.client_stack packet.client k1.sound.clients e2) in
            let k3 = with_effects s2 k2.sound (closed packet.socket ∷ []) in
            let s3 : Server = record s2 { effects = s2.effects ++ closed packet.socket ∷ [] } in
            let k4 = with_log s3 k3.sound (s3.log ++ warnings packet.socket count) in
            returned s _ (response_status count)
              (Kept-trans s s1 _ k1 (Kept-trans s1 s2 _ k2 (Kept-trans s2 s3 _ k3 k4))) h2

  pub respond_fmt-Kept :
      (s : Server) (packet : ClientPacket) (type : ℕ) (front : Bytes) (name : Option Bytes)
      (behind : Bytes) {r : ℤ × Server}
      → IsSound s
      → respond_fmt sys buffer_size s packet type front name behind ≡ ret r
      → Kept s r.1
  unfolding respond_fmt
  respond_fmt-Kept s packet type front none behind v h = absurd (cc h)
  respond_fmt-Kept s packet type front (some name) behind v h =
      server_respond-Kept s packet type (take (buffer_size - 1) (front ++ (name ++ behind))) v h
