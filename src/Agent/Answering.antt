-- ===== src/Agent/Answering.antt =====
-- Each packet that the agent evaluates is answered once, whatever it holds.
use dpatch.Prelude.{
  ◌≡◌, sym, ap, ◌∙◌, pos, List, [], ◌∷◌, ◌++◌, ap₂, ◌+◌, ◌≤◌, length, length-append, append_assoc,
  arith,
}
use dpatch.Exec.{ret}
use dpatch.Stack.{stack_remove_at_fast}
use dpatch.Config.{Settings}
use dpatch.Agent.{Server, System, ClientPacket, Report, sent, closed}
use dpatch.Agent.Respond.{warnings}
use dpatch.Agent.Answer.{Answered}

module _ (sys : System) (settings : Settings) (packet : ClientPacket) where
  abbrev One : Server → Server → Type 0
  One = Answered sys settings.buffer_size packet

  -- An answer between two changes of other fields, with more lines of the log behind it.
  around :
      (s s0 s1 s2 : Server) (more : List Report)
      → s0.effects ≡ s.effects
      → s0.client_stack ≡ s.client_stack
      → s0.log ≡ s.log
      → s2.effects ≡ s1.effects
      → s2.client_stack ≡ s1.client_stack
      → s2.log ≡ s1.log ++ more
      → (a : One s0 s1) → length a.reports + length more ≤ 1
      → One s s2
  around s s0 s1 s2 more e c l e' c' l' a bound =
      let w = warnings packet.socket a.count in
      record {
        out = a.out;
        history =
            e'
            ∙ a.history
            ∙ ap (λ l. l ++ (sent packet.socket a.out ∷ closed packet.socket ∷ [])) e;
        count = a.count;
        reply = a.reply;
        was_client = a.was_client;
        left =
            ap (λ k. stack_remove_at_fast 0 k (pos packet.client)) (sym c)
            ∙ a.left
            ∙ ap (λ k. ret (a.was_client, k)) (sym c');
        reports = a.reports ++ more;
        lines =
            l'
            ∙ ap (λ k. k ++ more) a.lines
            ∙ append_assoc s0.log (w ++ a.reports) more
            ∙ ap₂ (λ k m. k ++ m) l (append_assoc w a.reports more);
        one_line = omega (arith, bound, length-append a.reports more);
      }
