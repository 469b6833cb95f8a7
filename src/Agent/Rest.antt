-- ===== src/Agent/Rest.antt =====
-- A small agent at rest, with a new client, and at its end.
use dpatch.Prelude.{
  ℕ, zero, suc, ◌<◌, ◌≡◌, ◌⊎◌, refl, ℤ, pos, negsuc, true, false, [], ◌∷◌, some, arith, get_elem?,
}
use dpatch.Exec.{ret}
use dpatch.Stack.Laws.{IsValid, contents}
use dpatch.Agent.{Server, System, closed}
use dpatch.Agent.Sockets.{is_set, server_handle_incoming, server_cleanup}
use dpatch.Agent.Loops.{server_rounds}
use dpatch.Agent.Quiet.{IsQuiet, IsReady, cleared, server_rounds-quiet}
use dpatch.Agent.Incoming.{NoSocket, Handled, server_handle_incoming-Handled, server_cleanup-closed}
use dpatch.Agent.Tests.{settings, joins, asked, asked-IsSound}

abbrev rests : System
rests = record joins { ready = λ fd. false; accepted = negsuc 0 }

rests-IsQuiet : IsQuiet rests
rests-IsQuiet = record { idle = λ fd. refl; running = λ pid. refl }

above : (i sock : ℕ) → get_elem? (contents asked.client_stack) i ≡ some sock → 0 < sock
above zero sock e = ground (arith, e)
above (suc i) sock e = absurd (cc e)

asked-IsReady : IsReady settings asked
asked-IsReady = record { sound = asked-IsSound; in_size = refl; out_size = refl; above = above }

server_rounds-quiet_example :
    server_rounds settings (rests ∷ rests ∷ []) asked ≡ ret (cleared 48 asked)
server_rounds-quiet_example =
    server_rounds-quiet settings rests (rests ∷ []) asked (rests-IsQuiet, (rests-IsQuiet, tt))
      asked-IsReady

server_handle_incoming-Handled_example :
    ((is_set joins (7, 7 ∷ 3 ∷ []) 3 ≡ false)
      × (server_handle_incoming joins settings (7, 7 ∷ 3 ∷ []) asked ≡ ret (pos 0, asked)))
    ⊎ ((is_set joins (7, 7 ∷ 3 ∷ []) 3 ≡ true)
        × NoSocket joins.accepted
        × (server_handle_incoming joins settings (7, 7 ∷ 3 ∷ []) asked ≡ ret (negsuc 0, asked)))
    ⊎ ((sock : ℕ) × (r : ℤ × Server) × (is_set joins (7, 7 ∷ 3 ∷ []) 3 ≡ true)
        × (joins.accepted ≡ pos (suc sock))
        × (server_handle_incoming joins settings (7, 7 ∷ 3 ∷ []) asked ≡ ret r)
        × Handled joins settings asked (suc sock) r)
server_handle_incoming-Handled_example =
    server_handle_incoming-Handled joins settings asked asked-IsSound.clients refl (7, 7 ∷ 3 ∷ [])

server_cleanup-closed_example :
    (s' : Server) × (server_cleanup asked ≡ ret s')
    × (s'.effects ≡ closed 7 ∷ [])
    × (contents s'.client_stack ≡ [])
    × IsValid s'.client_stack
server_cleanup-closed_example = server_cleanup-closed asked asked-IsSound.clients
