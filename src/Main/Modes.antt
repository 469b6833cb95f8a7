-- ===== src/Main/Modes.antt =====
-- What a process that serves has been started as.
use dpatch.Prelude.{
  ℕ, ◌≡◌, ◌⊎◌, ◌∙◌, inl, inr, refl, sym, ap, subst, Option-cases, ℤ, pos, negsuc, Bool, not, true,
  false, List, [], Option, none, some,
}
use dpatch.Exec.{ret, bind_elim, if_elim, option_elim}
use dpatch.Memory.{Bytes}
use dpatch.Config.{
  Config, RunMode, runmode_cmd, runmode_server, config_init, config_collect_args,
  config_default_settings,
}
use dpatch.Arena.{Arena, arena_init}
use dpatch.Log.{Log, log_init}
use dpatch.Client.Run.{Client, run_cmd}
use dpatch.Agent.{Server}
use dpatch.Agent.Start.{run_as_server}
use dpatch.Agent.Running.{Fits, IsServer, run_as_server-IsServer}
use dpatch.Main.{
  State, exited, serving, watching, World, finish, main_cmd, main_server, main_mode,
  main_configured, main, alloc_page_size, alloc_page_count,
}

-- What a process may come to in a mode.
abbrev pub Follows : World → Config → RunMode → State → Type 0
Follows world config runmode_server (exited code) = code ≡ negsuc 0
Follows world config runmode_server (serving server) =
    IsServer world.network config_default_settings server
Follows world config runmode_server (watching client) = ⊥
Follows world config runmode_cmd (exited code) = (code ≡ negsuc 0) ⊎ (code ≡ pos 0)
Follows world config runmode_cmd (serving server) = ⊥
Follows world config runmode_cmd (watching client) =
    (path : Bytes) × (config.args.watch_path ≡ some path)

-- What a process may come to behind its command line.
pub record Started (world : World) (config : Config) (state : State) : Type 0 where
  pub helped : config.args.help ≡ true → state ≡ exited (pos 1)
  pub followed : config.args.help ≡ false → Follows world config config.args.run_mode state

config_init-settings :
    (atoi : Bytes → ℤ) (granted : Bool) (raw : Option (List ℕ)) (argc : ℕ)
    (argv : List (Option Bytes)) {config : Config}
    → config_init atoi granted raw argc argv ≡ ret (some config)
    → config.settings ≡ config_default_settings
unfolding config_init
config_init-settings atoi granted raw argc argv {config} h =
    if_elim (not granted) _ _ h (λ _ h0. absurd (cc h0))
      (λ _ h0. bind_elim (config_collect_args atoi raw argc argv) _ h0 λ collected _ h1.
        option_elim collected _ _ h1 (λ _ h2. absurd (cc h2))
          λ args _ h2.
            let same : record { args = args; settings = config_default_settings } ≡ config =
              cc h2 in
            ap (λ (c : Config). c.settings) (sym same))

module _ (world : World) (fits : Fits world.network world.tables config_default_settings)
    (config : Config) (default : config.settings ≡ config_default_settings) where
  -- The first part of a result is the state.
  has_state :
      (mode : RunMode) (r : State × Arena × Log) {q : State × Arena × Log}
      → Follows world config mode r.0
      → ret r ≡ ret q
      → Follows world config mode q.0
  has_state mode r {q} p h =
      let same : r ≡ q = cc h in
      subst (λ (z : State × Arena × Log). Follows world config mode z.0) same p

  main_server-Follows :
      (arena : Arena) (log : Log) {r : State × Arena × Log}
      → main_server world config arena log ≡ ret r
      → Follows world config runmode_server r.0
  unfolding main_server finish
  main_server-Follows arena log h =
      bind_elim (run_as_server world.network world.tables config world.rounds) _ h
        λ started e h1. served started e h1
    where
      served :
          (started : Option Server) {r : State × Arena × Log}
          → run_as_server world.network world.tables config world.rounds ≡ ret started
          → ret (elim started [
            | none ↦ finish (negsuc 0) arena log
            | some server ↦ (serving server, arena, log)
          ])
            ≡ ret r
          → Follows world config runmode_server r.0
      served none e h = has_state runmode_server (finish (negsuc 0) arena log) refl h
      served (some server) e h =
          let sound =
            run_as_server-IsServer world.network world.tables config
              (subst (Fits world.network world.tables) (sym default) fits) world.rounds e in
          has_state runmode_server (serving server, arena, log)
            (subst (λ s. IsServer world.network s server) default sound) h

  main_cmd-Follows :
      (argv : List (Option Bytes)) (arena : Arena) (log : Log) {r : State × Arena × Log}
      → main_cmd world config argv arena log ≡ ret r
      → Follows world config runmode_cmd r.0
  unfolding main_cmd finish
  main_cmd-Follows argv arena log h =
      bind_elim (run_cmd config argv world.answers) _ h λ (ok, printed, client) _ h1.
        if_elim ok _ _ h1 (λ _ h2. went client h2)
          (λ _ h2. has_state runmode_cmd (finish (negsuc 0) arena log) (inl refl) h2)
    where
      went :
          (client : Option Client) {r : State × Arena × Log}
          → ret (elim config.args.watch_path [
            | none ↦ finish (pos 0) arena log
            | some path ↦ elim client [
              | none ↦ finish (pos 0) arena log
              | some c ↦ (watching c, arena, log)
            ]
          ])
            ≡ ret r
          → Follows world config runmode_cmd r.0
      went client h = elim (Option-cases config.args.watch_path) [
        | inl e ↦ has_state runmode_cmd (finish (pos 0) arena log) (inr refl) (rw e at h)
        | inr (path, e) ↦ watched path e client (rw e at h)
      ]
        where
          watched :
              (path : Bytes)
              → config.args.watch_path ≡ some path
              → (client : Option Client) {r : State × Arena × Log}
              → ret (elim client [
                | none ↦ finish (pos 0) arena log
                | some c ↦ (watching c, arena, log)
              ])
                ≡ ret r
              → Follows world config runmode_cmd r.0
          watched path e none h = has_state runmode_cmd (finish (pos 0) arena log) (inr refl) h
          watched path e (some c) h = has_state runmode_cmd (watching c, arena, log) (path, e) h

  main_mode-Follows :
      (mode : RunMode) (argv : List (Option Bytes)) (arena : Arena) (log : Log)
      {r : State × Arena × Log}
      → main_mode mode world config argv arena log ≡ ret r
      → Follows world config mode r.0
  unfolding main_mode
  main_mode-Follows runmode_server argv arena log h = main_server-Follows arena log h
  main_mode-Follows runmode_cmd argv arena log h = main_cmd-Follows argv arena log h

  main_configured-Started :
      (argv : List (Option Bytes)) (arena : Arena) (log : Log) {r : State × Arena × Log}
      → main_configured world config argv arena log ≡ ret r
      → Started world config r.0
  unfolding main_configured
  main_configured-Started argv arena log {r} h =
      let log1 = (log_init world.log_opens config.args.log_file log).1 in
      if_elim config.args.help _ _ h
        (λ asked h1.
          let same : (exited (pos 1), arena, log1) ≡ r = cc h1 in
          record {
            helped = λ _. ap (λ (z : State × Arena × Log). z.0) (sym same);
            followed = λ no. absurd (cc (asked, no));
          })
        (λ plain h1. record {
          helped = λ asked. absurd (cc (asked, plain));
          followed = λ _. main_mode-Follows config.args.run_mode argv arena log1 h1;
        })

-- If both buffers and the workspace are granted, all memory that is given is as long as asked for,
-- and main returns or still runs, then either the arena could not be made and it has exited with
-- -1, or the configuration or its index array could not be allocated and it has exited with 1
-- (EXIT_FAILURE), or it has read its command line: asked for help it exits with 1; else, as an
-- agent, it exits with -1 or serves with valid tables of the default sizes, and, as a client, it
-- exits with -1 or 0 or watches a path of the command line.
pub main-Started :
    (world : World) (argc : ℕ) (argv : List (Option Bytes)) (log : Log) {r : State × Arena × Log}
    → Fits world.network world.tables config_default_settings
    → main world argc argv log ≡ ret r
    → ((arena_init world.granted alloc_page_size alloc_page_count true ≡ none)
        × (r.0 ≡ exited (negsuc 0)))
      ⊎ ((config_init world.atoi world.config_granted world.indices argc argv ≡ ret none)
          × (r.0 ≡ exited (pos 1)))
      ⊎ ((config : Config) × (config_init world.atoi world.config_granted world.indices argc argv
            ≡ ret (some config))
          × Started world config r.0)
unfolding main
main-Started world argc argv log {r} fits h =
    elim (Option-cases (arena_init world.granted alloc_page_size alloc_page_count true)) [
      | inl e ↦
          let h1 = rw (main, e) at h in
          let same : (exited (negsuc 0), [], log) ≡ r = cc h1 in
          inl (e, ap (λ (z : State × Arena × Log). z.0) (sym same))
      | inr (arena, e) ↦
          let h1 = rw (main, e) at h in
          inr (
            bind_elim (config_init world.atoi world.config_granted world.indices argc argv) _ h1
              λ configured e2 h2.
                option_elim configured _ _ h2
                  (λ no h3.
                    let same : (exited (pos 1), arena, log) ≡ r = cc h3 in
                    inl (
                      e2 ∙ ap (λ (o : Option Config). ret o) no,
                      ap (λ (z : State × Arena × Log). z.0) (sym same),
                    ))
                  (λ config yes h3.
                    let made = e2 ∙ ap (λ (o : Option Config). ret o) yes in
                    let default =
                      config_init-settings world.atoi world.config_granted world.indices argc argv
                        made in
                    inr (
                      config,
                      made,
                      main_configured-Started world fits config default argv arena log h3,
                    )))
    ]
