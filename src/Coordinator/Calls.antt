-- ===== src/Coordinator/Calls.antt =====
-- coordinator/transitions.cc: the calls as the state machine makes them, one after another.
use wtf.Prelude.{
  ℕ, ◌≡◌, ◌≢◌, inl, inr, refl, Bool, true, false, Option, none, some, List, [], ◌∷◌, arith, ◌==◌,
  if◌then◌else◌, ◌||◌, not, Bool-cases, Option-cases,
}
use wtf.Server.{Server, available, get_server, put_server}
use wtf.Coordinator.{Coordinator, Env, Net}
use wtf.Coordinator.Conditions.{Counts}
use wtf.Coordinator.Invariant.{Inv, generate_next_configuration_lem}
use wtf.Coordinator.Handlers.{
  Outcome, success, duplicate, not_found, no_can_do, uninitialized, configuration, silence, init,
  read_only, server_register, server_online, bring_online, rebind, server_offline, server_shutdown,
  server_kill, server_forget, server_suspect, is_available, is_usable, config_get, config_ack,
  config_stable, checkpoint_stable, alarm,
}
use wtf.Coordinator.Safety.{
  current, Cached, Roomy, Good, Good-same, Good-if, Inv-suspect, Inv-members,
}
use wtf.Coordinator.Safety.Members.{
  server_offline-Good, server_shutdown-Good, server_kill-Good, server_suspect-Good,
  server_forget-Good, server_register-Good, init-Good, read_only-Good,
}
use wtf.Coordinator.Safety.Passes.{
  config_ack-Good, config_stable-Good, checkpoint_stable-Good, alarm-Good,
}

-- The calls of transitions.cc that reach the coordinator, with their unpacked arguments.
pub data Call (Loc : Type 0) : Type 0 where
  init_call : ℕ → Call Loc
  read_only_call : Bool → Call Loc
  config_get_call : Call Loc
  config_ack_call config_stable_call : ℕ → ℕ → Call Loc
  register_call : ℕ → Loc → Call Loc
  online_call : ℕ → Option Loc → Call Loc
  offline_call shutdown_call kill_call forget_call suspect_call : ℕ → Call Loc
  report_disconnect_call : ℕ → ℕ → Call Loc
  checkpoint_stable_call : ℕ → ℕ → ℕ → Call Loc
  alarm_call : Call Loc

module _ {Loc : Type 0} where
  get_server-id :
      (sid : ℕ) (srv : Server Loc) (l : List (Server Loc))
      → get_server sid l ≡ some srv
      → srv.id ≡ sid
  unfolding get_server
  get_server-id sid srv [] e = cc
  get_server-id sid srv (u ∷ l) e = ground (arith, get_server-id sid srv l)

  put_server-get :
      (sid : ℕ) (srv t : Server Loc) (l : List (Server Loc))
      → get_server sid l ≡ some srv
      → t ≡ srv
      → put_server t l ≡ l
  unfolding get_server put_server
  put_server-get sid srv t [] e q = cc
  put_server-get sid srv t (u ∷ l) e q =
      ground (arith, put_server-get sid srv t l, get_server-id sid srv l)

  same_server :
      (srv : Server Loc) (loc : Loc)
      → is_available srv.state ≡ true
      → loc ≡ srv.bind_to
      → record srv { state = available; bind_to = loc } ≡ srv
  unfolding is_available
  same_server srv loc h e = ground arith

  rebind_same :
      (same : Loc → Loc → Bool) (srv : Server Loc) (o : Option Loc) (l : List (Server Loc))
      (loc : Loc)
      → rebind same srv o l ≡ some (loc, false)
      → loc ≡ srv.bind_to
  unfolding rebind
  rebind_same same srv none l loc e = ground arith
  rebind_same same srv (some x) l loc e = ground arith

module _ {Ctx Loc : Type 0} (env : Env Ctx) (net : Net Loc) where
  -- The call behind the checks of transitions.cc.
  unfoldable pub dispatch : Call Loc → Coordinator Ctx Loc → Outcome Ctx Loc
  dispatch (init_call token) s = init env token s
  dispatch (read_only_call ro) s = read_only env ro s
  dispatch config_get_call s = config_get env s
  dispatch (config_ack_call sid version) s = config_ack env sid version s
  dispatch (config_stable_call sid version) s = config_stable env sid version s
  dispatch (register_call sid bind_to) s = server_register env net sid bind_to s
  dispatch (online_call sid bind_to) s = server_online env net sid bind_to s
  dispatch (offline_call sid) s = server_offline env sid s
  dispatch (shutdown_call sid) s = server_shutdown env sid s
  dispatch (kill_call sid) s = server_kill env sid s
  dispatch (forget_call sid) s = server_forget env sid s
  dispatch (suspect_call sid) s = server_suspect env sid s
  dispatch (report_disconnect_call sid version) s = some (silence, s)
  dispatch (checkpoint_stable_call sid config number) s = checkpoint_stable env sid config number s
  dispatch alarm_call s = alarm env s

  -- `PROTECT_UNINITIALIZED`, which every call but the first makes.
  unfoldable pub perform : Call Loc → Coordinator Ctx Loc → Outcome Ctx Loc
  unfolding dispatch
  perform (init_call token) s = dispatch (init_call token) s
  perform call s = if s.cluster == 0 then some (uninitialized, s) else dispatch call s

module _ {Ctx Loc : Type 0} (env : Env Ctx) (value : ℕ → Ctx → ℕ) (law : Counts env value) where
  Good-online :
      (sid : ℕ) (srv : Server Loc) (loc : Loc) (changed : Bool) (s : Coordinator Ctx Loc)
      → (changed ≡ false → loc ≡ srv.bind_to)
      → get_server sid s.servers ≡ some srv
      → Inv value s
      → Cached s
      → Roomy s
      → Good env value law s (bring_online env sid srv loc changed s)
  unfolding bring_online
  Good-online sid srv loc changed s same found v c w =
      let srv' = record srv { state = available; bind_to = loc } in
      let s' = record s { servers = put_server srv' s.servers } in
      elim (Bool-cases (changed || not (is_available srv.state))) [
        | inl q ↦
            let (t, e, i, j) =
              generate_next_configuration_lem env value law s'
                (Inv-members env value law s.cluster s.flags (put_server srv' s.servers) s.offline s
                  v)
                w.0 in
            (
              success,
              record t { ctx = env.suspect sid t.ctx },
              rw (q, bring_online) (rw e refl),
              Inv-suspect env value law sid t i,
              inr (
                ground (arith, j.version),
                ground (arith, j.version, j.servers, j.cluster, j.flags, j.latest),
              ),
              ground (arith, j.version),
            )
        | inr q ↦
            let still =
              put_server-get sid srv srv' s.servers found
                (same_server srv loc (ground arith) (same (ground arith))) in
            (
              success,
              record s' { ctx = env.suspect sid s.ctx },
              rw (q, bring_online) refl,
              Inv-suspect env value law sid s' (
                  Inv-members env value law s.cluster s.flags (put_server srv' s.servers) s.offline
                    s v),
              rw still c,
              omega arith,
            )
      ]

  server_online-Good :
      (net : Net Loc) (sid : ℕ) (o : Option Loc) (s : Coordinator Ctx Loc)
      → Inv value s
      → Cached s
      → Roomy s
      → Good env value law s (server_online env net sid o s)
  unfolding server_online
  server_online-Good net sid o s v c w = elim (Option-cases (get_server sid s.servers)) [
    | inl e ↦ rw (e, server_online) (Good-same env value law not_found s v c)
    | inr (srv, e) ↦ elim (Option-cases (rebind net.same srv o s.servers)) [
      | inl q ↦
          rw (e, server_online)
            (Good-if env value law (is_usable srv.state) s _ _
              (rw q (Good-same env value law duplicate s v c))
              (Good-same env value law no_can_do s v c))
      | inr ((loc, changed), q) ↦
          rw (e, server_online)
            (Good-if env value law (is_usable srv.state) s _ _
              (rw q (
                Good-online sid srv loc changed s
                  (λ f. rebind_same net.same srv o s.servers loc (ground (arith, q, f))) e v c w))
              (Good-same env value law no_can_do s v c))
    ]
  ]

  config_get-Good :
      (s : Coordinator Ctx Loc)
      → Inv value s
      → Cached s
      → s.cluster ≢ 0
      → config_get env s ≡ some (configuration (current s), s)
  unfolding config_get
  config_get-Good s v (inl z) ne = absurd (ne z)
  config_get-Good s v (inr (pos, latest)) ne = ground arith

  dispatch-Good :
      (net : Net Loc) (call : Call Loc) (s : Coordinator Ctx Loc)
      → s.cluster ≢ 0
      → Inv value s
      → Cached s
      → Roomy s
      → Good env value law s (dispatch env net call s)
  unfolding dispatch
  dispatch-Good net (init_call token) s ne v c w = init-Good env value law token s v c w
  dispatch-Good net (read_only_call ro) s ne v c w = read_only-Good env value law ro s v c w
  dispatch-Good net config_get_call s ne v c w =
      (configuration (current s), s, config_get-Good s v c ne, v, c, omega arith)
  dispatch-Good net (config_ack_call sid version) s ne v c w =
      config_ack-Good env value law sid version s v c w
  dispatch-Good net (config_stable_call sid version) s ne v c w =
      config_stable-Good env value law sid version s v c w
  dispatch-Good net (register_call sid loc) s ne v c w =
      server_register-Good env value law net sid loc s v c w
  dispatch-Good net (online_call sid o) s ne v c w = server_online-Good net sid o s v c w
  dispatch-Good net (offline_call sid) s ne v c w = server_offline-Good env value law sid s v c w
  dispatch-Good net (shutdown_call sid) s ne v c w = server_shutdown-Good env value law sid s v c w
  dispatch-Good net (kill_call sid) s ne v c w = server_kill-Good env value law sid s v c w
  dispatch-Good net (forget_call sid) s ne v c w = server_forget-Good env value law sid s v c w
  dispatch-Good net (suspect_call sid) s ne v c w = server_suspect-Good env value law sid s v c w
  dispatch-Good net (report_disconnect_call sid version) s ne v c w =
      Good-same env value law silence s v c
  dispatch-Good net (checkpoint_stable_call sid config number) s ne v c w =
      checkpoint_stable-Good env value law sid config number s v c w
  dispatch-Good net alarm_call s ne v c w = alarm-Good env value law s v c w

  -- If conditions count broadcasts, then from a state with the invariant whose cached configuration
  -- is current, and while the version and the checkpoint number can be counted on, every call fails
  -- no assertion and ends, in a state with the invariant whose cached configuration is current, and
  -- whose version is not lower.
  pub perform-Good :
      (net : Net Loc) (call : Call Loc) (s : Coordinator Ctx Loc)
      → Inv value s
      → Cached s
      → Roomy s
      → Good env value law s (perform env net call s)
  unfolding perform
  perform-Good net (init_call token) s v c w = init-Good env value law token s v c w
  perform-Good net call s v c w = elim (Bool-cases (s.cluster == 0)) [
    | inl z ↦ rw z (Good-same env value law uninitialized s v c)
    | inr z ↦ rw z (dispatch-Good net call s (ground arith) v c w)
  ]

  -- If conditions count broadcasts, then from a state with the invariant, a current cached
  -- configuration and a cluster, the call of `config_get` answers with the cluster, version, flags and
  -- servers of the state, and changes nothing.
  pub config_get-current :
      (net : Net Loc) (s : Coordinator Ctx Loc)
      → Inv value s
      → Cached s
      → s.cluster ≢ 0
      → perform env net config_get_call s ≡ some (configuration (current s), s)
  unfolding perform dispatch
  config_get-current net s v c ne = ground (arith, config_get-Good s v c ne)
