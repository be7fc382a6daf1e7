-- ===== src/Coordinator/Safety/Members.antt =====
-- The calls on the cluster and on its servers end well: init, read_only, and server_*.
use wtf.Prelude.{ℕ, inl, inr, Bool, List, Option-cases}
use wtf.Server.{Server, State, not_available, get_server, put_server}
use wtf.Coordinator.{Coordinator, Env, Net}
use wtf.Coordinator.Conditions.{Counts}
use wtf.Coordinator.Invariant.{Inv}
use wtf.Coordinator.Handlers.{
  success, duplicate, not_found, no_can_do, init, read_only, set_read_only, server_register,
  server_offline, server_shutdown, server_kill, server_forget, server_suspect, change_state,
  is_shutdown, is_suspectable, is_down,
}
use wtf.Coordinator.Safety.{Cached, Roomy, Good, Inv-alarm, Good-same, Good-if, Good-issue}

module _ {Ctx Loc : Type 0} (env : Env Ctx) (value : ℕ → Ctx → ℕ) (law : Counts env value) where
  Good-change :
      (k : State) (srv : Server Loc) (o : List (Server Loc)) (s : Coordinator Ctx Loc)
      → Inv value s
      → Roomy s
      → Good env value law s (change_state env k srv (record s { offline = o }))
  unfolding change_state
  Good-change k srv o s v w =
      Good-issue env value law s.cluster s.flags (put_server (record srv { state = k }) s.servers) o
        s v w

  pub server_offline-Good :
      (sid : ℕ) (s : Coordinator Ctx Loc)
      → Inv value s
      → Cached s
      → Roomy s
      → Good env value law s (server_offline env sid s)
  unfolding server_offline
  server_offline-Good sid s v c w = elim (Option-cases (get_server sid s.servers)) [
    | inl e ↦ rw (e, server_offline) (Good-same env value law not_found s v c)
    | inr (srv, e) ↦
        rw (e, server_offline)
          (Good-if env value law _ s _ _
            (Good-if env value law _ s _ _ (Good-same env value law success s v c)
              (Good-change _ srv s.offline s v w))
            (Good-same env value law no_can_do s v c))
  ]

  pub server_shutdown-Good :
      (sid : ℕ) (s : Coordinator Ctx Loc)
      → Inv value s
      → Cached s
      → Roomy s
      → Good env value law s (server_shutdown env sid s)
  unfolding server_shutdown
  server_shutdown-Good sid s v c w = elim (Option-cases (get_server sid s.servers)) [
    | inl e ↦ rw (e, server_shutdown) (Good-same env value law not_found s v c)
    | inr (srv, e) ↦
        rw (e, server_shutdown)
          (Good-if env value law _ s _ _
            (Good-if env value law _ s _ _ (Good-same env value law success s v c)
              (Good-change _ srv s.offline s v w))
            (Good-same env value law no_can_do s v c))
  ]

  pub server_kill-Good :
      (sid : ℕ) (s : Coordinator Ctx Loc)
      → Inv value s
      → Cached s
      → Roomy s
      → Good env value law s (server_kill env sid s)
  unfolding server_kill
  server_kill-Good sid s v c w = elim (Option-cases (get_server sid s.servers)) [
    | inl e ↦ rw (e, server_kill) (Good-same env value law not_found s v c)
    | inr (srv, e) ↦
        rw (e, server_kill)
          (Good-if env value law _ s _ _ (Good-same env value law success s v c)
            (Good-change _ srv _ s v w))
  ]

  pub server_suspect-Good :
      (sid : ℕ) (s : Coordinator Ctx Loc)
      → Inv value s
      → Cached s
      → Roomy s
      → Good env value law s (server_suspect env sid s)
  unfolding server_suspect
  server_suspect-Good sid s v c w = elim (Option-cases (get_server sid s.servers)) [
    | inl e ↦ rw (e, server_suspect) (Good-same env value law not_found s v c)
    | inr (srv, e) ↦
        rw (e, server_suspect)
          (Good-if env value law (is_shutdown srv.state) s _ _
            (Good-same env value law success s v c)
            (Good-if env value law (is_suspectable srv.state) s _ _
              (Good-if env value law (is_down srv.state) s _ _
                (Good-same env value law success s v c)
                (Good-change not_available srv s.offline s v w))
              (Good-same env value law no_can_do s v c)))
  ]

  pub server_forget-Good :
      (sid : ℕ) (s : Coordinator Ctx Loc)
      → Inv value s
      → Cached s
      → Roomy s
      → Good env value law s (server_forget env sid s)
  unfolding server_forget
  server_forget-Good sid s v c w = elim (Option-cases (get_server sid s.servers)) [
    | inl e ↦ rw (e, server_forget) (Good-same env value law not_found s v c)
    | inr (srv, e) ↦ rw (e, server_forget) (Good-issue env value law s.cluster s.flags _ _ s v w)
  ]

  pub server_register-Good :
      (net : Net Loc) (sid : ℕ) (loc : Loc) (s : Coordinator Ctx Loc)
      → Inv value s
      → Cached s
      → Roomy s
      → Good env value law s (server_register env net sid loc s)
  unfolding server_register
  server_register-Good net sid loc s v c w = elim (Option-cases (get_server sid s.servers)) [
    | inr (srv, e) ↦ rw (e, server_register) (Good-same env value law duplicate s v c)
    | inl e ↦ rw (e, server_register) (Good-issue env value law s.cluster s.flags _ s.offline s v w)
  ]

  pub init-Good :
      (token : ℕ) (s : Coordinator Ctx Loc)
      → Inv value s
      → Cached s
      → Roomy s
      → Good env value law s (init env token s)
  unfolding init
  init-Good token s v c w =
      Good-if env value law _ s _ _
        (Good-issue env value law token s.flags s.servers s.offline
          (record s { ctx = env.alarm s.ctx }) (Inv-alarm env value law s v) w)
        (Good-same env value law success s v c)

  pub read_only-Good :
      (ro : Bool) (s : Coordinator Ctx Loc)
      → Inv value s
      → Cached s
      → Roomy s
      → Good env value law s (read_only env ro s)
  unfolding read_only
  read_only-Good ro s v c w =
      Good-if env value law _ s _ _ (Good-same env value law success s v c)
        (Good-issue env value law s.cluster (set_read_only ro s.flags) s.servers s.offline s v w)
