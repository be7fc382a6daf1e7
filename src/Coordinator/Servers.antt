-- ===== src/Coordinator/Servers.antt =====
-- The servers of the coordinator stand in the order of their ids, whatever calls it gets.
use wtf.Prelude.{
  ℕ, ◌≡◌, refl, Bool, true, false, Option, none, some, arith, inl, inr, Option-cases, length,
  if◌then◌else◌, subst,
}
use wtf.Barrier.{pass}
use wtf.Server
use wtf.Server.{
  Server, State, available, not_available, shutdown, killed, remove_offline, get_server, put_server,
  new_server, swap_out, stable_sort,
}
use wtf.Server.Order.{
  Ascending, Without-get, put_server-Ascending, new_server-Ascending, forget-Ascending,
}
use wtf.Coordinator.{
  Coordinator, Env, Net, check_ack_condition, check_stable_condition, generate_next_configuration,
  check_checkpoint_stable_condition,
}
use wtf.Coordinator.Handlers.{
  Response, Outcome, success, silence, not_found, set_read_only, respond, init, read_only,
  server_register, server_online, bring_online, rebind, change_state, server_offline,
  server_shutdown, server_kill, server_forget, server_suspect, config_get, config_ack,
  config_stable, checkpoint, checkpoint_stable, alarm,
}
use wtf.Coordinator.Calls.{
  Call, init_call, read_only_call, config_get_call, config_ack_call, config_stable_call,
  register_call, online_call, offline_call, shutdown_call, kill_call, forget_call, suspect_call,
  report_disconnect_call, checkpoint_stable_call, alarm_call, dispatch, perform,
}
use wtf.Coordinator.Reachable.{Reachable, started, called}

module _ {Ctx Loc : Type 0} (env : Env Ctx) where
  ack-servers :
      (s t : Coordinator Ctx Loc) → check_ack_condition env s ≡ some t → t.servers ≡ s.servers
  unfolding check_ack_condition
  ack-servers s t e = ground arith

  stable-servers :
      (s t : Coordinator Ctx Loc) → check_stable_condition env s ≡ some t → t.servers ≡ s.servers
  unfolding check_stable_condition
  stable-servers s t e = ground arith

  checkpoint-servers :
      (s t : Coordinator Ctx Loc)
      → check_checkpoint_stable_condition env s ≡ some t
      → t.servers ≡ s.servers
  unfolding check_checkpoint_stable_condition
  checkpoint-servers s t e = ground arith

  next-servers :
      (s t : Coordinator Ctx Loc)
      → generate_next_configuration env s ≡ some t
      → t.servers ≡ s.servers
  unfolding generate_next_configuration
  next-servers s t e = ground arith

module _ {Ctx Loc : Type 0} where
  -- If the call ended, then the servers are in order.
  abbrev pub InOrder : Outcome Ctx Loc → Type 0
  InOrder none = Unit {0}
  InOrder (some (r, t)) = Ascending 0 t.servers

  InOrder-if :
      (b : Bool) (o p : Outcome Ctx Loc) → InOrder o → InOrder p → InOrder (if b then o else p)
  InOrder-if true o p i j = i
  InOrder-if false o p i j = j

  InOrder-respond :
      (r : Response Loc) (s : Coordinator Ctx Loc) (o : Option (Coordinator Ctx Loc))
      → Ascending 0 s.servers
      → ((t : Coordinator Ctx Loc) → o ≡ some t → t.servers ≡ s.servers)
      → InOrder (respond r o)
  InOrder-respond r s none a k = tt
  InOrder-respond r s (some t) a k = rw (k t refl) a

module _ {Ctx Loc : Type 0} (env : Env Ctx) where
  issue-InOrder :
      (r : Response Loc) (s : Coordinator Ctx Loc)
      → Ascending 0 s.servers
      → InOrder (respond r (generate_next_configuration env s))
  issue-InOrder r s a =
      InOrder-respond r s (generate_next_configuration env s) a (next-servers env s)

  change_state-InOrder :
      (k : State) (srv : Server Loc) (s : Coordinator Ctx Loc)
      → Ascending 0 s.servers
      → InOrder (change_state env k srv s)
  unfolding change_state
  change_state-InOrder k srv s a =
      issue-InOrder _ _ (put_server-Ascending 0 (record srv { state = k }) s.servers a)

  -- The shape of the calls that look a server up, and test its state.
  InOrder-found {ℓ} :
      {A : Type ℓ} (m : Option A) (f : A → Outcome Ctx Loc) (o : Outcome Ctx Loc)
      → InOrder o
      → ((a : A) → m ≡ some a → InOrder (f a))
      → InOrder (elim m [ none ↦ o | some a ↦ f a ])
  InOrder-found none f o i j = i
  InOrder-found (some a) f o i j = j a refl

  server_offline-InOrder :
      (sid : ℕ) (s : Coordinator Ctx Loc)
      → Ascending 0 s.servers
      → InOrder (server_offline env sid s)
  unfolding server_offline
  server_offline-InOrder sid s a =
      InOrder-found (get_server sid s.servers) _ (some (not_found, s)) a
        (λ srv e. ground (arith, change_state-InOrder not_available srv s a))

  server_shutdown-InOrder :
      (sid : ℕ) (s : Coordinator Ctx Loc)
      → Ascending 0 s.servers
      → InOrder (server_shutdown env sid s)
  unfolding server_shutdown
  server_shutdown-InOrder sid s a =
      InOrder-found (get_server sid s.servers) _ (some (not_found, s)) a
        (λ srv e. ground (arith, change_state-InOrder shutdown srv s a))

  server_kill-InOrder :
      (sid : ℕ) (s : Coordinator Ctx Loc) → Ascending 0 s.servers → InOrder (server_kill env sid s)
  unfolding server_kill
  server_kill-InOrder sid s a =
      InOrder-found (get_server sid s.servers) _ (some (not_found, s)) a (λ srv e. ground (
        arith,
        change_state-InOrder killed srv (record s { offline = remove_offline sid s.offline }) a,
      ))

  server_suspect-InOrder :
      (sid : ℕ) (s : Coordinator Ctx Loc)
      → Ascending 0 s.servers
      → InOrder (server_suspect env sid s)
  unfolding server_suspect
  server_suspect-InOrder sid s a =
      InOrder-found (get_server sid s.servers) _ (some (not_found, s)) a
        (λ srv e. ground (arith, change_state-InOrder not_available srv s a))

  server_forget-InOrder :
      (sid : ℕ) (s : Coordinator Ctx Loc)
      → Ascending 0 s.servers
      → InOrder (server_forget env sid s)
  unfolding server_forget
  server_forget-InOrder sid s a =
      InOrder-found (get_server sid s.servers) _ (some (not_found, s)) a (λ srv e.
        issue-InOrder success
          (record s {
            servers = stable_sort (swap_out (length s.servers) sid s.servers);
            offline = remove_offline sid s.offline;
          })
          (forget-Ascending (length s.servers) sid s.servers a))

  server_register-InOrder :
      (net : Net Loc) (sid : ℕ) (loc : Loc) (s : Coordinator Ctx Loc)
      → Ascending 0 s.servers
      → InOrder (server_register env net sid loc s)
  unfolding server_register
  server_register-InOrder net sid loc s a = elim (Option-cases (get_server sid s.servers)) [
    | inl e ↦
        let srv = record (Server.new net.unset sid) { bind_to = loc } in
        rw (e, server_register)
          (issue-InOrder success (record s { servers = new_server srv s.servers })
            (new_server-Ascending srv s.servers a (Without-get sid s.servers e)))
    | inr (srv, e) ↦ rw (e, server_register) a
  ]

  bring_online-InOrder :
      (sid : ℕ) (srv : Server Loc) (loc : Loc) (changed : Bool) (s : Coordinator Ctx Loc)
      → Ascending 0 s.servers
      → InOrder (bring_online env sid srv loc changed s)
  unfolding bring_online
  bring_online-InOrder sid srv loc changed s a =
      let srv' = record srv { state = available; bind_to = loc } in
      let s' = record s { servers = put_server srv' s.servers } in
      let b = put_server-Ascending 0 srv' s.servers a in
      elim (Option-cases (generate_next_configuration env s')) [
        | inl e ↦ ground (arith, e, b)
        | inr (t, e) ↦ ground (arith, e, b, next-servers env s' t e)
      ]

  server_online-InOrder :
      (net : Net Loc) (sid : ℕ) (o : Option Loc) (s : Coordinator Ctx Loc)
      → Ascending 0 s.servers
      → InOrder (server_online env net sid o s)
  unfolding server_online
  server_online-InOrder net sid o s a =
      InOrder-found (get_server sid s.servers) _ (some (not_found, s)) a (λ srv e.
        elim (Option-cases (rebind net.same srv o s.servers)) [
          | inl q ↦ ground (arith, q)
          | inr ((loc, changed), q) ↦
              ground (arith, q, bring_online-InOrder sid srv loc changed s a)
        ])

  checkpoint-InOrder :
      (s : Coordinator Ctx Loc) → Ascending 0 s.servers → InOrder (checkpoint env s)
  unfolding checkpoint check_checkpoint_stable_condition
  checkpoint-InOrder s a = InOrder-respond silence s _ a (λ t e. ground arith)

  dispatch-InOrder :
      (net : Net Loc) (call : Call Loc) (s : Coordinator Ctx Loc)
      → Ascending 0 s.servers
      → InOrder (dispatch env net call s)
  unfolding dispatch init read_only config_get config_ack config_stable checkpoint_stable alarm
  dispatch-InOrder net (init_call token) s a =
      ground (arith, issue-InOrder success (record s { ctx = env.alarm s.ctx; cluster = token }) a)
  dispatch-InOrder net (read_only_call ro) s a =
      ground (arith, issue-InOrder success (record s { flags = set_read_only ro s.flags }) a)
  dispatch-InOrder net config_get_call s a = ground arith
  dispatch-InOrder net (config_ack_call sid version) s a =
      let s' = record s { config_ack_barrier = pass version sid s.config_ack_barrier } in
      InOrder-respond silence s' (check_ack_condition env s') a (ack-servers env s')
  dispatch-InOrder net (config_stable_call sid version) s a =
      let s' = record s { config_stable_barrier = pass version sid s.config_stable_barrier } in
      InOrder-respond silence s' (check_stable_condition env s') a (stable-servers env s')
  dispatch-InOrder net (register_call sid loc) s a = server_register-InOrder net sid loc s a
  dispatch-InOrder net (online_call sid o) s a = server_online-InOrder net sid o s a
  dispatch-InOrder net (offline_call sid) s a = server_offline-InOrder sid s a
  dispatch-InOrder net (shutdown_call sid) s a = server_shutdown-InOrder sid s a
  dispatch-InOrder net (kill_call sid) s a = server_kill-InOrder sid s a
  dispatch-InOrder net (forget_call sid) s a = server_forget-InOrder sid s a
  dispatch-InOrder net (suspect_call sid) s a = server_suspect-InOrder sid s a
  dispatch-InOrder net (report_disconnect_call sid version) s a = a
  dispatch-InOrder net (checkpoint_stable_call sid config number) s a =
      let s' = record s {
        checkpoint_stable_barrier = pass number sid s.checkpoint_stable_barrier;
      } in
      let issued =
        InOrder-respond success s' (check_checkpoint_stable_condition env s') a
          (checkpoint-servers env s') in
      ground (arith, issued)
  dispatch-InOrder net alarm_call s a = checkpoint-InOrder (record s { ctx = env.alarm s.ctx }) a

  pub perform-InOrder :
      (net : Net Loc) (call : Call Loc) (s : Coordinator Ctx Loc)
      → Ascending 0 s.servers
      → InOrder (perform env net call s)
  unfolding perform
  perform-InOrder net (init_call token) s a = dispatch-InOrder net (init_call token) s a
  perform-InOrder net call s a = ground (arith, dispatch-InOrder net call s a)

-- In every state that a new coordinator comes to (by calls made while its counters can be counted on)
-- the ids of the servers rise along the vector: no two servers share an id.
pub Reachable-Ascending :
    {Ctx Loc : Type 0} (env : Env Ctx) (net : Net Loc) (value : ℕ → Ctx → ℕ)
    (s : Coordinator Ctx Loc)
    → Reachable env net value s
    → Ascending 0 s.servers
Reachable-Ascending env net value _ (started x z) = tt
Reachable-Ascending env net value _ (called call r s t reach room e) =
    subst InOrder e (perform-InOrder env net call s (Reachable-Ascending env net value s reach))
