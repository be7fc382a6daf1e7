-- ===== src/CoordinatorLink/Ready.antt =====
-- The shape of a link between two calls, and what the steps that start an operation do to it.
use wtf.Prelude.{
  ℕ, suc, ◌≤◌, ◌<◌, ◌≡◌, refl, ap, Bool, true, false, Option, none, some, arith, ◌==◌, ◌⊎◌, inl,
  inr, subst, Bool-cases, if◌then◌else◌, add64,
}
use wtf.CoordinatorLink.{
  ReturnCode, success, garbage, Call, Client, State, nothing, waiting_on_broadcast, fetching_config,
  Link, new_link, is_none, is_nothing, reset, get_config, await_config, begun, begin_in,
  begin_waiting_on_broadcast, begin_fetching_config, prime_state_machine, force_configuration_fetch,
  pass_on,
}

-- A link in state NOTHING has no operation and the status GARBAGE; in the others it has an operation,
-- and it waits for a newer configuration only if it has one.
abbrev pub Shape : State → Option ℕ → ReturnCode → ℕ → Type 0
Shape nothing id rc version = (id ≡ none) × (rc ≡ garbage)
Shape waiting_on_broadcast id rc version = (is_none id ≡ false) × (0 < version)
Shape fetching_config id rc version = is_none id ≡ false

pub record IsReady {C Loc : Type 0} (s : Link C Loc) : Type 0 where
  pub output : s.output ≡ none
  pub shape : Shape s.state s.id s.status s.config.version

-- How many operations the link may still start before it has a new configuration or gives up.
abbrev pub calls_left : State → ℕ → ℕ
calls_left nothing version = if version == 0 then 1 else 2
calls_left waiting_on_broadcast version = 1
calls_left fetching_config version = 0

-- The operations that the client has in progress: a call starts one at most, and each id that `loop`
-- gives ends one.
pub record Ends {C : Type 0} (env : Client C) (open_ops : C → ℕ) : Type 0 where
  pub sent : (r : Call) (x : C) → open_ops (env.send r x).2 ≤ suc (open_ops x)
  pub killed : (i : ℕ) (x : C) → open_ops (env.kill i x) ≤ open_ops x
  pub failed_loop : (timeout : Option ℕ) (x : C) → open_ops (env.loop timeout x).1 ≤ open_ops x
  pub ended :
      (timeout : Option ℕ) (x : C) (i : ℕ)
      → (env.loop timeout x).0.lid ≡ some i
      → open_ops (env.loop timeout x).1 < open_ops x

pub State-cases : (t : State) → (t ≡ nothing) ⊎ (t ≡ waiting_on_broadcast) ⊎ (t ≡ fetching_config)
State-cases nothing = inl refl
State-cases waiting_on_broadcast = inr (inl refl)
State-cases fetching_config = inr (inr refl)

newer : (v : ℕ) → (v == 0) ≡ false → 0 < v
newer v z = ground arith

module _ {C Loc : Type 0} where
  -- What a step that may start an operation keeps, and whether it has one then.
  pub record Started (s : Link C Loc) (r : Bool × Link C Loc) : Type 0 where
    pub ready : IsReady r.1
    pub kept : r.1.config ≡ s.config
    pub queued : r.1.pending_ids ≡ s.pending_ids
    pub has_id : is_none r.1.id ≡ (if r.0 then false else true)

  pub new_link-IsReady : (x : C) (rc : ReturnCode) → IsReady (new_link {C = C} {Loc = Loc} x rc)
  new_link-IsReady x rc = record { output = refl; shape = (refl, refl) }

  pub begun-Started :
      (state : State) (id : Option ℕ) (rc : ReturnCode) (x : C) (s : Link C Loc)
      → s.output ≡ none
      → ((i : ℕ) → Shape state (some i) rc s.config.version)
      → Started s (begun state id rc x s)
  unfolding begun reset
  begun-Started state none rc x s e h = record {
    ready = record { output = refl; shape = (refl, refl) };
    kept = refl;
    queued = refl;
    has_id = refl;
  }
  begun-Started state (some i) rc x s e h = record {
    ready = record { output = e; shape = h i };
    kept = refl;
    queued = refl;
    has_id = refl;
  }

  module _ (env : Client C) where
    pub begin_fetching_lem :
        (s : Link C Loc)
        → s.id ≡ none
        → s.state ≡ waiting_on_broadcast
        → s.status ≡ success
        → s.output ≡ none
        → begin_fetching_config env s ≡ some (begin_in env fetching_config get_config s)
    unfolding begin_fetching_config
    begin_fetching_lem s e1 e2 e3 e4 = simp (e1, e2, e3, e4) refl

    -- The link primed: what is run where the link has no operation.
    unfoldable pub primed : State → Link C Loc → Bool × Link C Loc
    primed nothing s =
        if s.config.version == 0
        then begin_in env fetching_config get_config
            (record s { state = waiting_on_broadcast; status = success })
        else begin_in env waiting_on_broadcast (await_config (add64 s.config.version 1)) s
    primed waiting_on_broadcast s = (true, s)
    primed fetching_config s = (true, s)

    pub prime_lem :
        (s : Link C Loc) → IsReady s → prime_state_machine env s ≡ some (primed s.state s)
    unfolding prime_state_machine begin_waiting_on_broadcast begin_fetching_config primed
    prime_lem s r = elim (State-cases s.state) [
      | inl e ↦
          let shape = subst (λ t. Shape t s.id s.status s.config.version) e r.shape in
          simp (e, shape.0, shape.1, r.output) (ground arith)
      | inr (inl e) ↦
          let shape = subst (λ t. Shape t s.id s.status s.config.version) e r.shape in
          simp (e, shape.0) refl
      | inr (inr e) ↦
          let shape = subst (λ t. Shape t s.id s.status s.config.version) e r.shape in
          simp (e, shape) refl
    ]

    pub primed-Started :
        (t : State) (s : Link C Loc) → s.state ≡ t → IsReady s → Started s (primed t s)
    unfolding primed
    primed-Started nothing s e r =
        let shape = subst (λ t. Shape t s.id s.status s.config.version) e r.shape in
        elim (Bool-cases (s.config.version == 0)) [
          | inl z ↦
              let s' = record s { state = waiting_on_broadcast; status = success } in
              let (id, rc, x) = env.send get_config s.repl in
              let w = begun-Started fetching_config id rc x s' r.output (λ i. refl) in
              rw z (record { ready = w.ready; kept = w.kept; queued = w.queued; has_id = w.has_id })
          | inr z ↦
              let (id, rc, x) = env.send (await_config (add64 s.config.version 1)) s.repl in
              let h = newer s.config.version z in
              rw z (begun-Started waiting_on_broadcast id rc x s r.output (λ i. (refl, h)))
        ]
    primed-Started waiting_on_broadcast s e r =
        let shape = subst (λ t. Shape t s.id s.status s.config.version) e r.shape in
        record { ready = r; kept = refl; queued = refl; has_id = shape.0 }
    primed-Started fetching_config s e r =
        let shape = subst (λ t. Shape t s.id s.status s.config.version) e r.shape in
        record { ready = r; kept = refl; queued = refl; has_id = shape }

    pub forced-Started :
        (s : Link C Loc)
        → IsReady s
        → (r : Bool × Link C Loc) × (force_configuration_fetch env s ≡ some r)
          × IsReady r.1
          × (r.1.config ≡ s.config)
          × (r.1.pending_ids ≡ s.pending_ids)
          × (is_none r.1.id ≡ (if r.0 then false else true))
    unfolding force_configuration_fetch begin_fetching_config
    forced-Started s r =
        let x : C = elim s.id [ none ↦ s.repl | some i ↦ env.kill i s.repl ] in
        let s' = record s {
          repl = x;
          id = none;
          state = waiting_on_broadcast;
          status = success;
          output = none;
        } in
        let (id, rc, y) = env.send get_config x in
        let w = begun-Started fetching_config id rc y s' refl (λ i. refl) in
        (begun fetching_config id rc y s', refl, w.ready, w.kept, w.queued, w.has_id)

    pub pass_on-IsReady : (r : Call) (s : Link C Loc) → IsReady s → IsReady (pass_on env r s).1
    unfolding pass_on
    pass_on-IsReady r s w = record { output = w.output; shape = w.shape }

module _ {C Loc : Type 0} where
  pub busy : (s : Link C Loc) → IsReady s → is_none s.id ≡ false → is_nothing s.state ≡ false
  busy s r h = elim (State-cases s.state) [
    | inl e ↦
        let shape = subst (λ t. Shape t s.id s.status s.config.version) e r.shape in
        let a : is_none s.id ≡ true = ap is_none shape.0 in cc
    | inr (inl e) ↦ ap is_nothing e
    | inr (inr e) ↦ ap is_nothing e
  ]
