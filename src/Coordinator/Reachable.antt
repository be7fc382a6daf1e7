-- ===== src/Coordinator/Reachable.antt =====
-- Every state that a new coordinator comes to, one call after another.
use wtf.Prelude.{ℕ, ◌≤◌, ◌≡◌, ◌∙◌, refl, sym, ap, subst, some, arith, inl}
use mathlib.Core.Option.{some-injective}
use wtf.Barrier.{initial, min_version}
use wtf.Coordinator.{Coordinator, Env, Net, start}
use wtf.Coordinator.Conditions.{Counts}
use wtf.Coordinator.Invariant.{Inv, IsGate}
use wtf.Coordinator.Safety.{Cached, Roomy}
use wtf.Coordinator.Handlers.{Response}
use wtf.Coordinator.Calls.{Call, perform, perform-Good}

initial-IsGate : IsGate 0 0 initial
unfolding min_version
initial-IsGate = record { shape = (tt, tt); front = refl; newest = omega arith }

-- The states that a new coordinator, whose conditions stand at 0, comes to by calls that are made
-- while the counters can be counted on.
pub data Reachable {Ctx Loc : Type 0} (env : Env Ctx) (net : Net Loc) (value : ℕ → Ctx → ℕ)
    : Coordinator Ctx Loc → Type 0 where
  started : (x : Ctx) → ((d : ℕ) → value d x ≡ 0) → Reachable env net value (start x)
  called :
      (call : Call Loc) (r : Response Loc) (s t : Coordinator Ctx Loc)
      → Reachable env net value s
      → Roomy s
      → perform env net call s ≡ some (r, t)
      → Reachable env net value t

module _ {Ctx Loc : Type 0} (env : Env Ctx) (net : Net Loc) (value : ℕ → Ctx → ℕ)
    (law : Counts env value) where
  start-Inv : (x : Ctx) → ((d : ℕ) → value d x ≡ 0) → Inv {Loc = Loc} value (start x)
  start-Inv x zero_value = record {
    config_value = zero_value 0;
    ack_value = zero_value 1;
    stable_value = zero_value 2;
    checkp_value = zero_value 3;
    checkps_value = zero_value 4;
    checkpgc_value = zero_value 5;
    acks = initial-IsGate;
    stables = initial-IsGate;
    checkpoints = initial-IsGate;
    collected = refl;
  }

  -- If conditions count broadcasts, then in every reachable state the six conditions have the values
  -- of the fields that follow them, each of the three "through" fields is the smallest version of its
  -- barrier, garbage collection is 120 checkpoints behind, and the cached configuration is the
  -- current one once there is a cluster.
  pub Reachable-Inv : (s : Coordinator Ctx Loc) → Reachable env net value s → Inv value s × Cached s
  Reachable-Inv _ (started x zero_value) = (start-Inv x zero_value, inl refl)
  Reachable-Inv _ (called call r s t reach room e) =
      let (v, c) = Reachable-Inv s reach in
      let (r', t', e', v', c', _) = perform-Good env value law net call s v c room in
      let same : t' ≡ t = ap (λ p. p.1) (some-injective (r', t') (r, t) (sym e' ∙ e)) in
      subst (λ u. Inv value u × Cached u) same (v', c')

  -- In a reachable state, and while the counters can be counted on, every call gives a response: no
  -- assertion fails and every loop ends. The version does not fall.
  pub Reachable-answers :
      (call : Call Loc) (s : Coordinator Ctx Loc)
      → Reachable env net value s
      → Roomy s
      → (r : Response Loc) × (t : Coordinator Ctx Loc) × (perform env net call s ≡ some (r, t))
        × Reachable env net value t
        × (s.version ≤ t.version)
  Reachable-answers call s reach room =
      let (v, c) = Reachable-Inv s reach in
      let (r, t, e, _, _, h) = perform-Good env value law net call s v c room in
      (r, t, e, called call r s t reach room e, h)
