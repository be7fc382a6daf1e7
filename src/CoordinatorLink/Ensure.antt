-- ===== src/CoordinatorLink/Ensure.antt =====
-- That `ensure_configuration` ends, and that where it says so there is a configuration to use.
use wtf.Prelude.{
  ℕ, zero, suc, ◌+◌, ◌≤◌, ◌<◌, ◌≡◌, refl, ap, sym, subst, ◌∙◌, Bool, true, false, Option, none,
  some, List, [], ◌++◌, arith, ◌==◌, if◌then◌else◌, add64,
}
use mathlib.Core.List.{append_assoc, append-nil}
use wtf.Codec.{Codec}
use wtf.Configuration.Wire.{Addresses}
use wtf.CoordinatorLink.{
  ReturnCode, Client, State, nothing, waiting_on_broadcast, fetching_config, Link, get_config,
  Round, return, again, begun, begin_in, await_config, success, prime_state_machine,
}
use wtf.CoordinatorLink.Loops.{ensure_round, ensure_configuration}
use wtf.CoordinatorLink.Ready.{
  IsReady, Started, Ends, calls_left, primed, prime_lem, primed-Started, busy,
}
use wtf.CoordinatorLink.Callback.{AllDistinct}
use wtf.CoordinatorLink.Answers.{weight, Ensured, EnsureRounded, ensure_answer_lem}

module _ {C Loc : Type 0} (codec : Codec) (addresses : Addresses Loc) (env : Client C)
    (open_ops : C → ℕ) (law : Ends env open_ops) where
  weight-begun :
      (state : State) (id : Option ℕ) (rc : ReturnCode) (x : C) (s : Link C Loc)
      → (begun state id rc x s).0 ≡ true
      → weight codec addresses env open_ops law (begun state id rc x s).1
        ≡ open_ops x + calls_left state s.config.version
  unfolding begun
  weight-begun state none rc x s e = cc
  weight-begun state (some i) rc x s e = refl

  weight-primed :
      (t : State) (s : Link C Loc)
      → s.state ≡ t
      → (primed env t s).0 ≡ true
      → weight codec addresses env open_ops law (primed env t s).1
        ≤ weight codec addresses env open_ops law s
  unfolding primed
  weight-primed nothing s e ok =
      let s' = record s { state = waiting_on_broadcast; status = success } in
      let r = await_config (add64 s.config.version 1) in
      let fetched = begin_in env fetching_config get_config s' in
      let waited = begin_in env waiting_on_broadcast r s in
      let holds = λ (b : Bool).
        (if b then fetched else waited).0 ≡ true
        → weight codec addresses env open_ops law (if b then fetched else waited).1
          ≤ open_ops s.repl + (if b then 1 else 2) in
      let both = elim (s.config.version == 0) as holds [
        | true ↦
            let (id, rc, x) = env.send get_config s.repl in
            let k = law.sent get_config s.repl in
            λ h. omega (arith, k, weight-begun fetching_config id rc x s' h)
        | false ↦
            let (id, rc, x) = env.send r s.repl in
            let k = law.sent r s.repl in
            λ h. omega (arith, k, weight-begun waiting_on_broadcast id rc x s h)
      ] in
      let w = ap (λ a. open_ops s.repl + calls_left a s.config.version) e in
      omega (arith, both ok, w)
  weight-primed waiting_on_broadcast s e ok = omega arith
  weight-primed fetching_config s e ok = omega arith

  round_from :
      (s : Link C Loc) (p : Bool × Link C Loc)
      → prime_state_machine env s ≡ some p
      → Started s p
      → (p.0 ≡ true
          → weight codec addresses env open_ops law p.1 ≤ weight codec addresses env open_ops law s)
      → AllDistinct codec addresses env
      → (q : Round Bool × Link C Loc) × (ensure_round codec addresses env s ≡ some q)
        × EnsureRounded codec addresses env open_ops law s q
  unfolding ensure_round
  round_from s (true, t) e w ew d =
      let h = w.has_id in
      let (q, a, v) =
        ensure_answer_lem codec addresses env open_ops law s t w.ready h w.kept w.queued (ew refl)
          d in
      (q, rw (e, h, busy t w.ready h, a) refl, v)
  round_from s (false, t) e w ew d = (
    (return false, t),
    rw e refl,
    record {
      ready = w.ready;
      more = [];
      queued = w.queued ∙ sym (append-nil s.pending_ids);
      says = w.kept;
    },
  )

  round_lem :
      (s : Link C Loc)
      → IsReady s
      → AllDistinct codec addresses env
      → (q : Round Bool × Link C Loc) × (ensure_round codec addresses env s ≡ some q)
        × EnsureRounded codec addresses env open_ops law s q
  round_lem s r d =
      round_from s (primed env s.state s) (prime_lem env s r) (primed-Started env s.state s refl r)
        (weight-primed s.state s refl) d

  pub record EnsureSays (s : Link C Loc) (r : Bool × Link C Loc) : Type 0 where
    pub ready : IsReady r.1
    pub more : List ℕ
    pub queued : r.1.pending_ids ≡ s.pending_ids ++ more
    pub says : Ensured codec addresses env open_ops law r.0 s.config r.1.config

  after_round :
      (s : Link C Loc) (fuel : ℕ) (q : Round Bool × Link C Loc)
      → ensure_round codec addresses env s ≡ some q
      → EnsureRounded codec addresses env open_ops law s q
      → weight codec addresses env open_ops law s < suc fuel
      → (weight codec addresses env open_ops law q.1 < fuel
          → IsReady q.1
          → (r : Bool × Link C Loc) × (ensure_configuration codec addresses env fuel q.1 ≡ some r)
            × EnsureSays q.1 r)
      → (r : Bool × Link C Loc) × (ensure_configuration codec addresses env (suc fuel) s ≡ some r)
        × EnsureSays s r
  unfolding ensure_configuration
  after_round s fuel (return a, u) e v h ih = (
    (a, u),
    rw e refl,
    record { ready = v.ready; more = v.more; queued = v.queued; says = v.says },
  )
  after_round s fuel (again, u) e v h ih =
      let (r, p, w) = ih (omega (arith, h, v.says.1)) v.ready in
      (
        r,
        rw e p,
        record {
          ready = w.ready;
          more = v.more ++ w.more;
          queued =
              w.queued ∙ ap (λ l. l ++ w.more) v.queued ∙ append_assoc s.pending_ids v.more w.more;
          says =
              subst (λ c. Ensured codec addresses env open_ops law r.0 c r.1.config) v.says.0
                w.says;
        },
      )

  pub ensure_lem :
      (fuel : ℕ) (s : Link C Loc)
      → weight codec addresses env open_ops law s < fuel
      → IsReady s
      → AllDistinct codec addresses env
      → (r : Bool × Link C Loc) × (ensure_configuration codec addresses env fuel s ≡ some r)
        × EnsureSays s r
  ensure_lem zero s h w d = absurd (omega (arith, h))
  ensure_lem (suc fuel) s h w d =
      let (q, e, v) = round_lem s w d in
      after_round s fuel q e v h (λ k r. ensure_lem fuel q.1 k r d)
