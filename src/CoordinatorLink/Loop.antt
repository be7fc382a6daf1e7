-- ===== src/CoordinatorLink/Loop.antt =====
-- What `loop` returns, after two rounds at most, and what it does to the configuration.
use wtf.Prelude.{
  ℕ, suc, ◌≡◌, refl, inl, inr, Bool, true, false, Option, none, some, List, [], ◌∷◌, Bool-cases,
  subst, sym, ap, ◌∙◌, ◌≢◌,
}
use wtf.Codec.{Codec}
use wtf.Coordinator.{Config}
use wtf.Configuration.Wire.{Addresses}
use wtf.CoordinatorLink.{
  Client, State, waiting_on_broadcast, fetching_config, Link, after_loop, same_id, Returned, error,
  new_config, ended, to_returned, Round, return, again, Outcome, updated, failed, working,
  is_waiting, is_nothing, handle_internal_callback, prime_state_machine,
}
use wtf.CoordinatorLink.Loops.{loop_answer, loop_round, loop_rounds, loop}
use wtf.CoordinatorLink.Ready.{IsReady, Started, primed, prime_lem, primed-Started, busy}
use wtf.CoordinatorLink.Callback.{Adopted, Handled, AllDistinct, callback-Handled}

module _ {C Loc : Type 0} (codec : Codec) (addresses : Addresses Loc) (env : Client C) where
  -- What a round of `loop` comes to; it goes on only from waiting to fetching.
  abbrev pub Says : Returned → Config Loc → Config Loc → Type 0
  Says error old new = new ≡ old
  Says (ended i) old new = new ≡ old
  Says new_config old new =
      (timeout : Option ℕ) × (x : C) × Adopted codec addresses (env.loop timeout x).0.output old new

  abbrev pub RoundSays : Round Returned → Link C Loc → Link C Loc → Type 0
  RoundSays (return a) s u = Says a s.config u.config
  RoundSays again s u =
      (u.config ≡ s.config) × (u.state ≡ fetching_config) × (s.state ≢ fetching_config)

  pub record Rounded (s : Link C Loc) (r : Round Returned × Link C Loc) : Type 0 where
    pub ready : IsReady r.1
    pub queued : r.1.pending_ids ≡ s.pending_ids
    pub says : RoundSays r.0 s r.1

  clash : (a : State) → a ≡ fetching_config → a ≡ waiting_on_broadcast → ⊥
  clash a e f = let h = ap is_waiting (sym e ∙ f) in cc

  after_callback :
      (timeout : Option ℕ) (x : C) (s t : Link C Loc) (r : Outcome × Link C Loc)
      → t.config ≡ s.config
      → t.pending_ids ≡ s.pending_ids
      → (s.state ≡ fetching_config → t.state ≡ fetching_config)
      → Handled codec addresses env (env.loop timeout x).0.output t r
      → Rounded s
          (elim r.0 [ updated ↦ return new_config | failed ↦ return error | working ↦ again ], r.1)
  after_callback timeout x s t (updated, u) ec eq es w = record {
    ready = w.ready;
    queued = w.queued ∙ eq;
    says = (
      timeout,
      x,
      subst (λ c. Adopted codec addresses (env.loop timeout x).0.output c u.config) ec w.told,
    );
  }
  after_callback timeout x s t (failed, u) ec eq es w = record {
    ready = w.ready;
    queued = w.queued ∙ eq;
    says = w.told ∙ ec;
  }
  after_callback timeout x s t (working, u) ec eq es w = record {
    ready = w.ready;
    queued = w.queued ∙ eq;
    says = (w.told.0 ∙ ec, w.told.2, λ h. clash t.state (es h) w.told.1);
  }

  Says-ended : (lid : Option ℕ) (old new : Config Loc) → new ≡ old → Says (to_returned lid) old new
  Says-ended none old new e = e
  Says-ended (some i) old new e = e

  pub loop_own :
      (lid : Option ℕ) (t : Link C Loc) (r : Outcome × Link C Loc)
      → same_id lid t.id ≡ true
      → handle_internal_callback codec addresses env t ≡ some r
      → loop_answer codec addresses env lid t
        ≡ some (
          elim r.0 [ updated ↦ return new_config | failed ↦ return error | working ↦ again ],
          r.1,
        )
  unfolding loop_answer
  loop_own lid t r e h = rw (e, loop_answer) (rw h refl)

  loop_other :
      (lid : Option ℕ) (t : Link C Loc)
      → same_id lid t.id ≡ false
      → loop_answer codec addresses env lid t ≡ some (return (to_returned lid), t)
  unfolding loop_answer
  loop_other lid t e = rw (e, loop_answer) refl

  answered :
      (timeout : Option ℕ) (s t : Link C Loc)
      → IsReady t
      → is_nothing t.state ≡ false
      → t.config ≡ s.config
      → t.pending_ids ≡ s.pending_ids
      → (s.state ≡ fetching_config → t.state ≡ fetching_config)
      → AllDistinct codec addresses env
      → let (looped, x) = env.loop timeout t.repl in
        (q : Round Returned × Link C Loc) × (loop_answer codec addresses env looped.lid
            (after_loop looped x t)
          ≡ some q)
        × Rounded s q
  unfolding after_loop
  answered timeout s t w h ec eq es d =
      let (looped, x) = env.loop timeout t.repl in
      elim (Bool-cases (same_id looped.lid t.id)) [
        | inl e ↦
            let (r, p, v) =
              callback-Handled codec addresses env looped x t w h e (d timeout t.repl) in
            (
              _,
              loop_own looped.lid (after_loop looped x t) r e p,
              after_callback timeout t.repl s (record t { repl = x }) r ec eq es v,
            )
        | inr e ↦ (
          (return (to_returned looped.lid), after_loop looped x t),
          loop_other looped.lid (after_loop looped x t) e,
          rw e (record {
            ready = record { output = w.output; shape = w.shape };
            queued = eq;
            says = Says-ended looped.lid s.config t.config ec;
          }),
        )
      ]

  still_fetching :
      (s : Link C Loc)
      → s.state ≡ fetching_config
      → (primed env s.state s).1.state ≡ fetching_config
  unfolding primed
  still_fetching s e = subst (λ a. (primed env a s).1.state ≡ fetching_config) (sym e) e

  round_from :
      (timeout : Option ℕ) (s : Link C Loc) (p : Bool × Link C Loc)
      → prime_state_machine env s ≡ some p
      → Started s p
      → (s.state ≡ fetching_config → p.1.state ≡ fetching_config)
      → AllDistinct codec addresses env
      → (q : Round Returned × Link C Loc) × (loop_round codec addresses env timeout s ≡ some q)
        × Rounded s q
  unfolding loop_round
  round_from timeout s (true, t) e w es d =
      let (q, h, v) = answered timeout s t w.ready (busy t w.ready w.has_id) w.kept w.queued es d in
      (q, rw (e, h) refl, v)
  round_from timeout s (false, t) e w es d =
      ((return error, t), rw e refl, record { ready = w.ready; queued = w.queued; says = w.kept })

  round_lem :
      (timeout : Option ℕ) (s : Link C Loc)
      → IsReady s
      → AllDistinct codec addresses env
      → (q : Round Returned × Link C Loc) × (loop_round codec addresses env timeout s ≡ some q)
        × Rounded s q
  round_lem timeout s r d =
      round_from timeout s (primed env s.state s) (prime_lem env s r)
        (primed-Started env s.state s refl r) (still_fetching s) d

  -- What a call of `loop` takes from the ids that are queued: the first, if there is one.
  abbrev pub Takes : List ℕ → Returned → List ℕ → Type 0
  Takes [] a l = l ≡ []
  Takes (i ∷ q) a l = (a ≡ ended i) × (l ≡ q)

  pub record LoopSays (s : Link C Loc) (r : Returned × Link C Loc) : Type 0 where
    pub ready : IsReady r.1
    pub says : Says r.0 s.config r.1.config
    pub takes : Takes s.pending_ids r.0 r.1.pending_ids

  -- A round from a link that fetches is the last.
  last_round :
      (fuel : ℕ) (timeout : Option ℕ) (s : Link C Loc) (q : Round Returned × Link C Loc)
      → s.state ≡ fetching_config
      → loop_round codec addresses env timeout s ≡ some q
      → Rounded s q
      → (r : Returned × Link C Loc) × (loop_rounds codec addresses env (suc fuel) timeout s
          ≡ some r)
        × IsReady r.1
        × (r.1.pending_ids ≡ s.pending_ids)
        × Says r.0 s.config r.1.config
  unfolding loop_rounds
  last_round fuel timeout s (return a, u) e h v = ((a, u), rw h refl, v.ready, v.queued, v.says)
  last_round fuel timeout s (again, u) e h v = absurd (v.says.2 e)

  first_round :
      (fuel : ℕ) (timeout : Option ℕ) (s : Link C Loc) (q : Round Returned × Link C Loc)
      → loop_round codec addresses env timeout s ≡ some q
      → Rounded s q
      → AllDistinct codec addresses env
      → (r : Returned × Link C Loc) × (loop_rounds codec addresses env (suc (suc fuel)) timeout s
          ≡ some r)
        × IsReady r.1
        × (r.1.pending_ids ≡ s.pending_ids)
        × Says r.0 s.config r.1.config
  unfolding loop_rounds
  first_round fuel timeout s (return a, u) h v d = ((a, u), rw h refl, v.ready, v.queued, v.says)
  first_round fuel timeout s (again, u) h v d =
      let (q, e, w) = round_lem timeout u v.ready d in
      let (r, p, ready, queued, says) = last_round fuel timeout u q v.says.1 e w in
      (r, rw h p, ready, queued ∙ v.queued, subst (λ c. Says r.0 c r.1.config) v.says.0 says)

  pub loop_lem :
      (fuel : ℕ) (timeout : Option ℕ) (queue : List ℕ) (s : Link C Loc)
      → s.pending_ids ≡ queue
      → IsReady s
      → AllDistinct codec addresses env
      → (r : Returned × Link C Loc) × (loop codec addresses env (suc (suc fuel)) timeout s ≡ some r)
        × LoopSays s r
  unfolding loop
  loop_lem fuel timeout [] s e w d =
      let (q, h, v) = round_lem timeout s w d in
      let (r, p, ready, queued, says) = first_round fuel timeout s q h v d in
      (
        r,
        rw (e, loop) p,
        record {
          ready = ready;
          says = says;
          takes = subst (λ l. Takes l r.0 r.1.pending_ids) (sym e) (queued ∙ e);
        },
      )
  loop_lem fuel timeout (i ∷ l) s e w d = (
    (ended i, record s { pending_ids = l }),
    rw (e, loop) refl,
    record {
      ready = record { output = w.output; shape = w.shape };
      says = refl;
      takes = subst (λ q. Takes q (ended i) l) (sym e) (refl, refl);
    },
  )
