-- ===== src/CoordinatorLink/Delivered.antt =====
-- From the coordinator to a link: the configuration that the coordinator answers a fetching link with is
-- the one that the link has then.
use wtf.Prelude.{
  ℕ, ◌≡◌, ◌≢◌, ◌<◌, refl, ap, ◌∙◌, Bool, true, Option, none, some, [], ◌++◌, ◌⊎◌, inl, inr, ◌==◌,
  ◌&&◌, not, if◌then◌else◌, arith, Bool-cases, length, All, word,
}
use wtf.Codec.{Codec, Bytes}
use wtf.Server.{Server}
use wtf.Coordinator.{Config, Coordinator, Env, Net, ◌>>=◌}
use wtf.Coordinator.Conditions.{Counts}
use wtf.Coordinator.Safety.{current}
use wtf.Coordinator.Handlers.{configuration}
use wtf.Coordinator.Calls.{config_get_call, perform}
use wtf.Coordinator.Reachable.{Reachable}
use wtf.Configuration.Wire.{Addresses, pack_config, unpack_config}
use wtf.Configuration.Delivery.{unpack-config_get}
use wtf.CoordinatorLink.{
  success, Client, fetching_config, Link, new_config, updated, return, reset, same_id, bytes_of,
  is_waiting, after_loop, take_config, handle_ended, handle_internal_callback, prime_state_machine,
}
use wtf.CoordinatorLink.Loops.{loop_answer, loop_round, loop_rounds, loop}
use wtf.CoordinatorLink.Ready.{IsReady, primed, prime_lem}
use wtf.CoordinatorLink.Loop.{loop_own}

-- The link has a call for the configuration in progress, no id is queued, and the client ends that call
-- with success and the given output.
pub record Answered {C Loc : Type 0} (env : Client C) (timeout : Option ℕ) (output : Bytes)
    (s : Link C Loc) : Type 0 where
  pub ready : IsReady s
  pub fetching : s.state ≡ fetching_config
  pub queue : s.pending_ids ≡ []
  pub own : same_id (env.loop timeout s.repl).0.lid s.id ≡ true
  pub well : (env.loop timeout s.repl).0.ended ≡ success
  pub holds : (env.loop timeout s.repl).0.output ≡ output

module _ {C Loc : Type 0} (codec : Codec) (addresses : Addresses Loc) (env : Client C) where
  take_config-new :
      (new : Config Loc) (rest : Bytes) (s : Link C Loc)
      → (s.config.cluster ≡ 0) ⊎ (s.config.cluster ≡ new.cluster)
      → take_config (some (new, rest)) s ≡ (updated, record s { config = new })
  unfolding take_config
  take_config-new new rest s (inl e) = rw (zero_test s.config.cluster e) refl
    where
      zero_test : (a : ℕ) → a ≡ 0 → (a == 0) ≡ true
      zero_test a e = ground arith
  take_config-new new rest s (inr e) = elim (Bool-cases (s.config.cluster == 0)) [
    | inl z ↦ rw z refl
    | inr z ↦ rw (z, same_test s.config.cluster new.cluster e) refl
  ]
    where
      same_test : (a b : ℕ) → a ≡ b → (a == b) ≡ true
      same_test a b e = ground arith

  handled :
      (timeout : Option ℕ) (new : Config Loc) (output rest : Bytes) (s : Link C Loc)
      → Answered env timeout output s
      → unpack_config codec addresses output ≡ some (some (new, rest))
      → (s.config.cluster ≡ 0) ⊎ (s.config.cluster ≡ new.cluster)
      → let (looped, x) = env.loop timeout s.repl in
        handle_internal_callback codec addresses env (after_loop looped x s)
        ≡ some (
          updated,
          record (reset (record (after_loop looped x s) { id = none })) { config = new },
        )
  unfolding handle_internal_callback after_loop handle_ended reset
  handled timeout new output rest s a e cluster =
      let (looped, x) = env.loop timeout s.repl in
      let t = record (after_loop looped x s) { id = none } in
      let rc : t.status ≡ success =
        ap (λ (b : Bool). if b then looped.ended else s.status) a.own ∙ a.well in
      let out : t.output ≡ some output =
        ap (λ (b : Bool). if b && not (is_waiting s.state) then some looped.output else s.output)
          a.own
        ∙ ap (λ st. if not (is_waiting st) then some looped.output else s.output) a.fetching
        ∙ ap some a.holds in
      ap (λ r. handle_ended codec addresses env r t.state t) rc
      ∙ ap (λ st. handle_ended codec addresses env success st t) a.fetching
      ∙ ap (λ o. unpack_config codec addresses (bytes_of o) >>= λ q. some (take_config q (reset t)))
          out
      ∙ ap (λ o. o >>= λ q. some (take_config q (reset t))) e
      ∙ ap some (take_config-new new rest (reset t) cluster)

  fetches_on :
      (timeout : Option ℕ) (output : Bytes) (s : Link C Loc)
      → Answered env timeout output s
      → prime_state_machine env s ≡ some (true, s)
  unfolding primed
  fetches_on timeout output s a =
      prime_lem env s a.ready ∙ ap (λ st. some (primed env st s)) a.fetching

  own_id :
      (timeout : Option ℕ) (output : Bytes) (s : Link C Loc)
      → Answered env timeout output s
      → let (looped, x) = env.loop timeout s.repl in
        same_id looped.lid (after_loop looped x s).id ≡ true
  unfolding after_loop
  own_id timeout output s a = a.own

  round_from :
      (timeout : Option ℕ) (s u : Link C Loc)
      → prime_state_machine env s ≡ some (true, s)
      → let (looped, x) = env.loop timeout s.repl in
        loop_answer codec addresses env looped.lid (after_loop looped x s)
          ≡ some (return new_config, u)
        → loop_round codec addresses env timeout s ≡ some (return new_config, u)
  unfolding loop_round
  round_from timeout s u p q = rw (p, q) refl

  one_round :
      (timeout : Option ℕ) (s u : Link C Loc)
      → s.pending_ids ≡ []
      → loop_round codec addresses env timeout s ≡ some (return new_config, u)
      → loop codec addresses env 2 timeout s ≡ some (new_config, u)
  unfolding loop loop_rounds
  one_round timeout s u e h = rw (e, loop) (rw (h, loop_rounds) refl)

  adopts :
      (timeout : Option ℕ) (new : Config Loc) (output rest : Bytes) (s : Link C Loc)
      → Answered env timeout output s
      → unpack_config codec addresses output ≡ some (some (new, rest))
      → (s.config.cluster ≡ 0) ⊎ (s.config.cluster ≡ new.cluster)
      → (u : Link C Loc) × (loop codec addresses env 2 timeout s ≡ some (new_config, u))
        × (u.config ≡ new)
  adopts timeout new output rest s a e cluster =
      let (looped, x) = env.loop timeout s.repl in
      let u = record (reset (record (after_loop looped x s) { id = none })) { config = new } in
      let h = handled timeout new output rest s a e cluster in
      let q =
        loop_own codec addresses env looped.lid (after_loop looped x s) (updated, u)
          (own_id timeout output s a) h in
      (
        u,
        one_round timeout s u a.queue (round_from timeout s u (fetches_on timeout output s a) q),
        refl,
      )

-- If conditions count broadcasts, and a coordinator in a reachable state with a cluster (ids, flags and
-- counters below 2 ^ 64) answers the call for the configuration that a link has in progress, then `loop`
-- of that link, with no id queued and of the same cluster or none, tells of a new configuration: the
-- cluster, version, flags and servers of the coordinator's state, whatever stands behind the answer.
pub loop-config_get :
    {Ctx C Loc : Type 0} (machine : Env Ctx) (net : Net Loc) (value : ℕ → Ctx → ℕ)
    (law : Counts machine value) (codec : Codec) (addresses : Addresses Loc) (rest : Bytes)
    (c : Coordinator Ctx Loc) (env : Client C) (timeout : Option ℕ) (s : Link C Loc)
    → Reachable machine net value c
    → c.cluster ≢ 0
    → All (λ (v : Server Loc). v.id < word) c.servers
    → c.cluster < word
    → c.version < word
    → c.flags < word
    → length c.servers < word
    → Answered env timeout (pack_config codec addresses (current c) ++ rest) s
    → (s.config.cluster ≡ 0) ⊎ (s.config.cluster ≡ c.cluster)
    → (perform machine net config_get_call c ≡ some (configuration (current c), c))
      × ((u : Link C Loc) × (loop codec addresses env 2 timeout s ≡ some (new_config, u))
          × (u.config ≡ current c))
loop-config_get machine net value law codec addresses rest c env timeout s reach ne w h1 h2 h3 h4 a
      k =
    let (p, q) =
      unpack-config_get machine net value law codec addresses rest c reach ne w h1 h2 h3 h4 in
    (p, adopts codec addresses env timeout (current c) _ rest s a q k)
