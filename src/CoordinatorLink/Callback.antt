-- ===== src/CoordinatorLink/Callback.antt =====
-- What `handle_internal_callback` does to a link whose operation has ended.
use wtf.Prelude.{
  ℕ, ◌≡◌, ◌≢◌, refl, ap, ◌∙◌, Option-cases, ◌⊎◌, inl, inr, true, false, Option, none, some, ◌==◌,
  arith, if◌then◌else◌, Bool-cases, ◌&&◌, not,
}
use wtf.Codec.{Codec, Bytes}
use wtf.Coordinator.{Config, ◌>>=◌}
use wtf.Configuration.Wire.{Addresses, unpack_config}
use wtf.CoordinatorLink.{
  ReturnCode, success, garbage, timed_out, misbehaving_server, other, Looped, Client, State,
  nothing, waiting_on_broadcast, fetching_config, Link, bytes_of, after_loop, same_id, Outcome,
  updated, failed, working, is_waiting, is_nothing, reset, begun, get_config, take_config,
  handle_ended, handle_internal_callback,
}
use wtf.CoordinatorLink.Ready.{IsReady, Started, begun-Started, begin_fetching_lem}

-- The bytes unpack to the new configuration, and the old one had the same cluster or none.
pub record Adopted {Loc : Type 0} (codec : Codec) (addresses : Addresses Loc) (b : Bytes)
    (old new : Config Loc) : Type 0 where
  pub rest : Bytes
  pub packed : unpack_config codec addresses b ≡ some (some (new, rest))
  pub cluster : (old.cluster ≡ 0) ⊎ (old.cluster ≡ new.cluster)

-- Unpacking the bytes fails no assertion of `add_server`: a server that is unpacked, or that the error
-- leaves half unpacked, has not the id of one before it.
abbrev pub Distinct : {Loc : Type 0} → Codec → Addresses Loc → Bytes → Type 0
Distinct codec addresses b = unpack_config codec addresses b ≢ none

-- So it is for every output of the client.
abbrev pub AllDistinct : {C Loc : Type 0} → Codec → Addresses Loc → Client C → Type 0
AllDistinct {C} codec addresses env =
    (timeout : Option ℕ) (x : C) → Distinct codec addresses (env.loop timeout x).0.output

module _ {C Loc : Type 0} (codec : Codec) (addresses : Addresses Loc) (env : Client C) where
  -- What is told of the configuration by the outcome of a callback; where the state machine goes on,
  -- it had been waiting, and fetches now.
  abbrev pub Tells : Outcome → Bytes → Config Loc → State → Link C Loc → Type 0
  Tells updated b old state u = Adopted codec addresses b old u.config
  Tells failed b old state u = u.config ≡ old
  Tells working b old state u =
      (u.config ≡ old) × (state ≡ waiting_on_broadcast) × (u.state ≡ fetching_config)

  pub record Handled (b : Bytes) (s : Link C Loc) (r : Outcome × Link C Loc) : Type 0 where
    pub ready : IsReady r.1
    pub queued : r.1.pending_ids ≡ s.pending_ids
    pub told : Tells r.0 b s.config s.state r.1
    pub called : (r.1.repl ≡ s.repl) ⊎ (r.1.repl ≡ (env.send get_config s.repl).2)

  take_config-Handled :
      (b : Bytes) (o : Option (Config Loc × Bytes)) (s : Link C Loc)
      → unpack_config codec addresses b ≡ some o
      → Handled b s (take_config o (reset s))
  unfolding take_config reset
  take_config-Handled b none s e = record {
    ready = record { output = refl; shape = (refl, refl) };
    queued = refl;
    told = refl;
    called = inl refl;
  }
  take_config-Handled b (some (new, rest)) s e = elim (Bool-cases (s.config.cluster == 0)) [
    | inl z ↦ rw z (record {
      ready = record { output = refl; shape = (refl, refl) };
      queued = refl;
      told = record { rest = rest; packed = e; cluster = inl (ground (arith, z)) };
      called = inl refl;
    })
    | inr z ↦ elim (Bool-cases (s.config.cluster == new.cluster)) [
      | inl y ↦
          rw (z, y)
            (record {
              ready = record { output = refl; shape = (refl, refl) };
              queued = refl;
              told = record { rest = rest; packed = e; cluster = inr (ground (arith, y)) };
              called = inl refl;
            })
      | inr y ↦
          rw (z, y)
            (record {
              ready = record { output = refl; shape = (refl, refl) };
              queued = refl;
              told = refl;
              called = inl refl;
            })
    ]
  ]

  failed_callback :
      (rc : ReturnCode) (b : Bytes) (s : Link C Loc)
      → Handled b s (failed, reset (record s { id = none; caller_status = rc }))
  unfolding reset
  failed_callback rc b s = record {
    ready = record { output = refl; shape = (refl, refl) };
    queued = refl;
    told = refl;
    called = inl refl;
  }

  fetch_begun :
      (id : Option ℕ) (rc : ReturnCode) (x : C) (b : Bytes) (s t : Link C Loc)
      → s.state ≡ waiting_on_broadcast
      → x ≡ (env.send get_config s.repl).2
      → Started s (begun fetching_config id rc x t)
      → Handled b s (
        if (begun fetching_config id rc x t).0 then working else failed,
        (begun fetching_config id rc x t).1,
      )
  unfolding begun
  fetch_begun none rc x b s t e c w = record {
    ready = w.ready;
    queued = w.queued;
    told = w.kept;
    called = inr c;
  }
  fetch_begun (some i) rc x b s t e c w = record {
    ready = w.ready;
    queued = w.queued;
    told = (w.kept, e, refl);
    called = inr c;
  }

  -- The callback of an operation that ended, in a link that waits or that fetched `b`.
  pub handle_ended-Handled :
      (rc : ReturnCode) (state : State) (b : Bytes) (s : Link C Loc)
      → s.id ≡ none
      → s.status ≡ rc
      → s.state ≡ state
      → is_nothing state ≡ false
      → s.output ≡ (if is_waiting state then none else some b)
      → Distinct codec addresses b
      → (r : Outcome × Link C Loc) × (handle_ended codec addresses env rc state s ≡ some r)
        × Handled b s r
  unfolding handle_ended
  handle_ended-Handled success nothing b s ei er es h eo d = cc
  handle_ended-Handled success waiting_on_broadcast b s ei er es h eo d =
      let (id, rc, x) = env.send get_config s.repl in
      let w = begun-Started fetching_config id rc x s eo (λ i. refl) in
      (_, rw (begin_fetching_lem env s ei es er eo) refl, fetch_begun id rc x b s s es refl w)
  handle_ended-Handled success fetching_config b s ei er es h eo d =
      elim (Option-cases (unpack_config codec addresses b)) [
        | inl e ↦ absurd (d e)
        | inr (o, e) ↦ (
          take_config o (reset s),
          ap
                (λ p. unpack_config codec addresses (bytes_of p) >>= λ q.
                  some (take_config q (reset s)))
                eo
              ∙ ap (λ p. p >>= λ q. some (take_config q (reset s))) e,
          take_config-Handled b o s e,
        )
      ]
  handle_ended-Handled garbage state b s ei er es h eo d = (_, refl, failed_callback garbage b s)
  handle_ended-Handled timed_out state b s ei er es h eo d =
      (_, refl, failed_callback timed_out b s)
  handle_ended-Handled misbehaving_server state b s ei er es h eo d =
      (_, refl, failed_callback misbehaving_server b s)
  handle_ended-Handled (other n) state b s ei er es h eo d =
      (_, refl, failed_callback (other n) b s)

  written :
      (looped : Looped) (t : Link C Loc)
      → IsReady t
      → same_id looped.lid t.id ≡ true
      → (if same_id looped.lid t.id && not (is_waiting t.state)
          then some looped.output
          else t.output)
        ≡ (if is_waiting t.state then none else some looped.output)
  written looped t w e = elim (Bool-cases (is_waiting t.state)) [
    | inl z ↦ simp (e, z, w.output) refl
    | inr z ↦ simp (e, z) refl
  ]

  -- The callback of the operation that the link waits for, where it ended with the output `b`.
  pub callback-Handled :
      (looped : Looped) (x : C) (t : Link C Loc)
      → IsReady t
      → is_nothing t.state ≡ false
      → same_id looped.lid t.id ≡ true
      → Distinct codec addresses looped.output
      → (r : Outcome × Link C Loc) × (handle_internal_callback codec addresses env
            (after_loop looped x t)
          ≡ some r)
        × Handled looped.output (record t { repl = x }) r
  unfolding handle_internal_callback after_loop
  callback-Handled looped x t w h e d =
      let u = record (after_loop looped x t) { id = none } in
      let (r, p, v) =
        handle_ended-Handled u.status u.state looped.output u refl refl refl h
          (written looped t w e) d in
      (r, p, record { ready = v.ready; queued = v.queued; told = v.told; called = v.called })

module _ {C Loc : Type 0} where
  pub other-IsReady :
      (looped : Looped) (x : C) (t : Link C Loc)
      → IsReady t
      → same_id looped.lid t.id ≡ false
      → IsReady (after_loop looped x t)
  unfolding after_loop
  other-IsReady looped x t w e = rw e (record { output = w.output; shape = w.shape })
