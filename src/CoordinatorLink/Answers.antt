-- ===== src/CoordinatorLink/Answers.antt =====
-- What `ensure_configuration` does with what `m_repl.loop` gives.
use wtf.Prelude.{
  ℕ, ◌+◌, ◌≤◌, ◌<◌, ◌≡◌, refl, ap, sym, subst, ◌∙◌, ◌⊎◌, inl, inr, Bool, true, false, Option, none,
  some, List, [], ◌∷◌, ◌++◌, arith, ◌&&◌, not, Bool-cases, Option-cases,
}
use mathlib.Core.List.{append-nil}
use wtf.Barrier.{push_back}
use wtf.Codec.{Codec}
use wtf.Coordinator.{Config}
use wtf.Configuration.Wire.{Addresses}
use wtf.CoordinatorLink.{
  Looped, Client, waiting_on_broadcast, fetching_config, Link, get_config, Outcome, updated, failed,
  working, Round, return, again, is_none, is_nothing, same_id, is_timeout, after_loop,
  handle_internal_callback, timeout_of,
}
use wtf.CoordinatorLink.Loops.{ensure_answer}
use wtf.CoordinatorLink.Ready.{IsReady, Shape, Ends, calls_left, busy, State-cases}
use wtf.CoordinatorLink.Callback.{Adopted, Handled, AllDistinct, callback-Handled, other-IsReady}

module _ {C Loc : Type 0} (codec : Codec) (addresses : Addresses Loc) (env : Client C)
    (open_ops : C → ℕ) (law : Ends env open_ops) where
  -- The operations in progress, and those that the link may still start.
  abbrev pub weight : Link C Loc → ℕ
  weight s = open_ops s.repl + calls_left s.state s.config.version

  abbrev pub Ensured : Bool → Config Loc → Config Loc → Type 0
  Ensured true old new =
      ((new ≡ old) × (0 < new.version))
      ⊎ ((timeout : Option ℕ) × (x : C) × Adopted codec addresses (env.loop timeout x).0.output old
            new)
  Ensured false old new = new ≡ old

  abbrev pub RoundEnsured : Round Bool → Link C Loc → Link C Loc → Type 0
  RoundEnsured (return a) s u = Ensured a s.config u.config
  RoundEnsured again s u = (u.config ≡ s.config) × (weight u < weight s)

  pub record EnsureRounded (s : Link C Loc) (r : Round Bool × Link C Loc) : Type 0 where
    pub ready : IsReady r.1
    pub more : List ℕ
    pub queued : r.1.pending_ids ≡ s.pending_ids ++ more
    pub says : RoundEnsured r.0 s r.1

  fetch_weight :
      (timeout : Option ℕ) (i : ℕ) (t : Link C Loc) (u : Link C Loc)
      → (env.loop timeout t.repl).0.lid ≡ some i
      → t.state ≡ waiting_on_broadcast
      → u.state ≡ fetching_config
      → (u.repl ≡ (env.loop timeout t.repl).1)
        ⊎ (u.repl ≡ (env.send get_config (env.loop timeout t.repl).1).2)
      → weight u < weight t
  fetch_weight timeout i t u e a b (inl c) =
      let h = law.ended timeout t.repl i e in
      let p = ap open_ops c in simp (a, b) (omega (arith, h, p))
  fetch_weight timeout i t u e a b (inr c) =
      let h = law.ended timeout t.repl i e in
      let k = law.sent get_config (env.loop timeout t.repl).1 in
      let p = ap open_ops c in simp (a, b) (omega (arith, h, p, k))

  after_callback :
      (i : ℕ) (s t : Link C Loc) (r : Outcome × Link C Loc)
      → let (looped, x) = env.loop (timeout_of t.state) t.repl in
        looped.lid ≡ some i
        → t.config ≡ s.config
        → t.pending_ids ≡ s.pending_ids
        → weight t ≤ weight s
        → Handled codec addresses env looped.output (record t { repl = x }) r
        → EnsureRounded s
            (elim r.0 [ updated ↦ return true | failed ↦ return false | working ↦ again ], r.1)
  after_callback i s t (updated, u) e ec eq ew w = record {
    ready = w.ready;
    more = [];
    queued = (w.queued ∙ eq) ∙ sym (append-nil s.pending_ids);
    says = inr (
      timeout_of t.state,
      t.repl,
      subst
          (λ c. Adopted codec addresses (env.loop (timeout_of t.state) t.repl).0.output c u.config)
          ec w.told,
    );
  }
  after_callback i s t (failed, u) e ec eq ew w = record {
    ready = w.ready;
    more = [];
    queued = (w.queued ∙ eq) ∙ sym (append-nil s.pending_ids);
    says = w.told ∙ ec;
  }
  after_callback i s t (working, u) e ec eq ew w =
      let h = fetch_weight (timeout_of t.state) i t u e w.told.1 w.told.2 w.called in
      record {
        ready = w.ready;
        more = [];
        queued = (w.queued ∙ eq) ∙ sym (append-nil s.pending_ids);
        says = (w.told.0 ∙ ec, omega (arith, h, ew));
      }

  push_back-append : (l : List ℕ) (i : ℕ) → push_back l i ≡ l ++ i ∷ []
  push_back-append [] i = refl
  push_back-append (j ∷ l) i = ap (λ r. j ∷ r) (push_back-append l i)

  own_answer :
      (timeout : Option ℕ) (looped : Looped) (i : ℕ) (t : Link C Loc) (r : Outcome × Link C Loc)
      → looped.lid ≡ some i
      → same_id (some i) t.id ≡ true
      → handle_internal_callback codec addresses env t ≡ some r
      → ensure_answer codec addresses env timeout looped t
        ≡ some (elim r.0 [ updated ↦ return true | failed ↦ return false | working ↦ again ], r.1)
  unfolding ensure_answer
  own_answer timeout looped i t r e same h =
      rw (e, ensure_answer) (rw (same, ensure_answer) (rw h refl))

  other_answer :
      (timeout : Option ℕ) (looped : Looped) (i : ℕ) (t : Link C Loc)
      → looped.lid ≡ some i
      → same_id (some i) t.id ≡ false
      → ensure_answer codec addresses env timeout looped t
        ≡ some (again, record t { pending_ids = push_back t.pending_ids i })
  unfolding ensure_answer
  other_answer timeout looped i t e same = rw (e, ensure_answer) (rw (same, ensure_answer) refl)

  no_answer :
      (timeout : Option ℕ) (looped : Looped) (t : Link C Loc)
      → looped.lid ≡ none
      → ensure_answer codec addresses env timeout looped t
        ≡ some (return (is_timeout looped.status && not (is_none timeout)), t)
  unfolding ensure_answer
  no_answer timeout looped t e = rw (e, ensure_answer) refl

  usable : (b : Bool) (old new : Config Loc) → new ≡ old → 0 < new.version → Ensured b old new
  usable true old new e h = inl (e, h)
  usable false old new e h = e

  -- Where the loop times out, the link waits, and so it has a configuration.
  timed_out_well :
      (b : Bool) (s t : Link C Loc)
      → IsReady t
      → is_nothing t.state ≡ false
      → t.config ≡ s.config
      → Ensured (b && not (is_none (timeout_of t.state))) s.config t.config
  timed_out_well b s t w h ec = elim (State-cases t.state) [
    | inl e ↦ let p = ap is_nothing e in cc
    | inr (inl e) ↦
        let shape = subst (λ a. Shape a t.id t.status t.config.version) e w.shape in
        usable (b && not (is_none (timeout_of t.state))) s.config t.config ec shape.1
    | inr (inr e) ↦
        subst (λ a. Ensured (b && not (is_none (timeout_of a))) s.config t.config) (sym e)
          (never b s t ec)
  ]
    where
      never :
          (b : Bool) (s t : Link C Loc)
          → t.config ≡ s.config
          → Ensured (b && false) s.config t.config
      never true s t e = e
      never false s t e = e

  none_other : (o : Option ℕ) → is_none o ≡ false → same_id none o ≡ false
  none_other none e = e
  none_other (some i) e = refl

  pub ensure_answer_lem :
      (s t : Link C Loc)
      → IsReady t
      → is_none t.id ≡ false
      → t.config ≡ s.config
      → t.pending_ids ≡ s.pending_ids
      → weight t ≤ weight s
      → AllDistinct codec addresses env
      → let (looped, x) = env.loop (timeout_of t.state) t.repl in
        (q : Round Bool × Link C Loc) × (ensure_answer codec addresses env
            (timeout_of t.state)
            looped
            (after_loop looped x t)
          ≡ some q)
        × EnsureRounded s q
  unfolding after_loop
  ensure_answer_lem s t w h ec eq ew d =
      let (looped, x) = env.loop (timeout_of t.state) t.repl in
      let u = after_loop looped x t in
      elim (Option-cases looped.lid) [
        | inl e ↦ (
          _,
          no_answer (timeout_of t.state) looped u e,
          record {
            ready = other-IsReady looped x t w (ap (λ o. same_id o t.id) e ∙ none_other t.id h);
            more = [];
            queued = eq ∙ sym (append-nil s.pending_ids);
            says = timed_out_well (is_timeout looped.status) s t w (busy t w h) ec;
          },
        )
        | inr (i, e) ↦ elim (Bool-cases (same_id (some i) t.id)) [
          | inl same ↦
              let g = ap (λ o. same_id o t.id) e ∙ same in
              let (r, p, v) =
                callback-Handled codec addresses env looped x t w (busy t w h) g
                  (d (timeout_of t.state) t.repl) in
              (
                _,
                own_answer (timeout_of t.state) looped i u r e same p,
                after_callback i s t r e ec eq ew v,
              )
          | inr same ↦ (
            _,
            other_answer (timeout_of t.state) looped i u e same,
            let ready = other-IsReady looped x t w (ap (λ o. same_id o t.id) e ∙ same) in
                record {
                  ready = record { output = ready.output; shape = ready.shape };
                  more = i ∷ [];
                  queued = push_back-append t.pending_ids i ∙ ap (λ l. l ++ i ∷ []) eq;
                  says = (ec, omega (arith, law.ended (timeout_of t.state) t.repl i e, ew));
                },
          )
        ]
      ]
