-- ===== src/CoordinatorLink/Loops.antt =====
-- common/coordinator_link.cc: `loop` and `ensure_configuration`, round by round.
use wtf.Prelude.{
  ℕ, zero, suc, Bool, true, false, Option, none, some, [], ◌∷◌, ◌&&◌, not, if◌then◌else◌,
}
use wtf.Barrier.{push_back}
use wtf.Codec.{Codec}
use wtf.Coordinator.{◌>>=◌, ◌>>◌, assert}
use wtf.Configuration.Wire.{Addresses}
use wtf.CoordinatorLink.{
  Returned, error, new_config, ended, Round, return, again, Looped, Client, Link, same_id, is_none,
  is_timeout, is_nothing, after_loop, timeout_of, handle_internal_callback, prime_state_machine,
  updated, failed, working, to_returned,
}

module _ {C Loc : Type 0} (codec : Codec) (addresses : Addresses Loc) (env : Client C) where
  -- A round of `loop` after `m_repl.loop`
  unfoldable pub loop_answer : Option ℕ → Link C Loc → Option (Round Returned × Link C Loc)
  unfolding handle_internal_callback
  loop_answer lid t = elim (same_id lid t.id) [
    | false ↦ some (return (to_returned lid), t)
    | true ↦ do
      (o, u) ← handle_internal_callback codec addresses env t
      some (elim o [ updated ↦ return new_config | failed ↦ return error | working ↦ again ], u)
  ]

  -- One round of `loop`
  unfoldable pub loop_round : Option ℕ → Link C Loc → Option (Round Returned × Link C Loc)
  unfolding prime_state_machine after_loop loop_answer
  loop_round timeout s = do
    (ok, t) ← prime_state_machine env s
    let (looped, x) = env.loop timeout t.repl
    let answer = loop_answer looped.lid (after_loop looped x t)
    if ok then answer else some (return error, t)

  -- The rounds of `loop`, while they go on.
  unfoldable pub loop_rounds : ℕ → Option ℕ → Link C Loc → Option (Returned × Link C Loc)
  unfolding loop_round
  loop_rounds zero timeout s = none
  loop_rounds (suc fuel) timeout s = do
    (r, t) ← loop_round timeout s
    elim r [ return a ↦ some (a, t) | again ↦ loop_rounds fuel timeout t ]

  -- `loop`
  unfoldable pub loop : ℕ → Option ℕ → Link C Loc → Option (Returned × Link C Loc)
  unfolding loop_rounds
  loop fuel timeout s = elim s.pending_ids [
    | [] ↦ loop_rounds fuel timeout s
    | i ∷ l ↦ some (ended i, record s { pending_ids = l })
  ]

  -- A round of `ensure_configuration` after `m_repl.loop`, by the timeout it was given
  unfoldable pub ensure_answer : Option ℕ → Looped → Link C Loc → Option (Round Bool × Link C Loc)
  unfolding handle_internal_callback
  ensure_answer timeout looped t = elim looped.lid [
    | none ↦ some (return (is_timeout looped.status && not (is_none timeout)), t)
    | some lid ↦ elim (same_id (some lid) t.id) [
      | false ↦ some (again, record t { pending_ids = push_back t.pending_ids lid })
      | true ↦ do
        (o, u) ← handle_internal_callback codec addresses env t
        some (elim o [ updated ↦ return true | failed ↦ return false | working ↦ again ], u)
    ]
  ]

  -- One round of `ensure_configuration`
  unfoldable pub ensure_round : Link C Loc → Option (Round Bool × Link C Loc)
  unfolding prime_state_machine after_loop ensure_answer
  ensure_round s = do
    (ok, t) ← prime_state_machine env s
    let (looped, x) = env.loop (timeout_of t.state) t.repl
    let answer = ensure_answer (timeout_of t.state) looped (after_loop looped x t)
    let checked = assert (not (is_none t.id) && not (is_nothing t.state)) >> answer
    if ok then checked else some (return false, t)

  -- `ensure_configuration`
  unfoldable pub ensure_configuration : ℕ → Link C Loc → Option (Bool × Link C Loc)
  unfolding ensure_round
  ensure_configuration zero s = none
  ensure_configuration (suc fuel) s = do
    (r, t) ← ensure_round s
    elim r [ return a ↦ some (a, t) | again ↦ ensure_configuration fuel t ]
