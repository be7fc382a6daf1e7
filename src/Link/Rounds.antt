-- ===== src/Link/Rounds.antt =====
-- The rounds of `maintain_link`, and the callbacks of the requests that have ended.
use wtf.Prelude.{
  ℕ, Bool, true, false, Option, none, some, List, [], ◌∷◌, ◌==◌, not, if◌then◌else◌, add64,
}
use wtf.OrdMap.{lookup, erase}
use wtf.Coordinator.{Net}
use wtf.Configuration.{exists}
use wtf.Link.{
  Request, server_online, server_shutdown, report_disconnect, config_ack, config_stable,
  checkpoint_stable, wait_checkpoint, wait_stable, wait_gc, Replicant, Link, do_sleep, reset_sleep,
  ensure_all,
}

-- The `replicant_returncode` of a request that ended, as far as the callbacks tell them apart.
pub data Status : Type 0 where
  succeeded cluster_jump failed : Status

-- What a request left: its status, and the two bytes of its output, if it has two.
pub record Reply : Type 0 where
  pub status : Status
  pub code : Option ℕ

-- What `m_coord->loop` gives: a timeout or an interrupt, another error, a new configuration
-- (INT64_MAX), or the request that ended.
pub data Event : Type 0 where
  idle : Event
  broken : Event
  configured : Event
  completed : (id : ℕ) → Reply → Event

abbrev pub is_success : Status → Bool
is_success succeeded = true
is_success cluster_jump = false
is_success failed = false

-- `COORD_SUCCESS`
abbrev pub coord_success : ℕ
coord_success = 8832

abbrev pub said_success : Option ℕ → Bool
said_success none = false
said_success (some rc) = rc == coord_success

module _ {C : Type 0} where
  -- `coord_rpc::callback`
  unfoldable pub base_callback : Status → Link C → Link C
  unfolding do_sleep
  base_callback cluster_jump s = do_sleep s
  base_callback succeeded s = s
  base_callback failed s = s

  -- The callbacks: the field that the class of the request stands for, and whether `maintain_link`
  -- returns.
  unfoldable pub after_reply : Request → Reply → Link C → Bool × Link C
  after_reply server_online r s = (false, record s { online_id = none })
  after_reply server_shutdown r s = (false, s)
  after_reply (report_disconnect id version) r s = (false, s)
  after_reply (config_ack version) r s =
      (false, record s { config_ack_id = none; need_config_ack = not (is_success r.status) })
  after_reply (config_stable version) r s =
      (false, record s { config_stable_id = none; need_config_stable = not (is_success r.status) })
  after_reply (checkpoint_stable config number) r s = (
    false,
    record s {
      report_id = none;
      need_report = if is_success r.status then not (said_success r.code) else true;
    },
  )
  after_reply (wait_checkpoint number) r s =
      let s' = record s { checkpoint_id = none } in
      if is_success r.status
      then (true, record s' { checkpoint = add64 s.checkpoint 1 })
      else (false, s')
  after_reply (wait_stable number) r s =
      let s' = record s { checkpoint_stable_id = none } in
      if is_success r.status
      then (true, record s' { checkpoint_stable = add64 s.checkpoint_stable 1 })
      else (false, s')
  after_reply (wait_gc number) r s =
      let s' = record s { checkpoint_gc_id = none } in
      if is_success r.status
      then (true, record s' { checkpoint_gc = add64 s.checkpoint_gc 1 })
      else (false, s')

  unfoldable pub callback : Request → Reply → Link C → Bool × Link C
  unfolding base_callback after_reply
  callback q r s = after_reply q r (base_callback r.status s)

module _ {C Loc : Type 0} (env : Replicant C Loc) (net : Net Loc) (us : ℕ) (bind_to : Loc) where
  -- The rest of a round, behind the call of `loop`; the result of `maintain_link`, or `none` where the
  -- next round follows.
  unfoldable pub handle : Event → Link C → Option Bool × Link C
  unfolding callback do_sleep reset_sleep
  handle idle s = (some false, reset_sleep s)
  handle broken s = (some false, do_sleep s)
  handle configured s = (some (exists us (env.config s.coord).servers), reset_sleep s)
  handle (completed id r) s =
      let s' = reset_sleep s in
      elim (lookup id s'.rpcs) [
        | none ↦ (none, s')
        | some q ↦
            let (leave, t) = callback q r (record s' { rpcs = erase id s'.rpcs }) in
            (if leave then some false else none, t)
      ]

  -- A round, for what `loop` gives and the state of the client after it.
  unfoldable pub round : Event → C → Link C → Option Bool × Link C
  unfolding handle ensure_all
  round e c s = handle e (record (ensure_all env net us bind_to s) { coord = c })

  -- `maintain_link` on the events that come: its result, or `none` where it waits for more.
  unfoldable pub maintain_link : List (Event × C) → Link C → Option Bool × Link C
  unfolding round
  maintain_link [] s = (none, s)
  maintain_link ((e, c) ∷ events) s =
      let (exit, t) = round e c s in
      let rest = maintain_link events t in elim exit [ none ↦ rest | some b ↦ (some b, t) ]
