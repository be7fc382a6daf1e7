-- ===== src/CoordinatorLink.antt =====
-- common/coordinator_link.{h,cc}: how a client or a daemon keeps the configuration that it has up to
-- date, over a client of the replicated state machine that ends one operation at a time.
pub mod Loops
pub mod Ready
pub mod Callback
pub mod Loop
pub mod Answers
pub mod Ensure
pub mod Reachable
pub mod Delivered
use wtf.Prelude.{
  ℕ, zero, suc, Bool, true, false, Option, none, some, List, [], ◌∷◌, ◌==◌, ◌&&◌, ◌||◌, not,
  if◌then◌else◌, add64,
}
use wtf.Barrier.{push_back}
use wtf.Codec.{Codec, Bytes}
use wtf.Coordinator.{Config, ◌>>=◌, ◌>>◌, assert}
use wtf.Configuration.Wire.{Addresses, unpack_config}

-- The `replicant_returncode`s that the link tells apart.
pub data ReturnCode : Type 0 where
  success garbage timed_out misbehaving_server : ReturnCode
  other : (code : ℕ) → ReturnCode

-- What the link asks of `m_repl`: `send`, `wait` and `backup_object` on the object "wtf".
pub data Call : Type 0 where
  get_config backup : Call
  await_config : (version : ℕ) → Call
  rpc : (func data_sent : Bytes) → Call
  wait : (cond : Bytes) (state : ℕ) → Call

-- What `m_repl.loop` gives: the id of the operation that ended (`none`: it is negative) and the status
-- of the loop; and what that operation wrote to the places that it was given, its status and its output.
pub record Looped : Type 0 where
  pub lid : Option ℕ
  pub status : ReturnCode
  pub ended : ReturnCode
  pub output : Bytes

-- `replicant_client`, another library. A call gives the operation's id (`none`: it is negative) and the
-- status that it writes at once; a timeout below 0 is `none`.
pub record Client (C : Type 0) : Type 0 where
  pub send : Call → C → Option ℕ × ReturnCode × C
  pub kill : ℕ → C → C
  pub loop : Option ℕ → C → Looped × C

-- The enum of `m_state`
pub data State : Type 0 where
  nothing waiting_on_broadcast fetching_config : State

-- `class coordinator_link`, and what the caller's `status` points to. An id below 0 and an output that
-- is NULL are `none`.
pub record Link (C Loc : Type 0) : Type 0 where
  pub repl : C
  pub config : Config Loc
  pub state : State
  pub id : Option ℕ
  pub status : ReturnCode
  pub output : Option Bytes
  pub pending_ids : List ℕ
  pub caller_status : ReturnCode

-- `coordinator_link::coordinator_link`, with the caller's status as it stands.
abbrev pub new_link : {C Loc : Type 0} → C → ReturnCode → Link C Loc
new_link x rc = record {
  repl = x;
  config = record { cluster = 0; version = 0; flags = 0; servers = [] };
  state = nothing;
  id = none;
  status = garbage;
  output = none;
  pending_ids = [];
  caller_status = rc;
}

abbrev pub is_none {ℓ} : {A : Type ℓ} → Option A → Bool
is_none none = true
is_none (some a) = false

abbrev pub is_nothing : State → Bool
is_nothing nothing = true
is_nothing waiting_on_broadcast = false
is_nothing fetching_config = false

abbrev pub is_waiting : State → Bool
is_waiting nothing = false
is_waiting waiting_on_broadcast = true
is_waiting fetching_config = false

abbrev pub is_success : ReturnCode → Bool
is_success success = true
is_success _ = false

abbrev pub is_garbage : ReturnCode → Bool
is_garbage garbage = true
is_garbage _ = false

abbrev pub is_timeout : ReturnCode → Bool
is_timeout timed_out = true
is_timeout _ = false

-- `lid == m_id`
abbrev pub same_id : Option ℕ → Option ℕ → Bool
same_id none none = true
same_id none (some j) = false
same_id (some i) none = false
same_id (some i) (some j) = i == j

-- What `handle_internal_callback` tells: it returns true; it returns false, with `*failed` or without.
pub data Outcome : Type 0 where
  updated failed working : Outcome

-- What `loop` returns: -1, INT64_MAX, or an id.
pub data Returned : Type 0 where
  error new_config : Returned
  ended : (id : ℕ) → Returned

-- What a round of a loop does: return, or go on.
pub data Round {ℓ} (A : Type ℓ) : Type ℓ where
  return : A → Round A
  again : Round A

abbrev pub to_returned : Option ℕ → Returned
to_returned none = error
to_returned (some i) = ended i

module _ {C Loc : Type 0} where
  -- `reset`
  unfoldable pub reset : Link C Loc → Link C Loc
  reset s = record s { id = none; state = nothing; status = garbage; output = none }

  -- The link after `m_repl.loop`: the operation that it waits for writes to its status, and to its output
  -- if it is a call and no wait.
  unfoldable pub after_loop : Looped → C → Link C Loc → Link C Loc
  after_loop r x s =
      let own = same_id r.lid s.id in
      record s {
        repl = x;
        caller_status = r.status;
        status = if own then r.ended else s.status;
        output = if own && not (is_waiting s.state) then some r.output else s.output;
      }

  -- The link after a call or a wait whose status goes to `m_status`: in the given state, or reset.
  unfoldable pub begun : State → Option ℕ → ReturnCode → C → Link C Loc → Bool × Link C Loc
  unfolding reset
  begun state none rc x s = (false, reset (record s { repl = x; caller_status = rc }))
  begun state (some i) rc x s =
      let t = record s { repl = x; id = some i; status = rc; state = state; caller_status = rc } in
      (true, t)

module _ {C Loc : Type 0} (env : Client C) where
  abbrev pub begin_in : State → Call → Link C Loc → Bool × Link C Loc
  begin_in state r s = let (id, rc, x) = env.send r s.repl in begun state id rc x s

  unfoldable pub begin_waiting_on_broadcast : Link C Loc → Option (Bool × Link C Loc)
  unfolding begun
  begin_waiting_on_broadcast s =
      assert (is_none s.id && is_nothing s.state && is_garbage s.status && is_none s.output)
      >> some (begin_in waiting_on_broadcast (await_config (add64 s.config.version 1)) s)

  unfoldable pub begin_fetching_config : Link C Loc → Option (Bool × Link C Loc)
  unfolding begun
  begin_fetching_config s =
      assert (is_none s.id && is_waiting s.state && is_success s.status && is_none s.output)
      >> some (begin_in fetching_config get_config s)

  unfoldable pub prime_state_machine : Link C Loc → Option (Bool × Link C Loc)
  unfolding begin_waiting_on_broadcast begin_fetching_config
  prime_state_machine s =
      if not (is_none s.id) || not (is_nothing s.state)
      then some (true, s)
      else if s.config.version == 0
      then begin_fetching_config (record s { state = waiting_on_broadcast; status = success })
      else begin_waiting_on_broadcast s

  unfoldable pub force_configuration_fetch : Link C Loc → Option (Bool × Link C Loc)
  unfolding begin_fetching_config
  force_configuration_fetch s =
      let x : C = elim s.id [ none ↦ s.repl | some i ↦ env.kill i s.repl ] in
      begin_fetching_config (record s {
        repl = x;
        id = none;
        state = waiting_on_broadcast;
        status = success;
        output = none;
      })

  -- `rpc`, `backup` and `wait`: the call is the client's, and its status goes to a place of its own.
  unfoldable pub pass_on : Call → Link C Loc → Option ℕ × Link C Loc
  pass_on r s =
      let (id, rc, x) = env.send r s.repl in (id, record s { repl = x; caller_status = rc })

-- The timeout by the state: the loop waits only for a configuration that it fetches.
abbrev pub timeout_of : State → Option ℕ
timeout_of fetching_config = none
timeout_of nothing = some 0
timeout_of waiting_on_broadcast = some 0

-- A null pointer has size 0.
abbrev pub bytes_of : Option Bytes → Bytes
bytes_of none = []
bytes_of (some b) = b

module _ {C Loc : Type 0} where
  -- What `handle_internal_callback` does with what the output unpacks to, after `reset`: `none` is the
  -- unpacker's error.
  unfoldable pub take_config : Option (Config Loc × Bytes) → Link C Loc → Outcome × Link C Loc
  take_config none s = (failed, record s { caller_status = misbehaving_server })
  take_config (some (new, rest)) s =
      if not (s.config.cluster == 0) && not (s.config.cluster == new.cluster)
      then (failed, record s { caller_status = misbehaving_server })
      else (updated, record s { config = new })

module _ {C Loc : Type 0} (codec : Codec) (addresses : Addresses Loc) (env : Client C) where
  -- `handle_internal_callback` by the status and the state; `none` is a failed assertion: here
  -- in state NOTHING, or in `add_server` where the output is unpacked.
  unfoldable pub handle_ended : ReturnCode → State → Link C Loc → Option (Outcome × Link C Loc)
  unfolding reset begin_fetching_config take_config
  handle_ended success nothing s = none
  handle_ended success waiting_on_broadcast s =
      begin_fetching_config env s >>= λ r. some (if r.0 then working else failed, r.1)
  handle_ended success fetching_config s =
      unpack_config codec addresses (bytes_of s.output) >>= λ o. some (take_config o (reset s))
  handle_ended rc state s = some (failed, reset (record s { caller_status = rc }))

  unfoldable pub handle_internal_callback : Link C Loc → Option (Outcome × Link C Loc)
  unfolding handle_ended
  handle_internal_callback s = handle_ended s.status s.state (record s { id = none })
