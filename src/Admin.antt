-- ===== src/Admin.antt =====
-- admin/admin.cc and admin/coord_rpc_generic.cc: the calls of the administration library, and the loop
-- that gives back the id of each call whose answer has come.
pub mod Outstanding
mod Rounds
pub mod Once
use wtf.Prelude.{
  ℕ, Bool, true, false, Option, none, some, List, [], ◌∷◌, ◌==◌, ◌++◌, ltb, if◌then◌else◌, ◌&&◌,
  ◌||◌, not, add64,
}
use wtf.OrdMap.{OrdMap, lookup, assign, erase}
use wtf.Codec.{Bytes}

-- The `replicant_returncode`s that the library tells apart.
pub data Replicant : Type 0 where
  success timed_out interrupted name_too_long obj_not_found func_not_found cluster_jump : Replicant
  misbehaving_server server_error need_bootstrap backoff none_pending other : Replicant

-- The `wtf_admin_returncode`s that the library sets.
pub data Code : Type 0 where
  ok timeout interrupt poll_failed coord_fail nothing_pending not_found duplicate internal : Code

-- `interpret_rpc_request_failure`
abbrev pub interpret_rpc_request_failure : Replicant → Code
interpret_rpc_request_failure timed_out = timeout
interpret_rpc_request_failure interrupted = interrupt
interpret_rpc_request_failure _ = coord_fail

-- `interpret_rpc_loop_failure`
abbrev pub interpret_rpc_loop_failure : Replicant → Code
interpret_rpc_loop_failure timed_out = timeout
interpret_rpc_loop_failure interrupted = interrupt
interpret_rpc_loop_failure none_pending = nothing_pending
interpret_rpc_loop_failure _ = coord_fail

-- `interpret_rpc_response_failure`
abbrev pub interpret_rpc_response_failure : Replicant → Code
interpret_rpc_response_failure success = ok
interpret_rpc_response_failure timed_out = timeout
interpret_rpc_response_failure interrupted = interrupt
interpret_rpc_response_failure none_pending = nothing_pending
interpret_rpc_response_failure _ = coord_fail

-- The switch of `maintain_coord_connection`: the status, and whether it goes on.
abbrev pub connection_failure : Replicant → Code × Bool
connection_failure timed_out = (timeout, false)
connection_failure interrupted = (interrupt, false)
connection_failure name_too_long = (coord_fail, true)
connection_failure obj_not_found = (coord_fail, true)
connection_failure func_not_found = (coord_fail, true)
connection_failure cluster_jump = (coord_fail, true)
connection_failure misbehaving_server = (coord_fail, false)
connection_failure server_error = (coord_fail, false)
connection_failure need_bootstrap = (coord_fail, false)
connection_failure backoff = (coord_fail, false)
connection_failure _ = (internal, false)

-- The code of a coordinator's answer, by the numbers of common/coordinator_returncode.h.
abbrev pub answer_code : ℕ → Code
answer_code x =
    if x == 8832
    then ok
    else if x == 8835
    then not_found
    else if x == 8834
    then duplicate
    else if x == 8837
    then coord_fail
    else if x == 8839
    then coord_fail
    else internal

-- The functions of the coordinator that are called, each with its packed arguments.
pub data Request : Type 0 where
  read_only server_register server_online server_offline server_forget server_kill : Bytes → Request

-- What `recv` of BusyBee gives. (Nothing in the repository sends to a server by this library, so that a
-- message belongs to no operation, and a disruption fails none: `stray`.)
pub data Event : Type 0 where
  external stray idle signal poll_error : Event

-- The coordinator link and BusyBee. `ensure` gives `none` where there is a configuration; `external_fd`
-- whether the descriptor was taken; `loop` the id that ended, the status of the loop, and the status and
-- the first two bytes of the answer; `queued` whether answers wait in the link.
pub record Net (C : Type 0) : Type 0 where
  pub ensure : C → Option Replicant × C
  pub external_fd : C → Bool
  pub queued : C → Bool
  pub call : Request → C → Option ℕ × Replicant × C
  pub loop : C → Option ℕ × Replicant × Replicant × Option ℕ × C
  pub recv : C → Event × C

-- `class yieldable` and its children: the id that the caller has, the status that is its own, and
-- whether it was given back.
pub record Op : Type 0 where
  pub id : ℕ
  pub status : Code
  pub done : Bool

-- `class admin`, less what is for messages to servers. `m_next_admin_id` is an int64_t: the numbers below
-- 2 ^ 63 stand for themselves, and increasing the largest of them is undefined.
pub record Admin (C : Type 0) : Type 0 where
  pub net : C
  pub next_admin_id : ℕ
  pub handle_coord_ops : Bool
  pub coord_ops : OrdMap Op
  pub yieldable : List Op
  pub yielding : Option Op

-- `admin::admin`
abbrev pub new_admin : {C : Type 0} → C → Admin C
new_admin x = record {
  net = x;
  next_admin_id = 1;
  handle_coord_ops = false;
  coord_ops = [];
  yieldable = [];
  yielding = none;
}

-- What a call or `loop` returns: an id, or -1 and a status.
pub data Result : Type 0 where
  gives : (id : ℕ) → Result
  fails : Code → Result

-- What a round of the loop does: return, or go on.
pub data Round {ℓ} (A : Type ℓ) : Type ℓ where
  return : A → Round A
  again : Round A

abbrev pub is_none {ℓ} : {A : Type ℓ} → Option A → Bool
is_none none = true
is_none (some a) = false

abbrev pub is_empty {ℓ} : {A : Type ℓ} → List A → Bool
is_empty [] = true
is_empty (x ∷ l) = false

module _ {C : Type 0} (env : Net C) where
  -- `maintain_coord_connection` behind the switch
  abbrev pub connect : Admin C → Code × Bool × Admin C
  connect s =
      if env.external_fd s.net
      then (ok, true, record s { handle_coord_ops = s.handle_coord_ops || env.queued s.net })
      else (poll_failed, false, s)

  abbrev pub connect_after : Option Replicant → Admin C → Code × Bool × Admin C
  connect_after none s = connect s
  connect_after (some rc) s =
      if (connection_failure rc).1 then connect s else ((connection_failure rc).0, false, s)

  -- `maintain_coord_connection`
  unfoldable pub maintain_coord_connection : Admin C → Code × Bool × Admin C
  maintain_coord_connection s =
      let (rc, x) = env.ensure s.net in connect_after rc (record s { net = x })

  -- What a call returns, by the id that the coordinator link gives it.
  abbrev pub sent : Option ℕ → Replicant → Op → Admin C → Result × Admin C
  sent none rc op s = (fails (interpret_rpc_request_failure rc), s)
  sent (some cid) rc op s = (gives op.id, record s { coord_ops = assign cid op s.coord_ops })

  -- `read_only`, `server_register`, `server_online`, `server_offline`, `server_forget` and `server_kill`,
  -- with the arguments packed. (An address that does not parse makes `server_register` fail before it
  -- takes an id.)
  unfoldable pub call_coordinator : Request → Admin C → Result × Admin C
  unfolding maintain_coord_connection
  call_coordinator r s =
      let (code, connected, t) = maintain_coord_connection s in
      let (cid, rc, x) = env.call r t.net in
      let op : Op = record { id = t.next_admin_id; status = ok; done = false } in
      if connected
      then sent cid rc op (record t { net = x; next_admin_id = add64 t.next_admin_id 1 })
      else (fails code, t)

  -- `dump_config`
  unfoldable pub dump_config : Admin C → Result × Admin C
  unfolding maintain_coord_connection
  dump_config s =
      let (code, connected, t) = maintain_coord_connection s in
      let op : Op = record { id = t.next_admin_id; status = ok; done = false } in
      if connected
      then (
        gives t.next_admin_id,
        record t { next_admin_id = add64 t.next_admin_id 1; yieldable = t.yieldable ++ (op ∷ []) },
      )
      else (fails code, t)

  -- `coord_rpc_generic::handle_response`: the status of the operation
  abbrev pub response_status : Replicant → Option ℕ → Code
  response_status success none = ok
  response_status success (some x) = answer_code x
  response_status rc bytes = interpret_rpc_response_failure rc

  -- A round of `loop` for the operation that is given back
  abbrev pub yield_round : Op → Admin C → Round Result × Admin C
  yield_round op s =
      if op.done
      then (again, record s { yielding = none })
      else (return (gives op.id), record s { yielding = none })

  abbrev pub answer_round : Option Op → ℕ → Code → Admin C → Round Result × Admin C
  answer_round none lid code s = (again, s)
  answer_round (some op) lid code s = (
    again,
    record s { coord_ops = erase lid s.coord_ops; yielding = some (record op { status = code }) },
  )

  abbrev pub is_timeout : Replicant → Bool
  is_timeout timed_out = true
  is_timeout _ = false

  abbrev pub ended_round : Option ℕ → Replicant → Code → Admin C → Round Result × Admin C
  ended_round none lrc code s =
      if is_timeout lrc then (again, s) else (return (fails (interpret_rpc_loop_failure lrc)), s)
  ended_round (some lid) lrc code s = answer_round (lookup lid s.coord_ops) lid code s

  -- A round of `loop` for the coordinator's answers
  abbrev pub coord_round : Admin C → Round Result × Admin C
  coord_round s =
      let (lid, lrc, rc, bytes, x) = env.loop s.net in
      ended_round lid lrc (response_status rc bytes)
        (record s { net = x; handle_coord_ops = false })

  abbrev pub event_round : Event → Admin C → Round Result × Admin C
  event_round external s = (again, record s { handle_coord_ops = true })
  event_round stray s = (again, s)
  event_round idle s = (return (fails timeout), s)
  event_round signal s = (return (fails interrupt), s)
  event_round poll_error s = (return (fails poll_failed), s)

  -- A round of `loop` for what comes from the network
  abbrev pub recv_round : Admin C → Round Result × Admin C
  recv_round s = let (e, x) = env.recv s.net in event_round e (record s { net = x })

  abbrev pub network_round : Code × Bool × Admin C → Round Result × Admin C
  network_round (code, false, s) = (return (fails code), s)
  network_round (code, true, s) = if s.handle_coord_ops then coord_round s else recv_round s

  -- A round of `loop`, by the operation that is given back and those that can be: it returns an id or
  -- a status, or goes on.
  unfoldable pub loop_round_at : Option Op → List Op → Admin C → Round Result × Admin C
  unfolding maintain_coord_connection
  loop_round_at (some op) l s = yield_round op s
  loop_round_at none (op ∷ l) s = (again, record s { yielding = some op; yieldable = l })
  loop_round_at none [] s =
      if is_empty s.coord_ops
      then (return (fails nothing_pending), s)
      else network_round (maintain_coord_connection s)

  abbrev pub loop_round : Admin C → Round Result × Admin C
  loop_round s = loop_round_at s.yielding s.yieldable s
