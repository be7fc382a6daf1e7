-- ===== src/Coordinator/Handlers.antt =====
-- The calls of coordinator/coordinator.cc, each with the response that it gives.
use wtf.Prelude.{
  ℕ, ◌-◌, ◌%◌, Bool, true, false, Option, none, some, List, [], ◌∷◌, length, ltb, leb, ◌==◌,
  if◌then◌else◌, ◌&&◌, ◌||◌, not, add64,
}
use wtf.Barrier.{new_version, pass}
use wtf.Server.{
  State, assigned, not_available, available, shutdown, killed, unlisted, Server, new, get_server,
  put_server, new_server, remove_offline, swap_out, stable_sort, servers_in_configuration,
}
use wtf.Coordinator.{
  Coordinator, Config, Env, Net, checkp, ◌>>=◌, ◌>>◌, assert, check_ack_condition,
  check_stable_condition, generate_next_configuration, broadcast_as,
  check_checkpoint_stable_condition,
}

-- `coordinator_returncode`, and the other two kinds of response.
pub data Response (Loc : Type 0) : Type 0 where
  success duplicate not_found no_can_do uninitialized : Response Loc
  configuration : Config Loc → Response Loc
  silence : Response Loc

-- What a call leaves; `none` where an assertion failed.
abbrev pub Outcome : Type 0 → Type 0 → Type 0
Outcome Ctx Loc = Option (Response Loc × Coordinator Ctx Loc)

abbrev pub respond :
    {Ctx Loc : Type 0} → Response Loc → Option (Coordinator Ctx Loc) → Outcome Ctx Loc
respond r none = none
respond r (some s) = some (r, s)

-- `m_flags |= WTF_CONFIG_READ_ONLY` and `m_flags &= ~WTF_CONFIG_READ_ONLY`: the lowest bit.
unfoldable pub set_read_only : Bool → ℕ → ℕ
set_read_only true flags = if flags % 2 == 1 then flags else add64 flags 1
set_read_only false flags = if flags % 2 == 1 then flags - 1 else flags

-- The states in which each call that brings a server up or down is allowed.
unfoldable pub is_usable : State → Bool
is_usable killed = false
is_usable (unlisted b h) = false
is_usable _ = true

unfoldable pub is_suspectable : State → Bool
is_suspectable assigned = true
is_suspectable not_available = true
is_suspectable available = true
is_suspectable _ = false

unfoldable pub is_available : State → Bool
is_available available = true
is_available _ = false

unfoldable pub is_down : State → Bool
is_down not_available = true
is_down shutdown = true
is_down _ = false

unfoldable pub is_shutdown : State → Bool
is_shutdown shutdown = true
is_shutdown _ = false

unfoldable pub is_killed : State → Bool
is_killed killed = true
is_killed _ = false

module _ {Loc : Type 0} where
  -- Does another server than `sid` have the address?
  unfoldable pub address_in_use : (Loc → Loc → Bool) → ℕ → Loc → List (Server Loc) → Bool
  address_in_use same sid loc [] = false
  address_in_use same sid loc (s ∷ l) =
      (not (s.id == sid) && same s.bind_to loc) || address_in_use same sid loc l

  -- The new address of a server that comes online, and whether it changed; `none` where the address
  -- belongs to another server.
  unfoldable pub rebind :
      (Loc → Loc → Bool) → Server Loc → Option Loc → List (Server Loc) → Option (Loc × Bool)
  unfolding address_in_use
  rebind same srv none l = some (srv.bind_to, false)
  rebind same srv (some loc) l =
      if same srv.bind_to loc
      then some (srv.bind_to, false)
      else if address_in_use same srv.id loc l
      then none
      else some (loc, true)

module _ {Ctx Loc : Type 0} (env : Env Ctx) where
  unfoldable pub init : ℕ → Coordinator Ctx Loc → Outcome Ctx Loc
  init token s =
      if s.cluster == 0
      then respond success
          (generate_next_configuration env (record s { ctx = env.alarm s.ctx; cluster = token }))
      else some (success, s)

  unfoldable pub read_only : Bool → Coordinator Ctx Loc → Outcome Ctx Loc
  read_only ro s =
      let flags = set_read_only ro s.flags in
      if flags == s.flags
      then some (success, s)
      else respond success (generate_next_configuration env (record s { flags = flags }))

  unfoldable pub server_register : Net Loc → ℕ → Loc → Coordinator Ctx Loc → Outcome Ctx Loc
  server_register net sid bind_to s = elim (get_server sid s.servers) [
    | some srv ↦ some (duplicate, s)
    | none ↦
        let srv = record (new net.unset sid) { state = assigned; bind_to = bind_to } in
        respond success
          (generate_next_configuration env (record s { servers = new_server srv s.servers }))
  ]

  -- What `server_online` does to a server that it may bring online.
  unfoldable pub bring_online : ℕ → Server Loc → Loc → Bool → Coordinator Ctx Loc → Outcome Ctx Loc
  bring_online sid srv bind_to changed s =
      let srv' = record srv { state = available; bind_to = bind_to } in
      let s' = record s { servers = put_server srv' s.servers } in
      let issued = generate_next_configuration env s' in
      let s'' = (if changed || not (is_available srv.state) then issued else some s') in
      elim s'' [ none ↦ none | some t ↦ some (success, record t { ctx = env.suspect sid t.ctx }) ]

  unfoldable pub server_online : Net Loc → ℕ → Option Loc → Coordinator Ctx Loc → Outcome Ctx Loc
  server_online net sid bind_to s = elim (get_server sid s.servers) [
    | none ↦ some (not_found, s)
    | some srv ↦
        if is_usable srv.state
        then elim (rebind net.same srv bind_to s.servers) [
          | none ↦ some (duplicate, s)
          | some (loc, changed) ↦ bring_online sid srv loc changed s
        ]
        else some (no_can_do, s)
  ]

  -- A change of state that issues a new configuration.
  unfoldable pub change_state : State → Server Loc → Coordinator Ctx Loc → Outcome Ctx Loc
  change_state state srv s = respond success (
      generate_next_configuration env
        (record s { servers = put_server (record srv { state = state }) s.servers }))

  unfoldable pub server_offline : ℕ → Coordinator Ctx Loc → Outcome Ctx Loc
  server_offline sid s = elim (get_server sid s.servers) [
    | none ↦ some (not_found, s)
    | some srv ↦
        if is_usable srv.state
        then if is_down srv.state then some (success, s) else change_state not_available srv s
        else some (no_can_do, s)
  ]

  unfoldable pub server_shutdown : ℕ → Coordinator Ctx Loc → Outcome Ctx Loc
  server_shutdown sid s = elim (get_server sid s.servers) [
    | none ↦ some (not_found, s)
    | some srv ↦
        if is_usable srv.state
        then if is_shutdown srv.state then some (success, s) else change_state shutdown srv s
        else some (no_can_do, s)
  ]

  unfoldable pub server_kill : ℕ → Coordinator Ctx Loc → Outcome Ctx Loc
  server_kill sid s = elim (get_server sid s.servers) [
    | none ↦ some (not_found, s)
    | some srv ↦
        if is_killed srv.state
        then some (success, s)
        else change_state killed srv (record s { offline = remove_offline sid s.offline })
  ]

  unfoldable pub server_forget : ℕ → Coordinator Ctx Loc → Outcome Ctx Loc
  server_forget sid s = elim (get_server sid s.servers) [
    | none ↦ some (not_found, s)
    | some srv ↦ respond success (
        generate_next_configuration env (record s {
          servers = stable_sort (swap_out (length s.servers) sid s.servers);
          offline = remove_offline sid s.offline;
        }))
  ]

  unfoldable pub server_suspect : ℕ → Coordinator Ctx Loc → Outcome Ctx Loc
  server_suspect sid s = elim (get_server sid s.servers) [
    | none ↦ some (not_found, s)
    | some srv ↦
        if is_shutdown srv.state
        then some (success, s)
        else if is_suspectable srv.state
        then if is_down srv.state then some (success, s) else change_state not_available srv s
        else some (no_can_do, s)
  ]

  unfoldable pub config_get : Coordinator Ctx Loc → Outcome Ctx Loc
  config_get s =
      if s.cluster == 0 || s.version == 0
      then none
      else elim s.latest_config [ none ↦ none | some c ↦ some (configuration c, s) ]

  unfoldable pub config_ack : ℕ → ℕ → Coordinator Ctx Loc → Outcome Ctx Loc
  config_ack sid version s = respond silence (
      check_ack_condition env
        (record s { config_ack_barrier = pass version sid s.config_ack_barrier }))

  unfoldable pub config_stable : ℕ → ℕ → Coordinator Ctx Loc → Outcome Ctx Loc
  config_stable sid version s = respond silence (
      check_stable_condition env
        (record s { config_stable_barrier = pass version sid s.config_stable_barrier }))

  unfoldable pub checkpoint : Coordinator Ctx Loc → Outcome Ctx Loc
  checkpoint s =
      let next = add64 s.checkpoint 1 in
      respond silence (do
        x ← broadcast_as env checkp next s.ctx
        assert (leb s.checkpoint_stable_through next)
        b ← new_version next (servers_in_configuration s.servers) s.checkpoint_stable_barrier
        check_checkpoint_stable_condition env
            (record s { ctx = x; checkpoint = next; checkpoint_stable_barrier = b }))

  unfoldable pub checkpoint_stable : ℕ → ℕ → ℕ → Coordinator Ctx Loc → Outcome Ctx Loc
  checkpoint_stable sid config number s =
      if ltb config s.version
      then some (no_can_do, s)
      else respond success (
          check_checkpoint_stable_condition env
            (record s { checkpoint_stable_barrier = pass number sid s.checkpoint_stable_barrier }))

  unfoldable pub alarm : Coordinator Ctx Loc → Outcome Ctx Loc
  alarm s = checkpoint (record s { ctx = env.alarm s.ctx })
