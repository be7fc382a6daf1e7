-- ===== src/Configuration.antt =====
-- common/configuration.cc: the configuration that a daemon or a client is given. Its fields are those
-- that the coordinator packs.
pub mod Wire
pub mod Delivery
use wtf.Prelude.{
  ℕ, suc, Bool, true, false, Option, none, some, List, [], ◌∷◌, ◌++◌, ◌==◌, ◌&&◌, ◌||◌, not,
  if◌then◌else◌, add64, length,
}
use wtf.Server.{Server, State, assigned, not_available, available, shutdown, killed, stable_sort}
use wtf.Coordinator.{Config, Net}

module _ {Loc : Type 0} where
  -- `exists`
  unfoldable pub exists : ℕ → List (Server Loc) → Bool
  exists sid [] = false
  exists sid (s ∷ l) = s.id == sid || exists sid l

  -- `server_from_id`
  unfoldable pub server_from_id : ℕ → List (Server Loc) → Option (Server Loc)
  server_from_id sid [] = none
  server_from_id sid (s ∷ l) = if s.id == sid then some s else server_from_id sid l

  -- `get_address`: the default address for a server that is not there.
  unfoldable pub get_address : Loc → ℕ → List (Server Loc) → Loc
  get_address unset sid [] = unset
  get_address unset sid (s ∷ l) = if s.id == sid then s.bind_to else get_address unset sid l

  -- `get_state`
  unfoldable pub get_state : ℕ → List (Server Loc) → State
  get_state sid [] = killed
  get_state sid (s ∷ l) = if s.id == sid then s.state else get_state sid l

  -- The inner loop of `validate`: does a later server share the id or the address?
  unfoldable pub clashes : (Loc → Loc → Bool) → Server Loc → List (Server Loc) → Bool
  clashes same s [] = false
  clashes same s (t ∷ l) = (s.id == t.id || same s.bind_to t.bind_to) || clashes same s l

  -- `validate`
  unfoldable pub validate : (Loc → Loc → Bool) → List (Server Loc) → Bool
  unfolding clashes
  validate same [] = true
  validate same (s ∷ l) = not (clashes same s l) && validate same l

  -- `add_server`: `none` where the assertion fails. The servers have different ids, so that sorting
  -- them has one result.
  unfoldable pub add_server : Server Loc → List (Server Loc) → Option (List (Server Loc))
  unfolding exists
  add_server node l = if exists node.id l then none else some (stable_sort (l ++ node ∷ []))

  -- `bump_version`
  pub bump_version : Config Loc → Config Loc
  bump_version c = record c { version = add64 c.version 1 }
