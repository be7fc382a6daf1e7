-- ===== src/Server.antt =====
-- common/server.{h,cc}, and the searches and updates of a vector of servers in
-- coordinator/coordinator.cc. Addresses (po6::net::location) come from another library: `Loc`.
pub mod Order
use wtf.Prelude.{
  ℕ, zero, suc, Bool, true, false, Option, none, some, List, [], ◌∷◌, ltb, ◌==◌, if◌then◌else◌,
  ◌&&◌, ◌||◌, not, ◌≡◌,
}
use wtf.Barrier.{fill_from_back}

-- Is the byte none of the numbers of `server::state_t`?
abbrev pub is_unlisted : ℕ → Bool
is_unlisted b = b == 0 || (ltb 5 b && ltb b 256)

-- `server::state_t`, and what else a byte that is cast to it can be.
pub data State : Type 0 where
  assigned not_available available shutdown killed : State
  unlisted : (b : ℕ) → is_unlisted b ≡ true → State

pub record Server (Loc : Type 0) : Type 0 where
  pub state : State
  pub id : ℕ
  pub bind_to : Loc

-- `server::server(const server_id&)`
abbrev pub new : {Loc : Type 0} → Loc → ℕ → Server Loc
new unset sid = record { state = assigned; id = sid; bind_to = unset }

-- A step of sorting ids and dropping repeated ones.
insert_id : ℕ → List ℕ → List ℕ
insert_id i [] = i ∷ []
insert_id i (j ∷ l) = if ltb j i then j ∷ insert_id i l else if j == i then j ∷ l else i ∷ j ∷ l

module _ {Loc : Type 0} where
  -- `get_server`
  unfoldable pub get_server : ℕ → List (Server Loc) → Option (Server Loc)
  get_server sid [] = none
  get_server sid (s ∷ l) = if s.id == sid then some s else get_server sid l

  -- A write through the pointer that `get_server` returns.
  unfoldable pub put_server : Server Loc → List (Server Loc) → List (Server Loc)
  put_server t [] = []
  put_server t (s ∷ l) = if s.id == t.id then t ∷ l else s ∷ put_server t l

  -- The swaps of `new_server`, from the back, and whether they reached the front.
  unfoldable pub sink : Server Loc → List (Server Loc) → Bool × List (Server Loc)
  sink t [] = (true, t ∷ [])
  sink t (s ∷ l) =
      let (front, r) = sink t l in
      if front && not (ltb s.id t.id) then (true, t ∷ s ∷ l) else (false, s ∷ r)

  -- `new_server`, with the fields that its caller then sets.
  unfoldable pub new_server : Server Loc → List (Server Loc) → List (Server Loc)
  unfolding sink
  new_server t l = (sink t l).1

  -- `remove_offline`
  unfoldable pub remove_offline : ℕ → List (Server Loc) → List (Server Loc)
  remove_offline sid [] = []
  remove_offline sid (s ∷ l) =
      if s.id == sid then remove_offline sid l else s ∷ remove_offline sid l

  -- The loop of `server_forget`. It goes on behind the server that takes the place of one removed.
  unfoldable pub swap_out : ℕ → ℕ → List (Server Loc) → List (Server Loc)
  unfolding fill_from_back
  swap_out zero sid l = l
  swap_out (suc fuel) sid [] = []
  swap_out (suc fuel) sid (s ∷ l) = elim (s.id == sid) [
    | true ↦ elim (fill_from_back l) [ [] ↦ [] | t ∷ r ↦ t ∷ swap_out fuel sid r ]
    | false ↦ s ∷ swap_out fuel sid l
  ]

  insert_sorted : Server Loc → List (Server Loc) → List (Server Loc)
  insert_sorted t [] = t ∷ []
  insert_sorted t (s ∷ l) = if ltb s.id t.id then s ∷ insert_sorted t l else t ∷ s ∷ l

  -- `std::stable_sort` by id
  unfoldable pub stable_sort : List (Server Loc) → List (Server Loc)
  unfolding insert_sorted
  stable_sort [] = []
  stable_sort (s ∷ l) = insert_sorted s (stable_sort l)

  -- `servers_in_configuration`: the ids, sorted, each once.
  unfoldable pub servers_in_configuration : List (Server Loc) → List ℕ
  unfolding insert_id
  servers_in_configuration [] = []
  servers_in_configuration (s ∷ l) = insert_id s.id (servers_in_configuration l)
