-- ===== src/Configuration/Wire.antt =====
-- The wire form of a server (common/server.cc) and of a configuration, as the coordinator packs it
-- (`generate_cached_configuration`) and as common/configuration.cc unpacks it.
pub mod RoundTrip
use wtf.Prelude.{
  ℕ, zero, suc, ◌<◌, ◌^◌, ◌≤◌, ◌≡◌, refl, sym, ap, ◌∙◌, subst, Bool, true, false, Option, none,
  some, List, [], ◌∷◌, ◌++◌, arith, ◌==◌, if◌then◌else◌, length, All, word,
}
use mathlib.Core.Bool.{Bool-set}
use mathlib.Core.List.{append_assoc, append-nil}
use wtf.Codec.{Codec, Bytes, Reader, ◌>>=◌, done}
use wtf.Server.{
  Server, State, assigned, not_available, available, shutdown, killed, unlisted, is_unlisted,
}
use wtf.Server.Order.{Ascending, stable_sort-same}
use wtf.Coordinator.{Config}
use wtf.Configuration.{exists, add_server}

-- The wire form of an address, which another library gives.
pub record Addresses (Loc : Type 0) : Type 0 where
  pub put : Loc → Bytes
  pub get : Reader Loc
  pub get-put : (a : Loc) (rest : Bytes) → get (put a ++ rest) ≡ some (a, rest)

-- The byte of a `server::state_t`
abbrev pub number : State → ℕ
number assigned = 1
number not_available = 2
number available = 3
number shutdown = 4
number killed = 5
number (unlisted b h) = b

abbrev pub listed : ℕ → State
listed b =
    if b == 1
    then assigned
    else if b == 2
    then not_available
    else if b == 3
    then available
    else if b == 4
    then shutdown
    else killed

abbrev pub cast_by : (b : ℕ) (t : Bool) → is_unlisted b ≡ t → State
cast_by b true h = unlisted b h
cast_by b false h = listed b

-- The cast of a byte to `server::state_t`, which takes every byte.
pub to_state : ℕ → State
to_state b = cast_by b (is_unlisted b) refl

module _ {Loc : Type 0} (c : Codec) (addresses : Addresses Loc) where
  open c use {put8, put64, get8, get64}

  -- `<<` on a server
  pub pack_server : Server Loc → Bytes
  pack_server s = put8 (number s.state) ++ put64 s.id ++ addresses.put s.bind_to

  pub pack_servers : List (Server Loc) → Bytes
  pack_servers [] = []
  pack_servers (s ∷ l) = pack_server s ++ pack_servers l

  -- What `generate_cached_configuration` stores.
  pub pack_config : Config Loc → Bytes
  unfolding pack_servers
  pack_config cfg =
      put64 cfg.cluster
      ++ put64 cfg.version
      ++ put64 cfg.flags
      ++ put64 (length cfg.servers)
      ++ pack_servers cfg.servers

  -- `>>` on a server
  pub unpack_server : Reader (Server Loc)
  unfolding to_state
  unpack_server = do
    s ← get8
    id ← get64
    bind_to ← addresses.get
    done (record { state = to_state s; id = id; bind_to = bind_to })

  -- The id of a new server behind `>>`, where this may have come to an error: 0 if it was not read.
  pub unpacked_id : Bytes → ℕ
  unpacked_id b = elim (get8 b) [
    | none ↦ 0
    | some (s, b') ↦ elim (get64 b') [ none ↦ 0 | some (id, b'') ↦ id ]
  ]

  -- The loop of `>>` on a configuration. The outer `none` is the assertion of `add_server`, the inner one
  -- the unpacker's error: the server is added before the loop looks at it.
  pub unpack_servers : ℕ → List (Server Loc) → Bytes → Option (Option (List (Server Loc) × Bytes))
  unfolding unpack_server unpacked_id
  unpack_servers zero l b = some (some (l, b))
  unpack_servers (suc i) l b = elim (unpack_server b) [
    | none ↦ if exists (unpacked_id b) l then none else some none
    | some (s, b') ↦ elim (add_server s l) [ none ↦ none | some l' ↦ unpack_servers i l' b' ]
  ]

  -- The numbers in front of the servers.
  unfoldable pub unpack_header : Reader (ℕ × ℕ × ℕ × ℕ)
  unpack_header = do
    cluster ← get64
    version ← get64
    flags ← get64
    num_servers ← get64
    done (cluster, version, flags, num_servers)

  -- `>>` on a configuration: the outer `none` is a failed assertion, the inner one the unpacker's error.
  -- (The memory that is reserved for the servers is not modelled.)
  unfoldable pub unpack_config : Bytes → Option (Option (Config Loc × Bytes))
  unfolding unpack_servers unpack_header
  unpack_config b = elim (unpack_header b) [
    | none ↦ some none
    | some ((cluster, version, flags, num_servers), b') ↦ elim (unpack_servers num_servers [] b') [
      | none ↦ none
      | some none ↦ some none
      | some (some (servers, rest)) ↦
          let new : Config Loc = record {
            cluster = cluster;
            version = version;
            flags = flags;
            servers = servers;
          } in
          some (some (new, rest))
    ]
  ]
