-- ===== src/Coordinator.antt =====
-- coordinator/coordinator.{h,cc}: the state, and what the handlers share.
pub mod Handlers
pub mod Conditions
pub mod Invariant
pub mod Safety
pub mod Calls
pub mod Reachable
pub mod Servers
pub mod Snapshot
use wtf.Prelude.{
  ℕ, zero, suc, Bool, true, false, Option, none, some, List, [], ◌∷◌, ltb, leb, ◌==◌, if◌then◌else◌,
  ◌&&◌, ◌||◌, not, add64,
}
use wtf.Barrier.{Barrier, initial, new_version, min_version}
use wtf.Server.{Server, servers_in_configuration}

-- The conditions that the coordinator creates in the replicated state machine.
pub data Condition : Type 0 where
  config ack stable checkp checkps checkpgc : Condition

-- The state machine library (replicant), which the source calls and does not hold. `broadcast` gives
-- the new value of the condition, or `none` where it fails.
pub record Env (Ctx : Type 0) : Type 0 where
  pub broadcast : Condition → Ctx → Option ℕ × Ctx
  pub alarm : Ctx → Ctx
  pub suspect : ℕ → Ctx → Ctx

-- The default address, and the test for equal addresses.
pub record Net (Loc : Type 0) : Type 0 where
  pub unset : Loc
  pub same : Loc → Loc → Bool

-- What `generate_cached_configuration` packs.
pub record Config (Loc : Type 0) : Type 0 where
  pub cluster : ℕ
  pub version : ℕ
  pub flags : ℕ
  pub servers : List (Server Loc)

-- `class coordinator`, with the context that each call is given.
pub record Coordinator (Ctx Loc : Type 0) : Type 0 where
  pub ctx : Ctx
  pub cluster : ℕ
  pub counter : ℕ
  pub version : ℕ
  pub flags : ℕ
  pub servers : List (Server Loc)
  pub offline : List (Server Loc)
  pub config_ack_through : ℕ
  pub config_ack_barrier : Barrier
  pub config_stable_through : ℕ
  pub config_stable_barrier : Barrier
  pub checkpoint : ℕ
  pub checkpoint_stable_through : ℕ
  pub checkpoint_gc_through : ℕ
  pub checkpoint_stable_barrier : Barrier
  pub latest_config : Option (Config Loc)

-- `coordinator::coordinator()`
abbrev pub start : {Ctx Loc : Type 0} → Ctx → Coordinator Ctx Loc
start x = record {
  ctx = x;
  cluster = 0;
  counter = 1;
  version = 0;
  flags = 0;
  servers = [];
  offline = [];
  config_ack_through = 0;
  config_ack_barrier = initial;
  config_stable_through = 0;
  config_stable_barrier = initial;
  checkpoint = 0;
  checkpoint_stable_through = 0;
  checkpoint_gc_through = 0;
  checkpoint_stable_barrier = initial;
  latest_config = none;
}

-- `none`: an assertion failed, or a loop did not end.
infixl 5 ◌>>=◌
abbrev pub ◌>>=◌ {ℓ κ} : {A : Type ℓ} {B : Type κ} → Option A → (A → Option B) → Option B
none >>= f = none
some a >>= f = f a

infixl 5 ◌>>◌
abbrev pub ◌>>◌ {ℓ} : {B : Type ℓ} → Option (Unit {0}) → Option B → Option B
m >> k = m >>= λ _. k

abbrev pub assert : Bool → Option (Unit {0})
assert true = some tt
assert false = none

-- `OUTSTANDING_CHECKPOINTS`
abbrev pub outstanding_checkpoints : ℕ
outstanding_checkpoints = 120

module _ {Ctx : Type 0} (env : Env Ctx) where
  -- `while (through + slack < target) broadcast(c, &through)`; a failed broadcast leaves `through`.
  unfoldable pub broadcast_until : Condition → ℕ → ℕ → ℕ → ℕ → Ctx → Option (ℕ × Ctx)
  broadcast_until c slack zero through target x =
      if ltb (add64 through slack) target then none else some (through, x)
  broadcast_until c slack (suc fuel) through target x =
      let (r, x') = env.broadcast c x in
      let next : ℕ = elim r [ none ↦ through | some n ↦ n ] in
      let rest = broadcast_until c slack fuel next target x' in
      if ltb (add64 through slack) target then rest else some (through, x)

  -- A broadcast whose value is asserted to be `expected`. (Where it fails the source reads an
  -- uninitialized variable.)
  unfoldable pub broadcast_as : Condition → ℕ → Ctx → Option Ctx
  broadcast_as c expected x =
      let (r, x') = env.broadcast c x in
      elim r [ none ↦ none | some n ↦ if n == expected then some x' else none ]

module _ {Ctx Loc : Type 0} (env : Env Ctx) where
  unfoldable pub check_ack_condition : Coordinator Ctx Loc → Option (Coordinator Ctx Loc)
  unfolding broadcast_until
  check_ack_condition s = do
    let target = min_version s.config_ack_barrier
    (through, x) ← broadcast_until env ack 0 target s.config_ack_through target s.ctx
    some (record s { ctx = x; config_ack_through = through })

  unfoldable pub check_stable_condition : Coordinator Ctx Loc → Option (Coordinator Ctx Loc)
  unfolding broadcast_until
  check_stable_condition s = do
    let target = min_version s.config_stable_barrier
    (through, x) ← broadcast_until env stable 0 target s.config_stable_through target s.ctx
    some (record s { ctx = x; config_stable_through = through })

  unfoldable pub generate_cached_configuration : Coordinator Ctx Loc → Coordinator Ctx Loc
  generate_cached_configuration s = record s {
    latest_config =
        some (record {
          cluster = s.cluster;
          version = s.version;
          flags = s.flags;
          servers = s.servers;
        });
  }

  unfoldable pub generate_next_configuration : Coordinator Ctx Loc → Option (Coordinator Ctx Loc)
  unfolding check_ack_condition check_stable_condition generate_cached_configuration broadcast_as
  generate_next_configuration s = do
    let next = add64 s.version 1
    x ← broadcast_as env config next s.ctx
    let sids = servers_in_configuration s.servers
    acks ← new_version next sids s.config_ack_barrier
    stables ← new_version next sids s.config_stable_barrier
    s1 ← check_ack_condition (record s {
      ctx = x;
      version = next;
      config_ack_barrier = acks;
      config_stable_barrier = stables;
    })
    s2 ← check_stable_condition s1
    some (generate_cached_configuration s2)

  pub check_checkpoint_stable_condition : Coordinator Ctx Loc → Option (Coordinator Ctx Loc)
  unfolding broadcast_until
  check_checkpoint_stable_condition s = do
    assert (leb s.checkpoint_stable_through s.checkpoint)
    let target = min_version s.checkpoint_stable_barrier
    (through, x) ← broadcast_until env checkps 0 target s.checkpoint_stable_through target s.ctx
    (gc, y) ←
        broadcast_until env checkpgc outstanding_checkpoints target s.checkpoint_gc_through target x
    assert (leb through s.checkpoint)
    assert (
        leb (add64 gc outstanding_checkpoints) s.checkpoint
        || leb s.checkpoint outstanding_checkpoints)
    some (record s { ctx = y; checkpoint_stable_through = through; checkpoint_gc_through = gc })
