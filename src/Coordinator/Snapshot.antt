-- ===== src/Coordinator/Snapshot.antt =====
-- The snapshots of the coordinator (coordinator/coordinator.cc: `snapshot`, `recreate`), and the wire
-- form of a barrier (coordinator/server_barrier.h).
use wtf.Prelude.{
  ℕ, zero, suc, ◌<◌, ◌^◌, ◌≡◌, refl, sym, ap, ◌∙◌, Option, none, some, List, [], ◌∷◌, ◌++◌, length,
  All, word,
}
use mathlib.Core.List.{append_assoc, append-nil}
use wtf.Barrier.{Barrier, Version, push_back, initial}
use wtf.Barrier.Recreated.{behind_zeros}
use wtf.Codec.{Codec, Bytes, Reader, ◌>>=◌, done}
use wtf.Server.{Server}
use wtf.Coordinator.{Coordinator, Env, start, generate_cached_configuration}
use wtf.Configuration.Wire.{Addresses, pack_server, unpack_server}
use wtf.Configuration.Wire.RoundTrip.{unpack_server-pack}

-- The wire form of a vector, by a template of the serialization library: the items, each by its own
-- form, after their number in 32 bits.
pub record Vectors : Type 1 where
  pub put : {A : Type 0} → (A → Bytes) → List A → Bytes
  pub get : {A : Type 0} → Reader A → Reader (List A)
  pub get-put :
      {A : Type 0} (put_one : A → Bytes) (get_one : Reader A) (l : List A) (rest : Bytes)
      → All (λ a. (r : Bytes) → get_one (put_one a ++ r) ≡ some (a, r)) l
      → length l < 2 ^ 32
      → get get_one (put put_one l ++ rest) ≡ some (l, rest)

module _ (c : Codec) (vectors : Vectors) where
  open c use {put32, put64, get32, get64}

  -- The loop of `<<` on a server_barrier
  pub pack_versions : Barrier → Bytes
  pack_versions [] = []
  pack_versions (v ∷ b) = put64 v.0 ++ vectors.put put64 v.1 ++ pack_versions b

  -- `<<` on a server_barrier
  pub pack_barrier : Barrier → Bytes
  unfolding pack_versions
  pack_barrier b = put32 (length b) ++ pack_versions b

  -- The loop of `>>` on a server_barrier, which pushes behind what the barrier holds.
  pub unpack_versions : ℕ → Barrier → Reader Barrier
  unpack_versions zero b = done b
  unpack_versions (suc i) b = do
    version ← get64
    ids ← vectors.get get64
    unpack_versions i (push_back b (version, ids))

  -- `>>` on a server_barrier
  pub unpack_barrier : Barrier → Reader Barrier
  unfolding unpack_versions
  unpack_barrier b = do x ← get32; unpack_versions x b

  -- The numbers and the lists that the wire form has room for.
  abbrev pub FitsVersion : Version → Type 0
  FitsVersion v = (v.0 < word) × All (λ i. i < word) v.1 × (length v.1 < 2 ^ 32)

  abbrev pub FitsBarrier : Barrier → Type 0
  FitsBarrier b = All FitsVersion b × (length b < 2 ^ 32)

  numbers_back :
      (l : List ℕ)
      → All (λ i. i < word) l
      → All (λ a. (r : Bytes) → get64 (put64 a ++ r) ≡ some (a, r)) l
  numbers_back [] h = tt
  numbers_back (i ∷ l) h = (λ r. c.get64-put64 i r h.0, numbers_back l h.1)

  push_back-append : (p b : Barrier) (v : Version) → push_back p v ++ b ≡ p ++ v ∷ b
  push_back-append [] b v = refl
  push_back-append (w ∷ p) b v = ap (λ r. w ∷ r) (push_back-append p b v)

  unpack_versions-pack :
      (p b : Barrier) (rest : Bytes)
      → All FitsVersion b
      → unpack_versions (length b) p (pack_versions b ++ rest) ≡ some (p ++ b, rest)
  unfolding unpack_versions pack_versions
  unpack_versions-pack p [] rest h = ap (λ q. some (q, rest)) (sym (append-nil p))
  unpack_versions-pack p (v ∷ b) rest h =
      simp
        (
          append_assoc,
          ◌>>=◌,
          c.get64-put64 v.0 _ h.0.0,
          vectors.get-put put64 get64 v.1 _ (numbers_back v.1 h.0.1) h.0.2,
        )
        (unpack_versions-pack (push_back p v) b rest h.1
          ∙ ap (λ q. some (q, rest)) (push_back-append p b v))

  -- What was packed stands behind what the barrier held.
  unpack_barrier-pack :
      (b : Barrier) (rest : Bytes)
      → FitsBarrier b
      → unpack_barrier initial (pack_barrier b ++ rest) ≡ some (behind_zeros 1 b, rest)
  unfolding unpack_barrier pack_barrier
  unpack_barrier-pack b rest h =
      simp (
        append_assoc,
        ◌>>=◌,
        c.get32-put32 (length b) _ h.1,
        unpack_versions-pack initial b rest h.0,
      )

module _ {Loc : Type 0} (c : Codec) (addresses : Addresses Loc) where
  servers_back :
      (l : List (Server Loc))
      → All (λ (v : Server Loc). v.id < word) l
      → All
          (λ (v : Server Loc).
            (r : Bytes) → unpack_server c addresses (pack_server c addresses v ++ r) ≡ some (v, r))
          l
  servers_back [] h = tt
  servers_back (v ∷ l) h = (λ r. unpack_server-pack c addresses v r h.0, servers_back l h.1)

  abbrev pub FitsServers : List (Server Loc) → Type 0
  FitsServers l = All (λ (v : Server Loc). v.id < word) l × (length l < 2 ^ 32)

module _ {Ctx Loc : Type 0} (c : Codec) (vectors : Vectors) (addresses : Addresses Loc) where
  open c use {put64, get64}

  -- `snapshot`
  pub snapshot : Coordinator Ctx Loc → Bytes
  snapshot s =
      put64 s.cluster
      ++ put64 s.counter
      ++ put64 s.version
      ++ put64 s.flags
      ++ vectors.put (pack_server c addresses) s.servers
      ++ vectors.put (pack_server c addresses) s.offline
      ++ put64 s.config_ack_through
      ++ pack_barrier c vectors s.config_ack_barrier
      ++ put64 s.config_stable_through
      ++ pack_barrier c vectors s.config_stable_barrier
      ++ put64 s.checkpoint
      ++ put64 s.checkpoint_stable_through
      ++ put64 s.checkpoint_gc_through
      ++ pack_barrier c vectors s.checkpoint_stable_barrier

  -- The members of a new coordinator, unpacked in `recreate`
  pub unpack_coordinator : Coordinator Ctx Loc → Reader (Coordinator Ctx Loc)
  unpack_coordinator s = do
    cluster ← get64
    counter ← get64
    version ← get64
    flags ← get64
    servers ← vectors.get (unpack_server c addresses)
    offline ← vectors.get (unpack_server c addresses)
    config_ack_through ← get64
    config_ack_barrier ← unpack_barrier c vectors s.config_ack_barrier
    config_stable_through ← get64
    config_stable_barrier ← unpack_barrier c vectors s.config_stable_barrier
    checkpoint ← get64
    checkpoint_stable_through ← get64
    checkpoint_gc_through ← get64
    checkpoint_stable_barrier ← unpack_barrier c vectors s.checkpoint_stable_barrier
    done (record s {
      cluster = cluster;
      counter = counter;
      version = version;
      flags = flags;
      servers = servers;
      offline = offline;
      config_ack_through = config_ack_through;
      config_ack_barrier = config_ack_barrier;
      config_stable_through = config_stable_through;
      config_stable_barrier = config_stable_barrier;
      checkpoint = checkpoint;
      checkpoint_stable_through = checkpoint_stable_through;
      checkpoint_gc_through = checkpoint_gc_through;
      checkpoint_stable_barrier = checkpoint_stable_barrier;
    })

  -- `recreate`; `none` is NULL.
  pub recreate : Env Ctx → Ctx → Bytes → Option (Coordinator Ctx Loc)
  unfolding unpack_coordinator generate_cached_configuration
  recreate env x b = elim (unpack_coordinator (start x) b) [
    | none ↦ none
    | some (s, rest) ↦
        let t = generate_cached_configuration env s in some (record t { ctx = env.alarm t.ctx })
  ]

  -- Every member has room in the wire form.
  pub record Fits (s : Coordinator Ctx Loc) : Type 0 where
    pub cluster : s.cluster < word
    pub counter : s.counter < word
    pub version : s.version < word
    pub flags : s.flags < word
    pub servers : FitsServers c addresses s.servers
    pub offline : FitsServers c addresses s.offline
    pub config_ack_through : s.config_ack_through < word
    pub config_ack_barrier : FitsBarrier c vectors s.config_ack_barrier
    pub config_stable_through : s.config_stable_through < word
    pub config_stable_barrier : FitsBarrier c vectors s.config_stable_barrier
    pub checkpoint : s.checkpoint < word
    pub checkpoint_stable_through : s.checkpoint_stable_through < word
    pub checkpoint_gc_through : s.checkpoint_gc_through < word
    pub checkpoint_stable_barrier : FitsBarrier c vectors s.checkpoint_stable_barrier

  abbrev behind_zero : Ctx → Coordinator Ctx Loc → Coordinator Ctx Loc
  behind_zero x s = record s {
    ctx = x;
    config_ack_barrier = behind_zeros 1 s.config_ack_barrier;
    config_stable_barrier = behind_zeros 1 s.config_stable_barrier;
    checkpoint_stable_barrier = behind_zeros 1 s.checkpoint_stable_barrier;
    latest_config = none;
  }

  unpack_coordinator-snapshot :
      (x : Ctx) (s : Coordinator Ctx Loc) (rest : Bytes)
      → Fits s
      → unpack_coordinator (start x) (snapshot s ++ rest) ≡ some (behind_zero x s, rest)
  unfolding unpack_coordinator snapshot
  unpack_coordinator-snapshot x s rest h = simp (
    append_assoc,
    ◌>>=◌,
    c.get64-put64 s.cluster _ h.cluster,
    c.get64-put64 s.counter _ h.counter,
    c.get64-put64 s.version _ h.version,
    c.get64-put64 s.flags _ h.flags,
    vectors.get-put (pack_server c addresses) (unpack_server c addresses) s.servers _
        (servers_back c addresses s.servers h.servers.0) h.servers.1,
    vectors.get-put (pack_server c addresses) (unpack_server c addresses) s.offline _
        (servers_back c addresses s.offline h.offline.0) h.offline.1,
    c.get64-put64 s.config_ack_through _ h.config_ack_through,
    unpack_barrier-pack c vectors s.config_ack_barrier _ h.config_ack_barrier,
    c.get64-put64 s.config_stable_through _ h.config_stable_through,
    unpack_barrier-pack c vectors s.config_stable_barrier _ h.config_stable_barrier,
    c.get64-put64 s.checkpoint _ h.checkpoint,
    c.get64-put64 s.checkpoint_stable_through _ h.checkpoint_stable_through,
    c.get64-put64 s.checkpoint_gc_through _ h.checkpoint_gc_through,
    unpack_barrier-pack c vectors s.checkpoint_stable_barrier _ h.checkpoint_stable_barrier,
  )

  -- Recreating a coordinator whose members have room in the wire form (numbers below 2 ^ 64, lists of
  -- fewer than 2 ^ 32) from its snapshot, whatever stands behind it, gives it back, with the
  -- configuration cached anew and the alarm set in the new context; but each of its three barriers
  -- stands behind a copy of version 0.
  pub recreate-snapshot :
      (env : Env Ctx) (x : Ctx) (s : Coordinator Ctx Loc) (rest : Bytes)
      → Fits s
      → recreate env x (snapshot s ++ rest)
        ≡ some (
            generate_cached_configuration env (record s {
              ctx = env.alarm x;
              config_ack_barrier = behind_zeros 1 s.config_ack_barrier;
              config_stable_barrier = behind_zeros 1 s.config_stable_barrier;
              checkpoint_stable_barrier = behind_zeros 1 s.checkpoint_stable_barrier;
            }))
  unfolding recreate generate_cached_configuration
  recreate-snapshot env x s rest h = rw (unpack_coordinator-snapshot x s rest h, recreate) refl
