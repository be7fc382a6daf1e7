-- ===== src/Coordinator/Invariant.antt =====
-- The invariant of the coordinator, and what the three checks and a new configuration do to it.
use wtf.Prelude.{
  ℕ, suc, ◌+◌, ◌-◌, ◌<◌, ◌≤◌, ◌≡◌, refl, true, some, List, arith, leb, ◌==◌, if◌then◌else◌, max,
  word, add64, add64_exact,
}
use wtf.Barrier.{Barrier, min_version, back, new_version, pass}
use wtf.Barrier.Order.{WellFormed, new_version-WellFormed, new_version_total, pass-WellFormed}
use wtf.Barrier.Newest.{back-new_version, back-pass, min-le-back}
use wtf.Server.{servers_in_configuration}
use wtf.Coordinator.{
  Condition, config, ack, stable, checkps, checkpgc, Env, Coordinator, broadcast_until,
  check_ack_condition, check_stable_condition, generate_cached_configuration,
  generate_next_configuration, check_checkpoint_stable_condition, outstanding_checkpoints,
}
use wtf.Coordinator.Conditions.{Counts, code, broadcast_until_lem, broadcast_as_lem}

-- A barrier whose smallest version is `through`, and whose newest is at most `limit`.
pub record IsGate (through limit : ℕ) (b : Barrier) : Type 0 where
  pub shape : WellFormed b
  pub front : min_version b ≡ through
  pub newest : back b ≤ limit

module _ {Ctx Loc : Type 0} (value : ℕ → Ctx → ℕ) where
  -- Each condition has the value of the field that follows it, each of those fields is the smallest
  -- version of its barrier, no barrier is ahead of the counter that numbers its versions, and
  -- garbage collection is 120 checkpoints behind.
  pub record Inv (s : Coordinator Ctx Loc) : Type 0 where
    pub config_value : value 0 s.ctx ≡ s.version
    pub ack_value : value 1 s.ctx ≡ s.config_ack_through
    pub stable_value : value 2 s.ctx ≡ s.config_stable_through
    pub checkp_value : value 3 s.ctx ≡ s.checkpoint
    pub checkps_value : value 4 s.ctx ≡ s.checkpoint_stable_through
    pub checkpgc_value : value 5 s.ctx ≡ s.checkpoint_gc_through
    pub acks : IsGate s.config_ack_through s.version s.config_ack_barrier
    pub stables : IsGate s.config_stable_through s.version s.config_stable_barrier
    pub checkpoints : IsGate s.checkpoint_stable_through s.checkpoint s.checkpoint_stable_barrier
    pub collected : s.checkpoint_gc_through ≡ s.checkpoint_stable_through - outstanding_checkpoints

-- A barrier that moved on: what `new_version` and `pass` leave, before the loop catches up.
pub record IsAhead (through limit : ℕ) (b : Barrier) : Type 0 where
  pub shape : WellFormed b
  pub front : through ≤ min_version b
  pub newest : back b ≤ limit

pub pass-IsAhead :
    (version sid through limit : ℕ) (b : Barrier)
    → IsGate through limit b
    → IsAhead through limit (pass version sid b)
pass-IsAhead version sid through limit b g =
    let p = pass-WellFormed version sid b g.shape in
    record {
      shape = p.0;
      front = omega (arith, p.1, g.front);
      newest = omega (arith, back-pass version sid b g.shape, g.newest);
    }

pub new_version-IsAhead :
    (limit through : ℕ) (servers : List ℕ) (b : Barrier)
    → IsGate through limit b
    → (c : Barrier) × (new_version (suc limit) servers b ≡ some c) × IsAhead through (suc limit) c
new_version-IsAhead limit through servers b g =
    let (c, e) = new_version_total (suc limit) servers b g.shape (omega (arith, g.newest)) in
    let p = new_version-WellFormed (suc limit) servers b c g.shape e in
    (
      c,
      e,
      record {
        shape = p.0;
        front = omega (arith, p.1, g.front);
        newest = omega (arith, back-new_version (suc limit) servers b c e);
      },
    )

module _ {Ctx : Type 0} (env : Env Ctx) (value : ℕ → Ctx → ℕ) (law : Counts env value) where
  -- The loop of a check brings the condition to the smallest version of the barrier.
  catch_up :
      (c : Condition) (through limit : ℕ) (b : Barrier) (x : Ctx)
      → value (code c) x ≡ through
      → IsAhead through limit b
      → limit < word
      → (y : Ctx) × (broadcast_until env c 0 (min_version b) through (min_version b) x
          ≡ some (min_version b, y))
        × ((d : ℕ) → value d y ≡ (if code c == d then min_version b else value d x))
        × IsGate (min_version b) limit b
  catch_up c through limit b x v a w =
      let low = min-le-back b a.shape in
      let (y, e, k) =
        broadcast_until_lem env value law c 0 (min_version b) through (min_version b) x v
          (omega arith) (omega (arith, a.front, a.newest)) (omega (arith, a.newest)) in
      (
        y,
        ground (arith, e, a.front),
        (λ d. ground (arith, k d, a.front)),
        record { shape = a.shape; front = refl; newest = a.newest },
      )

module _ {Ctx Loc : Type 0} (env : Env Ctx) (value : ℕ → Ctx → ℕ) (law : Counts env value) where
  pub check_ack_lem :
      (s : Coordinator Ctx Loc)
      → value 1 s.ctx ≡ s.config_ack_through
      → IsAhead s.config_ack_through s.version s.config_ack_barrier
      → s.version < word
      → (y : Ctx) × (check_ack_condition env s
          ≡ some (record s { ctx = y; config_ack_through = min_version s.config_ack_barrier }))
        × ((d : ℕ)
            → value d y ≡ (if 1 == d then min_version s.config_ack_barrier else value d s.ctx))
        × IsGate (min_version s.config_ack_barrier) s.version s.config_ack_barrier
  unfolding check_ack_condition
  check_ack_lem s v a w =
      let (y, e, k, g) =
        catch_up env value law ack s.config_ack_through s.version s.config_ack_barrier s.ctx v a
          w in
      (y, ground (arith, e), k, g)

  pub check_stable_lem :
      (s : Coordinator Ctx Loc)
      → value 2 s.ctx ≡ s.config_stable_through
      → IsAhead s.config_stable_through s.version s.config_stable_barrier
      → s.version < word
      → (y : Ctx) × (check_stable_condition env s
          ≡ some
              (record s { ctx = y; config_stable_through = min_version s.config_stable_barrier }))
        × ((d : ℕ)
            → value d y ≡ (if 2 == d then min_version s.config_stable_barrier else value d s.ctx))
        × IsGate (min_version s.config_stable_barrier) s.version s.config_stable_barrier
  unfolding check_stable_condition
  check_stable_lem s v a w =
      let (y, e, k, g) =
        catch_up env value law stable s.config_stable_through s.version s.config_stable_barrier
          s.ctx v a w in
      (y, ground (arith, e), k, g)

  -- What a new configuration leaves of the state `s`.
  pub record Issued (s t : Coordinator Ctx Loc) : Type 0 where
    pub version : t.version ≡ suc s.version
    pub servers : t.servers ≡ s.servers
    pub offline : t.offline ≡ s.offline
    pub cluster : t.cluster ≡ s.cluster
    pub flags : t.flags ≡ s.flags
    pub latest :
        t.latest_config
        ≡ some (record {
          cluster = s.cluster;
          version = suc s.version;
          flags = s.flags;
          servers = s.servers;
        })

  -- A new configuration fails no assertion while the version is below 2 ^ 64 - 1.
  pub generate_next_configuration_lem :
      (s : Coordinator Ctx Loc)
      → Inv value s
      → suc s.version < word
      → (t : Coordinator Ctx Loc) × (generate_next_configuration env s ≡ some t)
        × Inv value t
        × Issued s t
  unfolding generate_next_configuration
  generate_next_configuration_lem s v w =
      let sids = servers_in_configuration s.servers in
      let x = (env.broadcast config s.ctx).1 in
      let (a, ea, ga) =
        new_version-IsAhead s.version s.config_ack_through sids s.config_ack_barrier v.acks in
      let (b, eb, gb) =
        new_version-IsAhead s.version s.config_stable_through sids s.config_stable_barrier
          v.stables in
      let s0 = record s {
        ctx = x;
        version = suc s.version;
        config_ack_barrier = a;
        config_stable_barrier = b;
      } in
      let (y, ey, ky, gy) =
        check_ack_lem s0 (ground (arith, law.counted config 1 s.ctx, v.ack_value)) ga w in
      let s1 = record s0 { ctx = y; config_ack_through = min_version a } in
      let (z, ez, kz, gz) =
        check_stable_lem s1 (ground (arith, ky 2, law.counted config 2 s.ctx, v.stable_value)) gb
          w in
      let s2 = record s1 { ctx = z; config_stable_through = min_version b } in
      let next : add64 s.version 1 ≡ suc s.version = ground (arith, add64_exact s.version 1) in
      let sent =
        broadcast_as_lem env value law config (suc s.version) s.ctx
          (omega (arith, v.config_value)) in
      (
        generate_cached_configuration env s2,
        rw next (rw sent (rw ea (rw eb (rw ey (rw ez refl))))),
        record {
          config_value = ground (arith, kz 0, ky 0, law.counted config 0 s.ctx, v.config_value);
          ack_value = ground (arith, kz 1, ky 1, law.counted config 1 s.ctx, v.ack_value);
          stable_value = ground (arith, kz 2, ky 2, law.counted config 2 s.ctx, v.stable_value);
          checkp_value = ground (arith, kz 3, ky 3, law.counted config 3 s.ctx, v.checkp_value);
          checkps_value = ground (arith, kz 4, ky 4, law.counted config 4 s.ctx, v.checkps_value);
          checkpgc_value = ground (arith, kz 5, ky 5, law.counted config 5 s.ctx, v.checkpgc_value);
          acks = gy;
          stables = gz;
          checkpoints = v.checkpoints;
          collected = v.collected;
        },
        record {
          version = refl;
          servers = refl;
          offline = refl;
          cluster = refl;
          flags = refl;
          latest = refl;
        },
      )

  pub check_checkpoint_lem :
      (s : Coordinator Ctx Loc)
      → value 4 s.ctx ≡ s.checkpoint_stable_through
      → value 5 s.ctx ≡ s.checkpoint_gc_through
      → s.checkpoint_gc_through ≡ s.checkpoint_stable_through - outstanding_checkpoints
      → IsAhead s.checkpoint_stable_through s.checkpoint s.checkpoint_stable_barrier
      → s.checkpoint + outstanding_checkpoints < word
      → (y : Ctx) × (check_checkpoint_stable_condition env s
          ≡ some (record s {
            ctx = y;
            checkpoint_stable_through = min_version s.checkpoint_stable_barrier;
            checkpoint_gc_through =
                min_version s.checkpoint_stable_barrier - outstanding_checkpoints;
          }))
        × ((d : ℕ)
            → value d y ≡ (
                if 5 == d
                then min_version s.checkpoint_stable_barrier - outstanding_checkpoints
                else if 4 == d
                then min_version s.checkpoint_stable_barrier
                else value d s.ctx))
  unfolding check_checkpoint_stable_condition
  check_checkpoint_lem s v u c a w =
      let target = min_version s.checkpoint_stable_barrier in
      let low = min-le-back s.checkpoint_stable_barrier a.shape in
      let (y, e, k, g) =
        catch_up env value law checkps s.checkpoint_stable_through s.checkpoint
          s.checkpoint_stable_barrier s.ctx v a (omega arith) in
      let (z, f, j) =
        broadcast_until_lem env value law checkpgc outstanding_checkpoints target
          s.checkpoint_gc_through target y (ground (arith, k 5, u)) (omega arith)
          (omega (arith, a.front, a.newest)) (omega (arith, a.newest)) in
      let above : leb s.checkpoint_stable_through s.checkpoint ≡ true =
        ground (arith, a.front, a.newest) in
      let gc : max s.checkpoint_gc_through (target - outstanding_checkpoints)
          ≡ target - outstanding_checkpoints =
        omega (arith, a.front) in
      (
        z,
        rw above (
            rw e (
              rw f (
                ground (
                  arith,
                  gc,
                  a.newest,
                  add64_exact (target - outstanding_checkpoints) outstanding_checkpoints,
                )))),
        λ d. ground (arith, j d, k d, gc),
      )
