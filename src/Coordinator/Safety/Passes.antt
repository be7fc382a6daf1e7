-- ===== src/Coordinator/Safety/Passes.antt =====
-- The calls of the servers that pass a version, and the checkpoints, end well.
use wtf.Prelude.{ℕ, suc, ◌-◌, ◌≡◌, refl, true, arith, ltb, leb, add64, add64_exact}
use wtf.Barrier.{min_version, pass}
use wtf.Barrier.Newest.{min-le-back}
use wtf.Server.{servers_in_configuration}
use wtf.Coordinator.{Coordinator, Env, checkp, outstanding_checkpoints}
use wtf.Coordinator.Conditions.{Counts, broadcast_as_lem}
use wtf.Coordinator.Invariant.{
  Inv, pass-IsAhead, new_version-IsAhead, check_ack_lem, check_stable_lem, check_checkpoint_lem,
}
use wtf.Coordinator.Handlers.{
  success, no_can_do, silence, config_ack, config_stable, checkpoint, checkpoint_stable, alarm,
}
use wtf.Coordinator.Safety.{Cached, Roomy, Good, Inv-alarm, Good-same, Good-if}

module _ {Ctx Loc : Type 0} (env : Env Ctx) (value : ℕ → Ctx → ℕ) (law : Counts env value) where
  pub config_ack-Good :
      (sid version : ℕ) (s : Coordinator Ctx Loc)
      → Inv value s
      → Cached s
      → Roomy s
      → Good env value law s (config_ack env sid version s)
  unfolding config_ack
  config_ack-Good sid version s v c w =
      let b = pass version sid s.config_ack_barrier in
      let s' = record s { config_ack_barrier = b } in
      let ahead =
        pass-IsAhead version sid s.config_ack_through s.version s.config_ack_barrier v.acks in
      let (y, e, k, g) = check_ack_lem env value law s' v.ack_value ahead (omega arith) in
      (
        silence,
        record s' { ctx = y; config_ack_through = min_version b },
        ground (arith, e),
        record {
          config_value = ground (arith, k 0, v.config_value);
          ack_value = ground (arith, k 1);
          stable_value = ground (arith, k 2, v.stable_value);
          checkp_value = ground (arith, k 3, v.checkp_value);
          checkps_value = ground (arith, k 4, v.checkps_value);
          checkpgc_value = ground (arith, k 5, v.checkpgc_value);
          acks = g;
          stables = v.stables;
          checkpoints = v.checkpoints;
          collected = v.collected;
        },
        c,
        omega arith,
      )

  pub config_stable-Good :
      (sid version : ℕ) (s : Coordinator Ctx Loc)
      → Inv value s
      → Cached s
      → Roomy s
      → Good env value law s (config_stable env sid version s)
  unfolding config_stable
  config_stable-Good sid version s v c w =
      let b = pass version sid s.config_stable_barrier in
      let s' = record s { config_stable_barrier = b } in
      let ahead =
        pass-IsAhead version sid s.config_stable_through s.version s.config_stable_barrier
          v.stables in
      let (y, e, k, g) = check_stable_lem env value law s' v.stable_value ahead (omega arith) in
      (
        silence,
        record s' { ctx = y; config_stable_through = min_version b },
        ground (arith, e),
        record {
          config_value = ground (arith, k 0, v.config_value);
          ack_value = ground (arith, k 1, v.ack_value);
          stable_value = ground (arith, k 2);
          checkp_value = ground (arith, k 3, v.checkp_value);
          checkps_value = ground (arith, k 4, v.checkps_value);
          checkpgc_value = ground (arith, k 5, v.checkpgc_value);
          acks = v.acks;
          stables = g;
          checkpoints = v.checkpoints;
          collected = v.collected;
        },
        c,
        omega arith,
      )

  pub checkpoint_stable-Good :
      (sid config number : ℕ) (s : Coordinator Ctx Loc)
      → Inv value s
      → Cached s
      → Roomy s
      → Good env value law s (checkpoint_stable env sid config number s)
  unfolding checkpoint_stable
  checkpoint_stable-Good sid config number s v c w =
      let b = pass number sid s.checkpoint_stable_barrier in
      let s' = record s { checkpoint_stable_barrier = b } in
      let ahead =
        pass-IsAhead number sid s.checkpoint_stable_through s.checkpoint s.checkpoint_stable_barrier
          v.checkpoints in
      let (y, e, k) =
        check_checkpoint_lem env value law s' v.checkps_value v.checkpgc_value v.collected ahead
          (omega arith) in
      Good-if env value law (ltb config s.version) s _ _ (Good-same env value law no_can_do s v c) (
        success,
        record s' {
          ctx = y;
          checkpoint_stable_through = min_version b;
          checkpoint_gc_through = min_version b - outstanding_checkpoints;
        },
        ground (arith, e),
        record {
          config_value = ground (arith, k 0, v.config_value);
          ack_value = ground (arith, k 1, v.ack_value);
          stable_value = ground (arith, k 2, v.stable_value);
          checkp_value = ground (arith, k 3, v.checkp_value);
          checkps_value = ground (arith, k 4);
          checkpgc_value = ground (arith, k 5);
          acks = v.acks;
          stables = v.stables;
          checkpoints = record { shape = ahead.shape; front = refl; newest = ahead.newest };
          collected = refl;
        },
        c,
        omega arith,
      )

  pub checkpoint-Good :
      (s : Coordinator Ctx Loc)
      → Inv value s
      → Cached s
      → Roomy s
      → Good env value law s (checkpoint env s)
  unfolding checkpoint
  checkpoint-Good s v c w =
      let sids = servers_in_configuration s.servers in
      let x = (env.broadcast checkp s.ctx).1 in
      let (b, eb, ahead) =
        new_version-IsAhead s.checkpoint s.checkpoint_stable_through sids
          s.checkpoint_stable_barrier v.checkpoints in
      let s' = record s { ctx = x; checkpoint = suc s.checkpoint; checkpoint_stable_barrier = b } in
      let (y, e, k) =
        check_checkpoint_lem env value law s'
          (ground (arith, law.counted checkp 4 s.ctx, v.checkps_value))
          (ground (arith, law.counted checkp 5 s.ctx, v.checkpgc_value)) v.collected ahead w.1 in
      let next : add64 s.checkpoint 1 ≡ suc s.checkpoint =
        ground (arith, add64_exact s.checkpoint 1) in
      let sent =
        broadcast_as_lem env value law checkp (suc s.checkpoint) s.ctx
          (omega (arith, v.checkp_value)) in
      let old = min-le-back s.checkpoint_stable_barrier v.checkpoints.shape in
      let above : leb s.checkpoint_stable_through (suc s.checkpoint) ≡ true =
        ground (arith, old, v.checkpoints.front, v.checkpoints.newest) in
      (
        silence,
        record s' {
          ctx = y;
          checkpoint_stable_through = min_version b;
          checkpoint_gc_through = min_version b - outstanding_checkpoints;
        },
        rw next (rw sent (rw above (rw eb (rw e refl)))),
        record {
          config_value = ground (arith, k 0, law.counted checkp 0 s.ctx, v.config_value);
          ack_value = ground (arith, k 1, law.counted checkp 1 s.ctx, v.ack_value);
          stable_value = ground (arith, k 2, law.counted checkp 2 s.ctx, v.stable_value);
          checkp_value = ground (arith, k 3, law.counted checkp 3 s.ctx, v.checkp_value);
          checkps_value = ground (arith, k 4);
          checkpgc_value = ground (arith, k 5);
          acks = v.acks;
          stables = v.stables;
          checkpoints = record { shape = ahead.shape; front = refl; newest = ahead.newest };
          collected = refl;
        },
        c,
        omega arith,
      )

  pub alarm-Good :
      (s : Coordinator Ctx Loc)
      → Inv value s
      → Cached s
      → Roomy s
      → Good env value law s (alarm env s)
  unfolding alarm
  alarm-Good s v c w =
      checkpoint-Good (record s { ctx = env.alarm s.ctx }) (Inv-alarm env value law s v) c w
