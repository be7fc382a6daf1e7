-- ===== src/Coordinator/Safety.antt =====
-- What it is for a call to end well: it fails no assertion, and keeps the invariant and the cached
-- configuration.
pub mod Members
pub mod Passes
use wtf.Prelude.{
  ℕ, suc, ◌+◌, ◌-◌, ◌<◌, ◌≤◌, ◌≡◌, ◌⊎◌, inl, inr, refl, Bool, true, false, some, List, arith, ltb,
  leb, if◌then◌else◌, word, add64, add64_exact, Option-cases,
}
use wtf.Barrier.{min_version, pass}
use wtf.Barrier.Newest.{min-le-back}
use wtf.Server.{servers_in_configuration, Server, State, not_available, get_server, put_server}
use wtf.Coordinator.{
  Coordinator, Config, Env, Net, checkp, generate_next_configuration, outstanding_checkpoints,
}
use wtf.Coordinator.Conditions.{Counts, broadcast_as_lem}
use wtf.Coordinator.Invariant.{
  Inv, pass-IsAhead, new_version-IsAhead, generate_next_configuration_lem, check_ack_lem,
  check_stable_lem, check_checkpoint_lem,
}
use wtf.Coordinator.Handlers.{
  Response, Outcome, success, duplicate, not_found, no_can_do, silence, respond, init, read_only,
  set_read_only, server_register, server_offline, server_shutdown, server_kill, server_forget,
  server_suspect, change_state, is_shutdown, is_suspectable, is_down, config_ack, config_stable,
  checkpoint, checkpoint_stable, alarm,
}

module _ {Ctx Loc : Type 0} where
  -- The configuration that the state stands for.
  abbrev pub current : Coordinator Ctx Loc → Config Loc
  current s = record {
    cluster = s.cluster;
    version = s.version;
    flags = s.flags;
    servers = s.servers;
  }

  -- Once there is a cluster, the cached configuration is the current one.
  abbrev pub Cached : Coordinator Ctx Loc → Type 0
  Cached s = (s.cluster ≡ 0) ⊎ ((0 < s.version) × (s.latest_config ≡ some (current s)))

  -- Counters that can be counted on once more.
  abbrev pub Roomy : Coordinator Ctx Loc → Type 0
  Roomy s = (suc s.version < word) × (suc s.checkpoint + outstanding_checkpoints < word)

module _ {Ctx Loc : Type 0} (env : Env Ctx) (value : ℕ → Ctx → ℕ) (law : Counts env value) where
  -- A call ended well.
  abbrev pub Good : Coordinator Ctx Loc → Outcome Ctx Loc → Type 0
  Good s o =
      (r : Response Loc) × (t : Coordinator Ctx Loc) × (o ≡ some (r, t))
      × Inv value t
      × Cached t
      × (s.version ≤ t.version)

  pub Inv-alarm :
      (s : Coordinator Ctx Loc) → Inv value s → Inv value (record s { ctx = env.alarm s.ctx })
  Inv-alarm s v = record {
    config_value = ground (arith, law.quiet_alarm 0 s.ctx, v.config_value);
    ack_value = ground (arith, law.quiet_alarm 1 s.ctx, v.ack_value);
    stable_value = ground (arith, law.quiet_alarm 2 s.ctx, v.stable_value);
    checkp_value = ground (arith, law.quiet_alarm 3 s.ctx, v.checkp_value);
    checkps_value = ground (arith, law.quiet_alarm 4 s.ctx, v.checkps_value);
    checkpgc_value = ground (arith, law.quiet_alarm 5 s.ctx, v.checkpgc_value);
    acks = v.acks;
    stables = v.stables;
    checkpoints = v.checkpoints;
    collected = v.collected;
  }

  pub Inv-suspect :
      (sid : ℕ) (s : Coordinator Ctx Loc)
      → Inv value s
      → Inv value (record s { ctx = env.suspect sid s.ctx })
  Inv-suspect sid s v = record {
    config_value = ground (arith, law.quiet_suspect 0 sid s.ctx, v.config_value);
    ack_value = ground (arith, law.quiet_suspect 1 sid s.ctx, v.ack_value);
    stable_value = ground (arith, law.quiet_suspect 2 sid s.ctx, v.stable_value);
    checkp_value = ground (arith, law.quiet_suspect 3 sid s.ctx, v.checkp_value);
    checkps_value = ground (arith, law.quiet_suspect 4 sid s.ctx, v.checkps_value);
    checkpgc_value = ground (arith, law.quiet_suspect 5 sid s.ctx, v.checkpgc_value);
    acks = v.acks;
    stables = v.stables;
    checkpoints = v.checkpoints;
    collected = v.collected;
  }

  -- The invariant says nothing of the servers, the flags and the name of the cluster.
  pub Inv-members :
      (c f : ℕ) (l o : List (Server Loc)) (s : Coordinator Ctx Loc)
      → Inv value s
      → Inv value (record s { cluster = c; flags = f; servers = l; offline = o })
  Inv-members c f l o s v = record {
    config_value = v.config_value;
    ack_value = v.ack_value;
    stable_value = v.stable_value;
    checkp_value = v.checkp_value;
    checkps_value = v.checkps_value;
    checkpgc_value = v.checkpgc_value;
    acks = v.acks;
    stables = v.stables;
    checkpoints = v.checkpoints;
    collected = v.collected;
  }

  pub Good-same :
      (r : Response Loc) (s : Coordinator Ctx Loc) → Inv value s → Cached s → Good s (some (r, s))
  Good-same r s v c = (r, s, refl, v, c, omega arith)

  pub Good-if :
      (b : Bool) (s : Coordinator Ctx Loc) (o p : Outcome Ctx Loc)
      → Good s o
      → Good s p
      → Good s (if b then o else p)
  Good-if true s o p g h = g
  Good-if false s o p g h = h

  -- A new configuration after a change of members.
  pub Good-issue :
      (c f : ℕ) (l o : List (Server Loc)) (s : Coordinator Ctx Loc)
      → Inv value s
      → Roomy s
      → Good s (
          respond success (
            generate_next_configuration env
              (record s { cluster = c; flags = f; servers = l; offline = o })))
  Good-issue c f l o s v w =
      let s' = record s { cluster = c; flags = f; servers = l; offline = o } in
      let (t, e, i, j) =
        generate_next_configuration_lem env value law s' (Inv-members c f l o s v) w.0 in
      (
        success,
        t,
        ground (arith, e),
        i,
        inr (
          ground (arith, j.version),
          ground (arith, j.version, j.servers, j.cluster, j.flags, j.latest),
        ),
        ground (arith, j.version),
      )
