-- ===== src/Link/Tracking/Requests.antt =====
-- A request that is made, by the daemon or at the head of a round, is tracked, and what was tracked stays.
use wtf.Prelude.{ℕ, ◌≡◌, true, Option, none, some, arith, add64}
use wtf.OrdMap.{OrdMap}
use wtf.Coordinator.{Net}
use wtf.Link.{
  Request, server_online, server_shutdown, report_disconnect, config_ack, config_stable,
  checkpoint_stable, wait_checkpoint, wait_stable, wait_gc, Replicant, Link, make_rpc,
  ensure_available, ensure_config_ack, ensure_config_stable, ensure_checkpoint,
  ensure_checkpoint_report_stable, ensure_checkpoint_stable, ensure_checkpoint_gc, ensure_all,
  ack_config, stable_config, report_stable, request_shutdown, report_tcp_disconnect,
}
use wtf.Link.Tracking.{
  Numbers, Tracked, TrackedReport, IsTracking, Tracked-rpc, TrackedReport-rpc, Tracked-new,
  Below-rpc,
}

module _ {C Loc : Type 0} (env : Replicant C Loc) (next : C → ℕ) (law : Numbers env next) where
  -- A request is made: the map keeps the requests of the fields, and has the new one.
  make_rpc-IsTracking :
      (r : Request) (s : Link C) → IsTracking next s → IsTracking next (make_rpc env r s).1
  unfolding make_rpc
  make_rpc-IsTracking r s v =
      let id = (env.call r s.coord).0 in
      let k = next s.coord in
      let above = λ (i : ℕ) (e : id ≡ some i). (law.given r s.coord i e).0 in
      record {
        old =
            Below-rpc k (next (env.call r s.coord).1) id r s.rpcs v.old (law.kept r s.coord)
              (λ i e. (law.given r s.coord i e).1);
        online = Tracked-rpc k id s.online_id r server_online s.rpcs v.old above v.online;
        ack =
            Tracked-rpc k id s.config_ack_id r (config_ack s.ack_version) s.rpcs v.old above v.ack;
        stable =
            Tracked-rpc k id s.config_stable_id r (config_stable s.stable_version) s.rpcs v.old
              above v.stable;
        checkp =
            Tracked-rpc k id s.checkpoint_id r (wait_checkpoint (add64 s.checkpoint 1)) s.rpcs v.old
              above v.checkp;
        report = TrackedReport-rpc k id s.report_id r s.report_number s.rpcs v.old above v.report;
        checkps =
            Tracked-rpc k id s.checkpoint_stable_id r (wait_stable (add64 s.checkpoint_stable 1))
              s.rpcs v.old above v.checkps;
        checkpgc =
            Tracked-rpc k id s.checkpoint_gc_id r (wait_gc (add64 s.checkpoint_gc 1)) s.rpcs v.old
              above v.checkpgc;
      }

  make_rpc-Tracked :
      (r : Request) (s : Link C)
      → IsTracking next s
      → Tracked (make_rpc env r s).0 r (make_rpc env r s).1.rpcs
  unfolding make_rpc
  make_rpc-Tracked r s v =
      Tracked-new (next s.coord) (env.call r s.coord).0 r s.rpcs v.old
        (λ i e. (law.given r s.coord i e).0)

  pub ensure_config_ack-IsTracking :
      (s : Link C) → IsTracking next s → IsTracking next (ensure_config_ack env s)
  unfolding ensure_config_ack make_rpc
  ensure_config_ack-IsTracking s v = ground (
    arith,
    make_rpc-IsTracking (config_ack s.ack_version) s v,
    make_rpc-Tracked (config_ack s.ack_version) s v,
  )

  ensure_config_stable-IsTracking :
      (s : Link C) → IsTracking next s → IsTracking next (ensure_config_stable env s)
  unfolding ensure_config_stable make_rpc
  ensure_config_stable-IsTracking s v = ground (
    arith,
    make_rpc-IsTracking (config_stable s.stable_version) s v,
    make_rpc-Tracked (config_stable s.stable_version) s v,
  )

  ensure_checkpoint-IsTracking :
      (s : Link C) → IsTracking next s → IsTracking next (ensure_checkpoint env s)
  unfolding ensure_checkpoint make_rpc
  ensure_checkpoint-IsTracking s v = ground (
    arith,
    make_rpc-IsTracking (wait_checkpoint (add64 s.checkpoint 1)) s v,
    make_rpc-Tracked (wait_checkpoint (add64 s.checkpoint 1)) s v,
  )

  ensure_checkpoint_stable-IsTracking :
      (s : Link C) → IsTracking next s → IsTracking next (ensure_checkpoint_stable env s)
  unfolding ensure_checkpoint_stable make_rpc
  ensure_checkpoint_stable-IsTracking s v = ground (
    arith,
    make_rpc-IsTracking (wait_stable (add64 s.checkpoint_stable 1)) s v,
    make_rpc-Tracked (wait_stable (add64 s.checkpoint_stable 1)) s v,
  )

  ensure_checkpoint_gc-IsTracking :
      (s : Link C) → IsTracking next s → IsTracking next (ensure_checkpoint_gc env s)
  unfolding ensure_checkpoint_gc make_rpc
  ensure_checkpoint_gc-IsTracking s v = ground (
    arith,
    make_rpc-IsTracking (wait_gc (add64 s.checkpoint_gc 1)) s v,
    make_rpc-Tracked (wait_gc (add64 s.checkpoint_gc 1)) s v,
  )

  TrackedReport-of :
      (o : Option ℕ) (config n : ℕ) (m : OrdMap Request)
      → Tracked o (checkpoint_stable config n) m
      → TrackedReport o n m
  TrackedReport-of none config n m t = tt
  TrackedReport-of (some i) config n m t = (config, t)

  ensure_checkpoint_report_stable-IsTracking :
      (s : Link C) → IsTracking next s → IsTracking next (ensure_checkpoint_report_stable env s)
  unfolding ensure_checkpoint_report_stable make_rpc
  ensure_checkpoint_report_stable-IsTracking s v =
      let q = checkpoint_stable s.ack_version s.report_number in
      let t =
        TrackedReport-of (make_rpc env q s).0 s.ack_version s.report_number
          (make_rpc env q s).1.rpcs (make_rpc-Tracked q s v) in
      ground (arith, make_rpc-IsTracking q s v, t)

  -- What the daemon tells the link keeps the invariant.
  pub ack_config-IsTracking :
      (version : ℕ) (s : Link C) → IsTracking next s → IsTracking next (ack_config env version s)
  unfolding ack_config
  ack_config-IsTracking version s v =
      let s' = record s { need_config_ack = true; ack_version = version; config_ack_id = none } in
      let v' : IsTracking next s' = ground arith in
      ground (arith, ensure_config_ack-IsTracking s' v')

  pub stable_config-IsTracking :
      (version : ℕ) (s : Link C) → IsTracking next s → IsTracking next (stable_config env version s)
  unfolding stable_config
  stable_config-IsTracking version s v =
      let s' = record s {
        need_config_stable = true;
        stable_version = version;
        config_stable_id = none;
      } in
      let v' : IsTracking next s' = ground arith in
      ground (arith, ensure_config_stable-IsTracking s' v')

  pub report_stable-IsTracking :
      (seq : ℕ) (s : Link C) → IsTracking next s → IsTracking next (report_stable env seq s)
  unfolding report_stable
  report_stable-IsTracking seq s v =
      let s' = record s { need_report = true; report_number = seq; report_id = none } in
      let v' : IsTracking next s' = ground arith in
      ground (arith, ensure_checkpoint_report_stable-IsTracking s' v')

  pub request_shutdown-IsTracking :
      (s : Link C) → IsTracking next s → IsTracking next (request_shutdown env s)
  unfolding request_shutdown
  request_shutdown-IsTracking s v =
      let s' = record s { shutdown_requested = true } in
      let v' : IsTracking next s' = ground arith in make_rpc-IsTracking server_shutdown s' v'

  pub report_tcp_disconnect-IsTracking :
      (id version : ℕ) (s : Link C)
      → IsTracking next s
      → IsTracking next (report_tcp_disconnect env id version s)
  unfolding report_tcp_disconnect
  report_tcp_disconnect-IsTracking id version s v =
      make_rpc-IsTracking (report_disconnect id version) s v

module _ {C Loc : Type 0} (env : Replicant C Loc) (next : C → ℕ) (law : Numbers env next)
    (net : Net Loc) (us : ℕ) (bind_to : Loc) where
  ensure_available-IsTracking :
      (s : Link C) → IsTracking next s → IsTracking next (ensure_available env net us bind_to s)
  unfolding ensure_available make_rpc
  ensure_available-IsTracking s v = ground (
    arith,
    make_rpc-IsTracking env next law server_online s v,
    make_rpc-Tracked env next law server_online s v,
  )

  pub ensure_all-IsTracking :
      (s : Link C) → IsTracking next s → IsTracking next (ensure_all env net us bind_to s)
  unfolding ensure_all
  ensure_all-IsTracking s v = ensure_checkpoint_gc-IsTracking env next law _ (
      ensure_checkpoint_stable-IsTracking env next law _ (
        ensure_checkpoint_report_stable-IsTracking env next law _ (
          ensure_checkpoint-IsTracking env next law _ (
            ensure_config_stable-IsTracking env next law _
              (ensure_config_ack-IsTracking env next law _ (ensure_available-IsTracking s v))))))
