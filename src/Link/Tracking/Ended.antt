-- ===== src/Link/Tracking/Ended.antt =====
-- A request that ended leaves the map, and the invariant stays through each round.
use wtf.Prelude.{ℕ, ◌≡◌, ◌≢◌, inl, inr, some, arith, add64, Option-cases}
use wtf.OrdMap.{lookup, erase}
use wtf.OrdMap.Append.{Below}
use wtf.Coordinator.{Net}
use wtf.Link.{
  Request, server_online, server_shutdown, report_disconnect, config_ack, config_stable,
  checkpoint_stable, wait_checkpoint, wait_stable, wait_gc, Replicant, Link, do_sleep, reset_sleep,
}
use wtf.Link.Rounds.{
  Event, Reply, idle, broken, configured, completed, after_reply, base_callback, Status, succeeded,
  cluster_jump, failed, callback, handle,
}
use wtf.Link.Tracking.{
  Numbers, Tracked, TrackedReport, IsTracking, Below-erase, Tracked-erase, TrackedReport-erase,
}

-- The fields that stand for other requests than the one given.
record StillTracks {C : Type 0} (next : C → ℕ) (q : Request) (s : Link C) : Type 0 where
  old : Below (next s.coord) s.rpcs
  online : q ≢ server_online → Tracked s.online_id server_online s.rpcs
  ack : q ≢ config_ack s.ack_version → Tracked s.config_ack_id (config_ack s.ack_version) s.rpcs
  stable :
      q ≢ config_stable s.stable_version
      → Tracked s.config_stable_id (config_stable s.stable_version) s.rpcs
  checkp :
      q ≢ wait_checkpoint (add64 s.checkpoint 1)
      → Tracked s.checkpoint_id (wait_checkpoint (add64 s.checkpoint 1)) s.rpcs
  report :
      ((c : ℕ) → q ≢ checkpoint_stable c s.report_number)
      → TrackedReport s.report_id s.report_number s.rpcs
  checkps :
      q ≢ wait_stable (add64 s.checkpoint_stable 1)
      → Tracked s.checkpoint_stable_id (wait_stable (add64 s.checkpoint_stable 1)) s.rpcs
  checkpgc :
      q ≢ wait_gc (add64 s.checkpoint_gc 1)
      → Tracked s.checkpoint_gc_id (wait_gc (add64 s.checkpoint_gc 1)) s.rpcs

-- The request that ended leaves the map, and with it the field that stood for it.
module _ {C : Type 0} (next : C → ℕ) where
  erase-StillTracks :
      (id : ℕ) (q : Request) (s : Link C)
      → IsTracking next s
      → lookup id s.rpcs ≡ some q
      → StillTracks next q (record s { rpcs = erase id s.rpcs })
  erase-StillTracks id q s v f = record {
    old = Below-erase (next s.coord) id s.rpcs v.old;
    online = λ n. Tracked-erase id s.online_id q server_online s.rpcs f n v.online;
    ack = λ n. Tracked-erase id s.config_ack_id q (config_ack s.ack_version) s.rpcs f n v.ack;
    stable = λ n.
        Tracked-erase id s.config_stable_id q (config_stable s.stable_version) s.rpcs f n v.stable;
    checkp = λ n.
        Tracked-erase id s.checkpoint_id q (wait_checkpoint (add64 s.checkpoint 1)) s.rpcs f n
          v.checkp;
    report = λ n. TrackedReport-erase id s.report_id q s.report_number s.rpcs f n v.report;
    checkps = λ n.
        Tracked-erase id s.checkpoint_stable_id q (wait_stable (add64 s.checkpoint_stable 1)) s.rpcs
          f n v.checkps;
    checkpgc = λ n.
        Tracked-erase id s.checkpoint_gc_id q (wait_gc (add64 s.checkpoint_gc 1)) s.rpcs f n
          v.checkpgc;
  }

  after_reply-IsTracking :
      (q : Request) (r : Reply) (s : Link C)
      → StillTracks next q s
      → IsTracking next (after_reply q r s).1
  unfolding after_reply
  after_reply-IsTracking server_online r s k = record {
    old = k.old;
    online = tt;
    ack = k.ack (λ e. cc);
    stable = k.stable (λ e. cc);
    checkp = k.checkp (λ e. cc);
    report = k.report (λ c e. cc);
    checkps = k.checkps (λ e. cc);
    checkpgc = k.checkpgc (λ e. cc);
  }
  after_reply-IsTracking server_shutdown r s k = record {
    old = k.old;
    online = k.online (λ e. cc);
    ack = k.ack (λ e. cc);
    stable = k.stable (λ e. cc);
    checkp = k.checkp (λ e. cc);
    report = k.report (λ c e. cc);
    checkps = k.checkps (λ e. cc);
    checkpgc = k.checkpgc (λ e. cc);
  }
  after_reply-IsTracking (report_disconnect j w) r s k = record {
    old = k.old;
    online = k.online (λ e. cc);
    ack = k.ack (λ e. cc);
    stable = k.stable (λ e. cc);
    checkp = k.checkp (λ e. cc);
    report = k.report (λ c e. cc);
    checkps = k.checkps (λ e. cc);
    checkpgc = k.checkpgc (λ e. cc);
  }
  after_reply-IsTracking (config_ack w) r s k = record {
    old = k.old;
    online = k.online (λ e. cc);
    ack = tt;
    stable = k.stable (λ e. cc);
    checkp = k.checkp (λ e. cc);
    report = k.report (λ c e. cc);
    checkps = k.checkps (λ e. cc);
    checkpgc = k.checkpgc (λ e. cc);
  }
  after_reply-IsTracking (config_stable w) r s k = record {
    old = k.old;
    online = k.online (λ e. cc);
    ack = k.ack (λ e. cc);
    stable = tt;
    checkp = k.checkp (λ e. cc);
    report = k.report (λ c e. cc);
    checkps = k.checkps (λ e. cc);
    checkpgc = k.checkpgc (λ e. cc);
  }
  after_reply-IsTracking (checkpoint_stable c n) r s k = record {
    old = k.old;
    online = k.online (λ e. cc);
    ack = k.ack (λ e. cc);
    stable = k.stable (λ e. cc);
    checkp = k.checkp (λ e. cc);
    report = tt;
    checkps = k.checkps (λ e. cc);
    checkpgc = k.checkpgc (λ e. cc);
  }
  after_reply-IsTracking (wait_checkpoint n) r s k = ground (
    arith,
    k.old,
    k.online (λ e. cc),
    k.ack (λ e. cc),
    k.stable (λ e. cc),
    k.report (λ c e. cc),
    k.checkps (λ e. cc),
    k.checkpgc (λ e. cc),
  )
  after_reply-IsTracking (wait_stable n) r s k = ground (
    arith,
    k.old,
    k.online (λ e. cc),
    k.ack (λ e. cc),
    k.stable (λ e. cc),
    k.checkp (λ e. cc),
    k.report (λ c e. cc),
    k.checkpgc (λ e. cc),
  )
  after_reply-IsTracking (wait_gc n) r s k = ground (
    arith,
    k.old,
    k.online (λ e. cc),
    k.ack (λ e. cc),
    k.stable (λ e. cc),
    k.checkp (λ e. cc),
    k.report (λ c e. cc),
    k.checkps (λ e. cc),
  )

  base_callback-StillTracks :
      (st : Status) (q : Request) (s : Link C)
      → StillTracks next q s
      → StillTracks next q (base_callback st s)
  unfolding base_callback do_sleep
  base_callback-StillTracks succeeded q s k = k
  base_callback-StillTracks cluster_jump q s k = ground (arith, k)
  base_callback-StillTracks failed q s k = k

  callback-IsTracking :
      (id : ℕ) (q : Request) (r : Reply) (s : Link C)
      → IsTracking next s
      → lookup id s.rpcs ≡ some q
      → IsTracking next (callback q r (record s { rpcs = erase id s.rpcs })).1
  unfolding callback
  callback-IsTracking id q r s v f =
      after_reply-IsTracking q r _
        (base_callback-StillTracks r.status q _ (erase-StillTracks id q s v f))

module _ {C Loc : Type 0} (env : Replicant C Loc) (next : C → ℕ) (law : Numbers env next)
    (net : Net Loc) (us : ℕ) (bind_to : Loc) where
  pub handle-IsTracking :
      (e : Event) (s : Link C)
      → IsTracking next s
      → IsTracking next (handle env net us bind_to e s).1
  unfolding handle do_sleep reset_sleep
  handle-IsTracking idle s v = ground arith
  handle-IsTracking broken s v = ground arith
  handle-IsTracking configured s v = ground arith
  handle-IsTracking (completed id r) s v =
      let s' = reset_sleep s in
      let v' : IsTracking next s' = ground arith in
      elim (Option-cases (lookup id s'.rpcs)) [
        | inl h ↦ rw (handle, h) v'
        | inr (q, h) ↦ rw (handle, h) (callback-IsTracking next id q r s' v' h)
      ]
