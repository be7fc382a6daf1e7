-- ===== src/Link.antt =====
-- daemon/coordinator_link_wrapper.cc: what a daemon tells the coordinator, and waits for, over calls
-- that may fail and are then made again.
pub mod Rounds
pub mod Tracking
pub mod Reachable
pub mod Acks
pub mod Section
use wtf.Prelude.{
  ℕ, suc, Bool, true, false, Option, none, some, [], ltb, ◌==◌, ◌&&◌, ◌||◌, not, if◌then◌else◌,
  add64, min, ◌*◌,
}
use wtf.OrdMap.{OrdMap, insert_new}
use wtf.Server.{State, available, shutdown}
use wtf.Coordinator.{Config, Net}
use wtf.Coordinator.Handlers.{is_available, is_shutdown}
use wtf.Configuration.{exists, get_address, get_state}

-- The calls and waits, each with the class of its `coord_rpc` and its arguments (less the daemon's id
-- and address, which are always the same).
pub data Request : Type 0 where
  server_online server_shutdown : Request
  report_disconnect : (id version : ℕ) → Request
  config_ack config_stable : (version : ℕ) → Request
  checkpoint_stable : (config number : ℕ) → Request
  wait_checkpoint wait_stable wait_gc : (number : ℕ) → Request

-- The client of the replicated state machine (common/coordinator_link.cc, replicant): the id of a call
-- or a wait, or `none` where it fails (a negative id), and the configuration that it has.
pub record Replicant (C Loc : Type 0) : Type 0 where
  pub call : Request → C → Option ℕ × C
  pub config : C → Config Loc

-- `class coordinator_link_wrapper`, less its mutex. An id below 0 is `none`.
pub record Link (C : Type 0) : Type 0 where
  pub coord : C
  pub rpcs : OrdMap Request
  pub sleep : ℕ
  pub online_id : Option ℕ
  pub shutdown_requested : Bool
  pub need_config_ack : Bool
  pub ack_version : ℕ
  pub config_ack_id : Option ℕ
  pub need_config_stable : Bool
  pub stable_version : ℕ
  pub config_stable_id : Option ℕ
  pub checkpoint : ℕ
  pub checkpoint_id : Option ℕ
  pub need_report : Bool
  pub report_number : ℕ
  pub report_id : Option ℕ
  pub checkpoint_stable : ℕ
  pub checkpoint_stable_id : Option ℕ
  pub checkpoint_gc : ℕ
  pub checkpoint_gc_id : Option ℕ

-- One millisecond and one second, in nanoseconds.
abbrev pub start_sleep : ℕ
start_sleep = 1_000_000

abbrev pub longest_sleep : ℕ
longest_sleep = 1_000_000_000

-- `coordinator_link_wrapper::coordinator_link_wrapper`
abbrev pub new_link : {C : Type 0} → C → Link C
new_link c = record {
  coord = c;
  rpcs = [];
  sleep = start_sleep;
  online_id = none;
  shutdown_requested = false;
  need_config_ack = false;
  ack_version = 0;
  config_ack_id = none;
  need_config_stable = false;
  stable_version = 0;
  config_stable_id = none;
  checkpoint = 0;
  checkpoint_id = none;
  need_report = false;
  report_number = 0;
  report_id = none;
  checkpoint_stable = 0;
  checkpoint_stable_id = none;
  checkpoint_gc = 0;
  checkpoint_gc_id = none;
}

abbrev pub is_some {ℓ} : {A : Type ℓ} → Option A → Bool
is_some none = false
is_some (some a) = true

-- `do_sleep`: the next sleep is twice as long, up to a second. (The sleep itself is not modelled.)
unfoldable pub do_sleep : {C : Type 0} → Link C → Link C
do_sleep s = record s { sleep = min longest_sleep (s.sleep * 2) }

-- `reset_sleep`
unfoldable pub reset_sleep : {C : Type 0} → Link C → Link C
reset_sleep s = record s { sleep = start_sleep }

-- The map after a call with the given id.
abbrev pub with_rpc : Option ℕ → Request → OrdMap Request → OrdMap Request
with_rpc none r m = m
with_rpc (some i) r m = insert_new i r m

module _ {C Loc : Type 0} (env : Replicant C Loc) where
  -- `make_rpc_nosync` and `wait_nosync`
  unfoldable pub make_rpc : Request → Link C → Option ℕ × Link C
  make_rpc r s =
      let (id, c) = env.call r s.coord in (id, record s { coord = c; rpcs = with_rpc id r s.rpcs })

  unfoldable pub ensure_config_ack : Link C → Link C
  ensure_config_ack s =
      let (id, s') = make_rpc (config_ack s.ack_version) s in
      if is_some s.config_ack_id || not s.need_config_ack
      then s
      else record s' { config_ack_id = id }

  unfoldable pub ensure_config_stable : Link C → Link C
  ensure_config_stable s =
      let (id, s') = make_rpc (config_stable s.stable_version) s in
      if is_some s.config_stable_id || not s.need_config_stable
      then s
      else record s' { config_stable_id = id }

  unfoldable pub ensure_checkpoint : Link C → Link C
  ensure_checkpoint s =
      let (id, s') = make_rpc (wait_checkpoint (add64 s.checkpoint 1)) s in
      if is_some s.checkpoint_id then s else record s' { checkpoint_id = id }

  unfoldable pub ensure_checkpoint_report_stable : Link C → Link C
  ensure_checkpoint_report_stable s =
      let (id, s') = make_rpc (checkpoint_stable s.ack_version s.report_number) s in
      if is_some s.report_id || not s.need_report then s else record s' { report_id = id }

  unfoldable pub ensure_checkpoint_stable : Link C → Link C
  ensure_checkpoint_stable s =
      let (id, s') = make_rpc (wait_stable (add64 s.checkpoint_stable 1)) s in
      if is_some s.checkpoint_stable_id then s else record s' { checkpoint_stable_id = id }

  unfoldable pub ensure_checkpoint_gc : Link C → Link C
  ensure_checkpoint_gc s =
      let (id, s') = make_rpc (wait_gc (add64 s.checkpoint_gc 1)) s in
      if is_some s.checkpoint_gc_id then s else record s' { checkpoint_gc_id = id }

  -- `config_ack`, `config_stable` and `checkpoint_report_stable`: what the daemon tells the link, each
  -- within the critical section.
  unfoldable pub ack_config : ℕ → Link C → Link C
  ack_config version s =
      if ltb s.ack_version version
      then ensure_config_ack
          (record s { need_config_ack = true; ack_version = version; config_ack_id = none })
      else s

  unfoldable pub stable_config : ℕ → Link C → Link C
  stable_config version s =
      if ltb s.stable_version version
      then ensure_config_stable (record s {
        need_config_stable = true;
        stable_version = version;
        config_stable_id = none;
      })
      else s

  unfoldable pub report_stable : ℕ → Link C → Link C
  report_stable seq s =
      if ltb s.report_number seq
      then ensure_checkpoint_report_stable
          (record s { need_report = true; report_number = seq; report_id = none })
      else s

  -- `request_shutdown` and `report_tcp_disconnect`
  unfoldable pub request_shutdown : Link C → Link C
  request_shutdown s = (make_rpc server_shutdown (record s { shutdown_requested = true })).1

  unfoldable pub report_tcp_disconnect : ℕ → ℕ → Link C → Link C
  report_tcp_disconnect id version s = (make_rpc (report_disconnect id version) s).1

module _ {C Loc : Type 0} (env : Replicant C Loc) (net : Net Loc) (us : ℕ) (bind_to : Loc) where
  unfoldable pub ensure_available : Link C → Link C
  ensure_available s =
      let servers = (env.config s.coord).servers in
      let (id, s') = make_rpc env server_online s in
      if is_some s.online_id || s.shutdown_requested
      then s
      else if net.same (get_address net.unset us servers) bind_to
          && is_available (get_state us servers)
      then s
      else record s' { online_id = id }

  -- The calls at the head of each round of `maintain_link`.
  unfoldable pub ensure_all : Link C → Link C
  ensure_all s = ensure_checkpoint_gc env (
      ensure_checkpoint_stable env (
        ensure_checkpoint_report_stable env (
          ensure_checkpoint env
            (ensure_config_stable env (ensure_config_ack env (ensure_available s))))))

  -- `should_exit`
  unfoldable pub should_exit : Link C → Bool
  should_exit s =
      let cfg = env.config s.coord in
      (not (exists us cfg.servers) && ltb 0 cfg.version)
      || (s.shutdown_requested && is_shutdown (get_state us cfg.servers))
