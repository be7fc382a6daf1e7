-- ===== src/Tests/Links.antt =====
-- A client of the coordinator that numbers its calls, and cannot acknowledge version 9.
use wtf.Prelude.{ℕ, suc, ◌≡◌, refl, Bool, false, none, some, [], arith, ◌==◌, if◌then◌else◌}
use wtf.OrdMap.{lookup}
use wtf.Coordinator.{Net}
use wtf.Link.{
  Request, config_ack, Replicant, Link, make_rpc, new_link, ack_config, ensure_config_ack,
  ensure_all, ensure_available, ensure_config_stable, ensure_checkpoint,
  ensure_checkpoint_report_stable, ensure_checkpoint_stable, ensure_checkpoint_gc,
}
use wtf.Configuration.{get_address, get_state}
use wtf.Link.Rounds.{Reply, succeeded, failed, completed, configured, handle, round}
use wtf.Link.Tracking.{Numbers, IsTracking}
use wtf.Link.Reachable.{Linked, started, acked, ran, Linked-IsTracking}
use wtf.Link.Acks.{ack_lost, ack_retried}

abbrev is_refused : Request → Bool
is_refused (config_ack v) = v == 9
is_refused _ = false

abbrev client : Replicant ℕ ℕ
client = record {
  call = λ r c. (if is_refused r then none else some c, suc c);
  config = λ c. record { cluster = 1; version = 1; flags = 0; servers = [] };
}

abbrev next : ℕ → ℕ
next c = c

client-Numbers : Numbers client next
client-Numbers = record { given = λ r c i e. ground (arith, e); kept = λ r c. omega arith }

abbrev numbers : Net ℕ
numbers = record { unset = 0; same = λ a b. a == b }

-- Version 5 is to be acknowledged, under the first id.
abbrev acking : Link ℕ
acking = ack_config client 5 (new_link 1)

acking-Linked : Linked client next numbers 7 9000 acking
acking-Linked = acked 5 (started 1)

Linked-IsTracking_example : IsTracking next (round client numbers 7 9000 configured 40 acking).1
unfolding ack_config make_rpc ensure_all ensure_available ensure_config_ack ensure_config_stable
    ensure_checkpoint ensure_checkpoint_report_stable ensure_checkpoint_stable ensure_checkpoint_gc
    get_address get_state
Linked-IsTracking_example =
    Linked-IsTracking client next client-Numbers numbers 7 9000 _
      (ran configured 40 (omega arith) acking-Linked)

abbrev well : Reply
well = record { status = succeeded; code = none }

abbrev badly : Reply
badly = record { status = failed; code = none }

ack_lost_example :
    let t = (handle client numbers 7 9000 (completed 1 well) (ack_config client 9 acking)).1 in
    (t.ack_version ≡ 9)
    × (t.need_config_ack ≡ false)
    × (t.config_ack_id ≡ none)
    × (ensure_config_ack client t ≡ t)
unfolding ack_config ensure_config_ack make_rpc
ack_lost_example = ack_lost client numbers 7 9000 acking 5 9 1 3 none refl (omega arith) refl

ack_retried_example :
    let t = ensure_config_ack client (handle client numbers 7 9000 (completed 1 badly) acking).1 in
    (t.config_ack_id ≡ some 2) × (lookup 2 t.rpcs ≡ some (config_ack 5))
unfolding ack_config ensure_config_ack make_rpc
ack_retried_example =
    ack_retried client numbers 7 9000 next acking 1 2 badly client-Numbers
      (Linked-IsTracking client next client-Numbers numbers 7 9000 acking acking-Linked) refl
      (λ e. cc) refl
