-- ===== src/Link/Reachable.antt =====
-- The links that a daemon can have: its calls, and the rounds of `maintain_link`, in any order.
use wtf.Prelude.{ℕ, ◌≤◌}
use wtf.OrdMap.Append.{Below-mono}
use wtf.Coordinator.{Net}
use wtf.Link.{
  Replicant, Link, new_link, ensure_all, ack_config, stable_config, report_stable, request_shutdown,
  report_tcp_disconnect,
}
use wtf.Link.Rounds.{Event, round}
use wtf.Link.Tracking.{Numbers, IsTracking}
use wtf.Link.Tracking.Requests.{
  ack_config-IsTracking, stable_config-IsTracking, report_stable-IsTracking,
  request_shutdown-IsTracking, report_tcp_disconnect-IsTracking, ensure_all-IsTracking,
}
use wtf.Link.Tracking.Ended.{handle-IsTracking}

module _ {C Loc : Type 0} (env : Replicant C Loc) (next : C → ℕ) (net : Net Loc) (us : ℕ)
    (bind_to : Loc) where
  -- In a round the client may take steps of its own (`loop`): the ids that it has given stay given.
  pub data Linked : Link C → Type 0 where
    started : (c : C) → Linked (new_link c)
    acked : {s : Link C} (version : ℕ) → Linked s → Linked (ack_config env version s)
    stabled : {s : Link C} (version : ℕ) → Linked s → Linked (stable_config env version s)
    reported : {s : Link C} (seq : ℕ) → Linked s → Linked (report_stable env seq s)
    shut : {s : Link C} → Linked s → Linked (request_shutdown env s)
    disconnected :
        {s : Link C} (id version : ℕ) → Linked s → Linked (report_tcp_disconnect env id version s)
    ran :
        {s : Link C} (e : Event) (c : C)
        → next (ensure_all env net us bind_to s).coord ≤ next c
        → Linked s
        → Linked (round env net us bind_to e c s).1

module _ {C Loc : Type 0} (env : Replicant C Loc) (next : C → ℕ) (law : Numbers env next)
    (net : Net Loc) (us : ℕ) (bind_to : Loc) where
  new_link-IsTracking : (c : C) → IsTracking next (new_link c)
  new_link-IsTracking c = record {
    old = tt;
    online = tt;
    ack = tt;
    stable = tt;
    checkp = tt;
    report = tt;
    checkps = tt;
    checkpgc = tt;
  }

  round-IsTracking :
      (e : Event) (c : C) (s : Link C)
      → next (ensure_all env net us bind_to s).coord ≤ next c
      → IsTracking next s
      → IsTracking next (round env net us bind_to e c s).1
  unfolding round
  round-IsTracking e c s h v =
      let t = ensure_all env net us bind_to s in
      let w = ensure_all-IsTracking env next law net us bind_to s v in
      handle-IsTracking env next law net us bind_to e (record t { coord = c })
        (record {
          old = Below-mono {j = next t.coord} t.rpcs h w.old;
          online = w.online;
          ack = w.ack;
          stable = w.stable;
          checkp = w.checkp;
          report = w.report;
          checkps = w.checkps;
          checkpgc = w.checkpgc;
        })

-- Whatever the daemon asks of the link and whatever the calls come to, each id that the link keeps is
-- that of a request that has not ended, of the field's kind, for the version or the number that the link
-- has now; and the map has no id that the client may give again. The client gives growing ids.
pub Linked-IsTracking :
    {C Loc : Type 0} (env : Replicant C Loc) (next : C → ℕ)
    → Numbers env next
    → (net : Net Loc) (us : ℕ) (bind_to : Loc) (s : Link C) → Linked env next net us bind_to s
    → IsTracking next s
Linked-IsTracking env next law net us b _ (started c) = new_link-IsTracking env next law net us b c
Linked-IsTracking env next law net us b _ (acked {s} w r) =
    ack_config-IsTracking env next law w s (Linked-IsTracking env next law net us b s r)
Linked-IsTracking env next law net us b _ (stabled {s} w r) =
    stable_config-IsTracking env next law w s (Linked-IsTracking env next law net us b s r)
Linked-IsTracking env next law net us b _ (reported {s} n r) =
    report_stable-IsTracking env next law n s (Linked-IsTracking env next law net us b s r)
Linked-IsTracking env next law net us b _ (shut {s} r) =
    request_shutdown-IsTracking env next law s (Linked-IsTracking env next law net us b s r)
Linked-IsTracking env next law net us b _ (disconnected {s} i w r) =
    report_tcp_disconnect-IsTracking env next law i w s
      (Linked-IsTracking env next law net us b s r)
Linked-IsTracking env next law net us b _ (ran {s} e c h r) =
    round-IsTracking env next law net us b e c s h (Linked-IsTracking env next law net us b s r)
