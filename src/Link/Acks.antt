-- ===== src/Link/Acks.antt =====
-- The acknowledgement of a configuration: what becomes of it when a call fails.
use wtf.Prelude.{ℕ, ◌<◌, ◌≡◌, ◌≢◌, subst, false, Option, none, some, arith}
use wtf.OrdMap.{lookup}
use wtf.Coordinator.{Net}
use wtf.Link.{
  config_ack, Replicant, Link, make_rpc, ensure_config_ack, ack_config, do_sleep, reset_sleep,
}
use wtf.Link.Rounds.{succeeded, Reply, completed, base_callback, after_reply, callback, handle}
use wtf.Link.Tracking.{Numbers, IsTracking, Tracked}
use wtf.Link.Tracking.Requests.{ensure_config_ack-IsTracking}
use wtf.Link.Tracking.Ended.{handle-IsTracking}

module _ {C Loc : Type 0} (env : Replicant C Loc) (net : Net Loc) (us : ℕ) (bind_to : Loc) where
  -- If the acknowledgement of a version is in flight, the daemon asks for a newer version w, the call
  -- for w fails, and the earlier acknowledgement then ends well, the link takes w for acknowledged: it
  -- needs none, none is in flight, and ensure_config_ack changes nothing.
  pub ack_lost :
      (s : Link C) (v w i : ℕ) (c : C) (code : Option ℕ)
      → lookup i s.rpcs ≡ some (config_ack v)
      → s.ack_version < w
      → env.call (config_ack w) s.coord ≡ (none, c)
      → let t =
          (handle env net us bind_to
            (completed i (record { status = succeeded; code = code }))
            (ack_config env w s)).1 in
        (t.ack_version ≡ w)
        × (t.need_config_ack ≡ false)
        × (t.config_ack_id ≡ none)
        × (ensure_config_ack env t ≡ t)
  unfolding handle callback base_callback after_reply ack_config ensure_config_ack make_rpc
      reset_sleep
  ack_lost s v w i c code f h e = ground (arith, h)

  -- If the acknowledgement that a tracking link waits for ends with another status than success, and
  -- the client (whose ids grow) then takes the call, ensure_config_ack makes the call again: the new id
  -- is kept, and is that of a request for the version that the link had.
  pub ack_retried :
      (next : C → ℕ) (s : Link C) (i j : ℕ) (r : Reply)
      → Numbers env next
      → IsTracking next s
      → s.config_ack_id ≡ some i
      → r.status ≢ succeeded
      → (env.call (config_ack s.ack_version) s.coord).0 ≡ some j
      → let t = ensure_config_ack env (handle env net us bind_to (completed i r) s).1 in
        (t.config_ack_id ≡ some j) × (lookup j t.rpcs ≡ some (config_ack s.ack_version))
  unfolding handle callback base_callback after_reply ensure_config_ack make_rpc do_sleep
      reset_sleep
  ack_retried next s i j r law v e n a =
      let t = handle env net us bind_to (completed i r) s in
      let w =
        ensure_config_ack-IsTracking env next law t.1
          (handle-IsTracking env next law net us bind_to (completed i r) s v) in
      let f : lookup i s.rpcs ≡ some (config_ack s.ack_version) =
        subst (λ o. Tracked o (config_ack s.ack_version) s.rpcs) e v.ack in
      ground (arith, w.ack, f)
