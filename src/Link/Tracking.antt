-- ===== src/Link/Tracking.antt =====
-- The ids that the link keeps are those of requests that have not ended, each of the right kind and for
-- the present version.
pub mod Requests
pub mod Ended
use wtf.Prelude.{
  ℕ, suc, ◌<◌, ◌≤◌, ◌≡◌, ◌≢◌, ◌⊎◌, inl, inr, refl, sym, ◌∙◌, ap, subst, Bool, true, false, Option,
  none, some, List, [], ◌∷◌, arith, ltb, ◌==◌, not, ◌||◌, ◌&&◌, if◌then◌else◌, add64, Option-cases,
  Bool-cases,
}
use wtf.OrdMap.{OrdMap, lookup, insert_new, erase}
use wtf.OrdMap.Append.{Below, Below-mono}
use wtf.Coordinator.{Net}
use wtf.Link.{
  Request, server_online, server_shutdown, report_disconnect, config_ack, config_stable,
  checkpoint_stable, wait_checkpoint, wait_stable, wait_gc, Replicant, Link, new_link, do_sleep,
  reset_sleep, make_rpc, with_rpc, is_some, ensure_available, ensure_config_ack,
  ensure_config_stable, ensure_checkpoint, ensure_checkpoint_report_stable,
  ensure_checkpoint_stable, ensure_checkpoint_gc, ensure_all, ack_config, stable_config,
  report_stable, request_shutdown, report_tcp_disconnect,
}
use wtf.Link.Rounds.{
  Event, Reply, idle, broken, configured, completed, after_reply, callback, handle, round,
  is_success,
}

-- The client gives each request a larger id than all before it.
pub record Numbers {C Loc : Type 0} (env : Replicant C Loc) (next : C → ℕ) : Type 0 where
  pub given :
      (r : Request) (c : C) (i : ℕ)
      → (env.call r c).0 ≡ some i
      → (next c ≤ i) × (i < next (env.call r c).1)
  pub kept : (r : Request) (c : C) → next c ≤ next (env.call r c).1

-- An id stands for a request of the map.
abbrev pub Tracked : Option ℕ → Request → OrdMap Request → Type 0
Tracked none r m = Unit {0}
Tracked (some i) r m = lookup i m ≡ some r

-- The report of a stable checkpoint, with the configuration that was acknowledged when it was sent.
abbrev pub TrackedReport : Option ℕ → ℕ → OrdMap Request → Type 0
TrackedReport none n m = Unit {0}
TrackedReport (some i) n m = (config : ℕ) × (lookup i m ≡ some (checkpoint_stable config n))

-- No id of the map is as large as the next one, and each id that the link keeps is that of its request.
pub record IsTracking {C : Type 0} (next : C → ℕ) (s : Link C) : Type 0 where
  pub old : Below (next s.coord) s.rpcs
  pub online : Tracked s.online_id server_online s.rpcs
  pub ack : Tracked s.config_ack_id (config_ack s.ack_version) s.rpcs
  pub stable : Tracked s.config_stable_id (config_stable s.stable_version) s.rpcs
  pub checkp : Tracked s.checkpoint_id (wait_checkpoint (add64 s.checkpoint 1)) s.rpcs
  pub report : TrackedReport s.report_id s.report_number s.rpcs
  pub checkps : Tracked s.checkpoint_stable_id (wait_stable (add64 s.checkpoint_stable 1)) s.rpcs
  pub checkpgc : Tracked s.checkpoint_gc_id (wait_gc (add64 s.checkpoint_gc 1)) s.rpcs

pub Below-insert :
    (k i : ℕ) (q : Request) (m : OrdMap Request) → Below k m → i < k → Below k (insert_new i q m)
Below-insert k i q [] b h = (h, tt)
Below-insert k i q (e ∷ m) b h = ground (arith, Below-insert k i q m b.1 h)

pub Below-erase : (k i : ℕ) (m : OrdMap Request) → Below k m → Below k (erase i m)
Below-erase k i [] b = tt
Below-erase k i (e ∷ m) b = ground (arith, Below-erase k i m b.1)

pub lookup-insert_same :
    (i : ℕ) (q : Request) (m : OrdMap Request) → Below i m → lookup i (insert_new i q m) ≡ some q
lookup-insert_same i q [] b = ground arith
lookup-insert_same i q (e ∷ m) b = ground (arith, lookup-insert_same i q m b.1)

pub lookup-insert :
    (k i j : ℕ) (q r : Request) (m : OrdMap Request)
    → Below k m
    → k ≤ i
    → lookup j m ≡ some r
    → lookup j (insert_new i q m) ≡ some r
lookup-insert k i j q r [] b h e = cc
lookup-insert k i j q r (x ∷ m) b h e = ground (arith, lookup-insert k i j q r m b.1 h)

pub lookup-erase :
    (i j : ℕ) (r : Request) (m : OrdMap Request)
    → i ≢ j
    → lookup j m ≡ some r
    → lookup j (erase i m) ≡ some r
lookup-erase i j r [] n e = cc
lookup-erase i j r (x ∷ m) n e = ground (arith, lookup-erase i j r m n)

pub Tracked-insert :
    (k i : ℕ) (o : Option ℕ) (q r : Request) (m : OrdMap Request)
    → Below k m
    → k ≤ i
    → Tracked o r m
    → Tracked o r (insert_new i q m)
Tracked-insert k i none q r m b h t = tt
Tracked-insert k i (some j) q r m b h t = lookup-insert k i j q r m b h t

pub TrackedReport-insert :
    (k i : ℕ) (o : Option ℕ) (q : Request) (n : ℕ) (m : OrdMap Request)
    → Below k m
    → k ≤ i
    → TrackedReport o n m
    → TrackedReport o n (insert_new i q m)
TrackedReport-insert k i none q n m b h t = tt
TrackedReport-insert k i (some j) q n m b h (c, t) =
    (c, lookup-insert k i j q (checkpoint_stable c n) m b h t)

-- Ending a request of another kind.
pub Tracked-erase :
    (i : ℕ) (o : Option ℕ) (q r : Request) (m : OrdMap Request)
    → lookup i m ≡ some q
    → q ≢ r
    → Tracked o r m
    → Tracked o r (erase i m)
Tracked-erase i none q r m f n t = tt
Tracked-erase i (some j) q r m f n t = lookup-erase i j r m (λ e. n (cc)) t

pub TrackedReport-erase :
    (i : ℕ) (o : Option ℕ) (q : Request) (n : ℕ) (m : OrdMap Request)
    → lookup i m ≡ some q
    → ((c : ℕ) → q ≢ checkpoint_stable c n)
    → TrackedReport o n m
    → TrackedReport o n (erase i m)
TrackedReport-erase i none q n m f ne t = tt
TrackedReport-erase i (some j) q n m f ne (c, t) =
    (c, lookup-erase i j (checkpoint_stable c n) m (λ e. ne c (cc)) t)

pub Tracked-rpc :
    (k : ℕ) (id o : Option ℕ) (q r : Request) (m : OrdMap Request)
    → Below k m
    → ((i : ℕ) → id ≡ some i → k ≤ i)
    → Tracked o r m
    → Tracked o r (with_rpc id q m)
Tracked-rpc k none o q r m b h t = t
Tracked-rpc k (some i) o q r m b h t = Tracked-insert k i o q r m b (h i refl) t

pub TrackedReport-rpc :
    (k : ℕ) (id o : Option ℕ) (q : Request) (n : ℕ) (m : OrdMap Request)
    → Below k m
    → ((i : ℕ) → id ≡ some i → k ≤ i)
    → TrackedReport o n m
    → TrackedReport o n (with_rpc id q m)
TrackedReport-rpc k none o q n m b h t = t
TrackedReport-rpc k (some i) o q n m b h t = TrackedReport-insert k i o q n m b (h i refl) t

pub Tracked-new :
    (k : ℕ) (id : Option ℕ) (q : Request) (m : OrdMap Request)
    → Below k m
    → ((i : ℕ) → id ≡ some i → k ≤ i)
    → Tracked id q (with_rpc id q m)
Tracked-new k none q m b h = tt
Tracked-new k (some i) q m b h = lookup-insert_same i q m (Below-mono {j = k} m (h i refl) b)

pub Below-rpc :
    (k l : ℕ) (id : Option ℕ) (q : Request) (m : OrdMap Request)
    → Below k m
    → k ≤ l
    → ((i : ℕ) → id ≡ some i → i < l)
    → Below l (with_rpc id q m)
Below-rpc k l none q m b h f = Below-mono {j = k} m h b
Below-rpc k l (some i) q m b h f = Below-insert l i q m (Below-mono {j = k} m h b) (f i refl)
