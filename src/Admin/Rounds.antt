-- ===== src/Admin/Rounds.antt =====
-- Each round of `loop` returns an id that is outstanding no more, or changes none.
use wtf.Prelude.{
  ℕ, ◌+◌, ◌≡◌, refl, ap, ◌∙◌, Bool, true, false, Option, none, some, List, [], ◌∷◌, if◌then◌else◌,
  arith, Bool-cases, inl, inr,
}
use wtf.OrdMap.{lookup}
use wtf.Admin.{
  Op, Admin, Replicant, Code, Event, external, stray, idle, signal, poll_error, connect,
  connect_after, connection_failure, answer_round, ended_round, event_round, network_round,
  coord_round, recv_round, is_timeout, is_empty, response_status, Net, Result, gives, Round, again,
  maintain_coord_connection, loop_round_at,
}
use wtf.Admin.Outstanding.{
  holds, in_map, in_list, in_option, outstanding, in_map-erase, given, returned,
}

module _ {C : Type 0} (env : Net C) where
  -- The fields that a connection leaves alone.
  pub record Connected (s t : Admin C) : Type 0 where
    pub ops : t.coord_ops ≡ s.coord_ops
    pub ready : t.yieldable ≡ s.yieldable
    pub giving : t.yielding ≡ s.yielding
    pub next : t.next_admin_id ≡ s.next_admin_id

  pub connect-Connected : (s : Admin C) → Connected s (connect env s).2
  connect-Connected s = elim (Bool-cases (env.external_fd s.net)) [
    | inl e ↦ rw e (record { ops = refl; ready = refl; giving = refl; next = refl })
    | inr e ↦ rw e (record { ops = refl; ready = refl; giving = refl; next = refl })
  ]

  pub connect_after-Connected :
      (rc : Option Replicant) (s : Admin C) → Connected s (connect_after env rc s).2
  connect_after-Connected none s = connect-Connected s
  connect_after-Connected (some rc) s = elim (Bool-cases (connection_failure rc).1) [
    | inl e ↦ rw e (connect-Connected s)
    | inr e ↦ rw e (record { ops = refl; ready = refl; giving = refl; next = refl })
  ]

  pub connected : (s : Admin C) → Connected s (maintain_coord_connection env s).2
  unfolding maintain_coord_connection
  connected s =
      let (rc, x) = env.ensure s.net in
      let v = connect_after-Connected rc (record s { net = x }) in
      record { ops = v.ops; ready = v.ready; giving = v.giving; next = v.next }

  -- What a round of `loop` does to the operations of an id.
  pub record Balanced (i : ℕ) (s : Admin C) (r : Round Result × Admin C) : Type 0 where
    pub balance : outstanding i s ≡ returned i r.0 + outstanding i r.1
    pub next : r.1.next_admin_id ≡ s.next_admin_id

  pub same-Balanced : (i : ℕ) (s : Admin C) → Balanced i s (again, s)
  same-Balanced i s = record { balance = omega arith; next = refl }

  pub answered-Balanced :
      (i lid : ℕ) (o : Option Op) (code : Code) (s : Admin C)
      → s.yielding ≡ none
      → lookup lid s.coord_ops ≡ o
      → Balanced i s (answer_round env o lid code s)
  answered-Balanced i lid none code s e h = same-Balanced i s
  answered-Balanced i lid (some op) code s e h = record {
    balance = omega (arith, ap (in_option i) e, in_map-erase i lid op s.coord_ops h);
    next = refl;
  }

  pub ended-Balanced :
      (i : ℕ) (lid : Option ℕ) (lrc : Replicant) (code : Code) (s : Admin C)
      → s.yielding ≡ none
      → Balanced i s (ended_round env lid lrc code s)
  ended-Balanced i none lrc code s e = elim (Bool-cases (is_timeout env lrc)) [
    | inl z ↦ rw z (same-Balanced i s)
    | inr z ↦ rw z (record { balance = omega arith; next = refl })
  ]
  ended-Balanced i (some lid) lrc code s e =
      answered-Balanced i lid (lookup lid s.coord_ops) code s e refl

  pub event-Balanced : (i : ℕ) (e : Event) (s : Admin C) → Balanced i s (event_round env e s)
  event-Balanced i external s = record { balance = omega arith; next = refl }
  event-Balanced i stray s = same-Balanced i s
  event-Balanced i idle s = record { balance = omega arith; next = refl }
  event-Balanced i signal s = record { balance = omega arith; next = refl }
  event-Balanced i poll_error s = record { balance = omega arith; next = refl }

  pub network-Balanced :
      (i : ℕ) (r : Code × Bool × Admin C)
      → r.2.yielding ≡ none
      → Balanced i r.2 (network_round env r)
  network-Balanced i (code, false, s) e = record { balance = omega arith; next = refl }
  network-Balanced i (code, true, s) e =
      let (lid, lrc, rc, bytes, x) = env.loop s.net in
      let (ev, y) = env.recv s.net in
      let v =
        ended-Balanced i lid lrc (response_status env rc bytes)
          (record s { net = x; handle_coord_ops = false }) e in
      let w = event-Balanced i ev (record s { net = y }) in
      elim s.handle_coord_ops
        as (λ b. Balanced i s (if b then coord_round env s else recv_round env s)) [
          | true ↦ record { balance = v.balance; next = v.next }
          | false ↦ record { balance = w.balance; next = w.next }
        ]

  pub round-Balanced :
      (i : ℕ) (o : Option Op) (l : List Op) (s : Admin C)
      → s.yielding ≡ o
      → s.yieldable ≡ l
      → Balanced i s (loop_round_at env o l s)
  unfolding loop_round_at
  round-Balanced i (some op) l s e h = elim (Bool-cases op.done) [
    | inl z ↦
        let p : holds i op ≡ 0 = rw z refl in
        rw z (record { balance = omega (arith, ap (in_option i) e, p); next = refl })
    | inr z ↦
        let p : holds i op ≡ given i (gives op.id) = rw z refl in
        rw z (record { balance = omega (arith, ap (in_option i) e, p); next = refl })
  ]
  round-Balanced i none (op ∷ l) s e h = record {
    balance = omega (arith, ap (in_option i) e, ap (in_list i) h);
    next = refl;
  }
  round-Balanced i none [] s e h = elim (Bool-cases (is_empty s.coord_ops)) [
    | inl z ↦ rw z (record { balance = omega arith; next = refl })
    | inr z ↦
        let v = connected s in
        let w = network-Balanced i (maintain_coord_connection env s) (v.giving ∙ e) in
        rw z (record {
          balance = omega (
            arith,
            w.balance,
            ap (in_map i) v.ops,
            ap (in_list i) v.ready,
            ap (in_option i) v.giving,
          );
          next = w.next ∙ v.next;
        })
  ]
