-- ===== src/Admin/Once.antt =====
-- That `loop` gives back the id of each call at most once.
use wtf.Prelude.{
  ℕ, suc, ◌+◌, ◌≤◌, ◌<◌, ◌≡◌, refl, ap, ◌∙◌, Bool, true, false, Option, none, some, List, [], ◌∷◌,
  ◌++◌, ltb, if◌then◌else◌, arith, add64, add64_exact, ◌^◌, Bool-cases, inl, inr, ◌⊎◌,
}
use wtf.OrdMap.{lookup}
use wtf.Admin.{
  ok, Op, Admin, Replicant, Code, sent, Net, Result, gives, fails, Round, return, again, Request,
  call_coordinator, dump_config, maintain_coord_connection, loop_round, new_admin,
}
use wtf.Admin.Outstanding.{
  in_map, in_list, in_option, outstanding, in_map-assign, in_list-push, given, returned,
}
use wtf.Admin.Rounds.{Connected, connected, round-Balanced}

module _ {C : Type 0} (env : Net C) where
  -- The coordinator link gives no id that is in use.
  abbrev pub Fresh : Request → Admin C → Type 0
  Fresh r s =
      (cid : ℕ)
      → (env.call r (maintain_coord_connection env s).2.net).0 ≡ some cid
      → lookup cid s.coord_ops ≡ none

  -- The next id is below the largest int64_t, so that it can be increased.
  abbrev pub HasId : Admin C → Type 0
  HasId s = suc s.next_admin_id < 2 ^ 63

  next_id :
      (s t : Admin C) → Connected env s t → HasId s → add64 t.next_admin_id 1 ≡ suc t.next_admin_id
  next_id s t v h = add64_suc t.next_admin_id (omega (arith, h, v.next))
    where
      add64_suc : (n : ℕ) → suc n < 2 ^ 63 → add64 n 1 ≡ suc n
      add64_suc n h = omega (arith, add64_exact n 1 (omega arith))

  -- What a call does to the operations of an id, and the id that it may give.
  pub record Called (i : ℕ) (s : Admin C) (r : Result × Admin C) : Type 0 where
    pub balance : outstanding i r.1 ≡ given i r.0 + outstanding i s
    pub low : s.next_admin_id ≤ r.1.next_admin_id
    pub fresh : i < s.next_admin_id → given i r.0 ≡ 0
    pub old : r.1.next_admin_id ≤ i → given i r.0 ≡ 0
    pub once : given i r.0 ≤ 1

  unchanged : (i : ℕ) (code : Code) (s t : Admin C) → Connected env s t → Called i s (fails code, t)
  unchanged i code s t v = record {
    balance = omega (arith, ap (in_map i) v.ops, ap (in_list i) v.ready, ap (in_option i) v.giving);
    low = omega (arith, v.next);
    fresh = λ h. refl;
    old = λ h. refl;
    once = omega arith;
  }

  -- An id that is given: the next one.
  not_yet : (i n : ℕ) → i < n → given i (gives n) ≡ 0
  not_yet i n h = ground arith

  no_more : (i n : ℕ) → suc n ≤ i → given i (gives n) ≡ 0
  no_more i n h = ground arith

  one_at_most : (i n : ℕ) → given i (gives n) ≤ 1
  one_at_most i n = ground arith

  abbrev new_op : ℕ → Op
  new_op n = record { id = n; status = ok; done = false }

  sent-Called :
      (i : ℕ) (cid : Option ℕ) (rc : Replicant) (x : C) (s t : Admin C)
      → Connected env s t
      → HasId s
      → ((k : ℕ) → cid ≡ some k → lookup k t.coord_ops ≡ none)
      → Called i s (
          sent env cid rc
            (new_op t.next_admin_id)
            (record t { net = x; next_admin_id = add64 t.next_admin_id 1 }))
  sent-Called i none rc x s t v room free = record {
    balance = omega (arith, ap (in_map i) v.ops, ap (in_list i) v.ready, ap (in_option i) v.giving);
    low = omega (arith, v.next, next_id s t v room);
    fresh = λ h. refl;
    old = λ h. refl;
    once = omega arith;
  }
  sent-Called i (some k) rc x s t v room free = record {
    balance = omega (
      arith,
      in_map-assign i k (new_op t.next_admin_id) t.coord_ops (free k refl),
      ap (in_map i) v.ops,
      ap (in_list i) v.ready,
      ap (in_option i) v.giving,
    );
    low = omega (arith, v.next, next_id s t v room);
    fresh = λ h. not_yet i t.next_admin_id (omega (arith, h, v.next));
    old = λ h. no_more i t.next_admin_id (omega (arith, h, next_id s t v room));
    once = one_at_most i t.next_admin_id;
  }

  call-Called :
      (i : ℕ) (r : Request) (s : Admin C)
      → HasId s
      → Fresh r s
      → Called i s (call_coordinator env r s)
  unfolding call_coordinator
  call-Called i r s room free =
      let (code, b, t) = maintain_coord_connection env s in
      let (cid, rc, x) = env.call r t.net in
      let v = connected env s in
      let w = sent-Called i cid rc x s t v room (λ k e. ap (lookup k) v.ops ∙ free k e) in
      elim b
        as (λ (b : Bool). Called i s (
          if b
          then sent env cid rc (new_op t.next_admin_id)
              (record t { net = x; next_admin_id = add64 t.next_admin_id 1 })
          else (fails code, t))) [ true ↦ w | false ↦ unchanged i code s t v ]

  dump-Called : (i : ℕ) (s : Admin C) → HasId s → Called i s (dump_config env s)
  unfolding dump_config
  dump-Called i s room =
      let (code, b, t) = maintain_coord_connection env s in
      let v = connected env s in
      let op = new_op t.next_admin_id in
      elim b
        as (λ (b : Bool). Called i s (
          if b
          then (
            gives t.next_admin_id,
            record t {
              next_admin_id = add64 t.next_admin_id 1;
              yieldable = t.yieldable ++ (op ∷ []);
            },
          )
          else (fails code, t))) [
            | true ↦ record {
              balance = omega (
                arith,
                in_list-push i op t.yieldable,
                ap (in_map i) v.ops,
                ap (in_list i) v.ready,
                ap (in_option i) v.giving,
              );
              low = omega (arith, v.next, next_id s t v room);
              fresh = λ h. not_yet i t.next_admin_id (omega (arith, h, v.next));
              old = λ h. no_more i t.next_admin_id (omega (arith, h, next_id s t v room));
              once = one_at_most i t.next_admin_id;
            }
            | false ↦ unchanged i code s t v
          ]

  abbrev pub times : ℕ → List Result → ℕ
  times i [] = 0
  times i (r ∷ l) = given i r + times i l

  abbrev pub with_round : Round Result → List Result → List Result
  with_round (return r) l = r ∷ l
  with_round again l = l

  -- The results of the calls and of `loop`, newest first, up to a state that they lead to, from a new
  -- library; `loop` is taken round by round.
  pub data Run : List Result → List Result → Admin C → Type 0 where
    start : (x : C) → Run [] [] (new_admin x)
    called :
        {g d : List Result} {s : Admin C} (r : Request)
        → Fresh r s
        → HasId s
        → Run g d s
        → Run ((call_coordinator env r s).0 ∷ g) d (call_coordinator env r s).1
    dumped :
        {g d : List Result} {s : Admin C}
        → HasId s
        → Run g d s
        → Run ((dump_config env s).0 ∷ g) d (dump_config env s).1
    looped :
        {g d : List Result} {s : Admin C}
        → Run g d s
        → Run g (with_round (loop_round env s).0 d) (loop_round env s).1

  -- What was given to the caller is outstanding, or was returned by `loop`.
  record Ledger (i : ℕ) (g d : List Result) (s : Admin C) : Type 0 where
    balance : times i g ≡ times i d + outstanding i s
    unused : s.next_admin_id ≤ i → times i g ≡ 0
    once : times i g ≤ 1

  made-Ledger :
      (i : ℕ) (g d : List Result) (s : Admin C) (r : Result × Admin C)
      → Called i s r
      → Ledger i g d s
      → Ledger i (r.0 ∷ g) d r.1
  made-Ledger i g d s r c v = record {
    balance = omega (arith, c.balance, v.balance);
    unused = λ h. omega (arith, c.old h, v.unused (omega (arith, h, c.low)));
    once = at_most (le_total i s.next_admin_id);
  }
    where
      le_total : (a b : ℕ) → (a < b) ⊎ (b ≤ a)
      le_total a b = elim (Bool-cases (ltb a b)) [
        | inl e ↦ inl (ground (arith, e))
        | inr e ↦ inr (ground (arith, e))
      ]

      at_most : (i < s.next_admin_id) ⊎ (s.next_admin_id ≤ i) → times i (r.0 ∷ g) ≤ 1
      at_most (inl h) = omega (arith, c.fresh h, v.once)
      at_most (inr h) = omega (arith, c.once, v.unused h)

  times-round :
      (i : ℕ) (r : Round Result) (d : List Result)
      → times i (with_round r d) ≡ returned i r + times i d
  times-round i (return r) d = refl
  times-round i again d = omega arith

  run-Ledger : (i : ℕ) (g d : List Result) (s : Admin C) → Run g d s → Ledger i g d s
  run-Ledger i _ _ _ (start x) = record { balance = refl; unused = λ h. refl; once = omega arith }
  run-Ledger i _ _ _ (called {g} {d} {s} r free room w) =
      made-Ledger i g d s (call_coordinator env r s) (call-Called i r s room free)
        (run-Ledger i g d s w)
  run-Ledger i _ _ _ (dumped {g} {d} {s} room w) =
      made-Ledger i g d s (dump_config env s) (dump-Called i s room) (run-Ledger i g d s w)
  run-Ledger i _ _ _ (looped {g} {d} {s} w) =
      let v = run-Ledger i g d s w in
      let b = round-Balanced env i s.yielding s.yieldable s refl refl in
      record {
        balance = omega (arith, v.balance, b.balance, times-round i (loop_round env s).0 d);
        unused = λ h. v.unused (omega (arith, h, b.next));
        once = v.once;
      }

  -- Whatever calls are made while the next id is below 2 ^ 63 - 1, and whatever comes of them, if the
  -- coordinator link gives no id that is in use: each id was given to the caller at most once, and as often as `loop` has given it back and an
  -- operation with that id is outstanding, together.
  pub given_back_once :
      (i : ℕ) (g d : List Result) (s : Admin C)
      → Run g d s
      → (times i g ≤ 1) × (times i g ≡ times i d + outstanding i s)
  given_back_once i g d s w = let v = run-Ledger i g d s w in (v.once, v.balance)
