-- ===== src/Client/Deferred/Stuck.antt =====
-- That a write whose put has succeeded with no write behind it leaves its key without a write that could
-- start another one.
use wtf.Prelude.{
  ℕ, ◌≡◌, ◌≢◌, refl, sym, ap, ◌∙◌, Bool, true, false, Option, none, some, List, [], ◌∷◌, ◌++◌, inl,
  inr, Bool-cases, Option-cases, ◌==◌, arith,
}
use wtf.Codec.{Codec}
use wtf.Client.File.{File}
use wtf.Client.Deferred.{
  Op, new_op, Writes, no_writes, put, key, key_in, next_in, with_next, with_changeset, do_op,
  try_op, write_at, handle_hyperdex_message, run_next, answer_to, Step, write, answer, reply, Steps,
  stop, step, starts_at,
}
use wtf.Client.Deferred.Queued.{put-cases, put-same, old_key, some_same}
use wtf.Client.Deferred.Alone.{
  Inv, keys, nexts, keys-put, put_back, link_key, same_key, none_left, known, Steps-Inv,
  no_writes-Inv, handle-Inv,
}

-- The key has a last write, and none with messages on its way.
pub record Idle (k : ℕ) (s : Writes) : Type 0 where
  pub last : ℕ
  pub has_last : s.last_op k ≡ some last
  pub none_flying : (j : ℕ) → s.in_flight j ≡ true → keys s.ops j ≡ some k → ⊥

-- The key is idle still, and no write at it was started.
pub record Calm (k : ℕ) (s t : Writes) : Type 0 where
  pub idle : Idle k t
  pub same : starts_at k t.started ≡ starts_at k s.started

put_at :
    (k i m : ℕ) (f : ℕ → Option ℕ) (l : ℕ) → f k ≡ some l → (r : ℕ) × (put m (some i) f k ≡ some r)
put_at k i m f l e = elim (put-cases m (some i) f k) [
  | inl (d, g) ↦ (i, g)
  | inr (d, g) ↦ (l, g ∙ e)
]

starts_at-other :
    (k i offset : ℕ) (l : List (ℕ × ℕ))
    → key offset ≢ k
    → starts_at k (l ++ ((i, offset) ∷ [])) ≡ starts_at k l
starts_at-other k i offset [] h = elim (Bool-cases (key offset == k)) [
  | inl e ↦ absurd (h (ground (arith, e)))
  | inr e ↦ rw e refl
]
starts_at-other k i offset ((j, m) ∷ l) h = elim (Bool-cases (key m == k)) [
  | inl e ↦ rw e (ap (λ r. j ∷ r) (starts_at-other k i offset l h))
  | inr e ↦ rw e (starts_at-other k i offset l h)
]

keys-same :
    (i : ℕ) (x : Option Op) (ops : ℕ → Option Op) (j : ℕ)
    → key_in x ≡ key_in (ops i)
    → keys (put i x ops) j ≡ keys ops j
keys-same i x ops j e =
    ap (λ (m : ℕ → Option ℕ). m j) (keys-put i x ops ∙ put_back i (key_in x) (keys ops) e)

module _ (c : Codec) (k : ℕ) where
  do_op-Calm :
      (i : ℕ) (o : Op) (s : Writes)
      → s.ops i ≡ some o
      → key o.offset ≢ k
      → Idle k s
      → Calm k s (do_op c i s)
  unfolding do_op
  do_op-Calm i o s e h w =
      rw (e, do_op)
        (record {
          idle = record {
            last = w.last;
            has_last = w.has_last;
            none_flying = λ j f kj.
                let kj' = sym (keys-same i _ s.ops j (sym (ap key_in e))) ∙ kj in
                elim (put-cases i true s.in_flight j) [
                  | inl (d, g) ↦
                      h (some_same (key o.offset) k (sym (ap key_in e) ∙ ap (keys s.ops) d ∙ kj'))
                  | inr (d, g) ↦ w.none_flying j (sym g ∙ f) kj'
                ];
          };
          same = starts_at-other k i o.offset s.started h;
        })

  try_op-Calm :
      (i : ℕ) (o : Op) (s : Writes) → s.ops i ≡ some o → Idle k s → Calm k s (try_op c i s)
  unfolding try_op
  try_op-Calm i o s e w = elim (Option-cases (s.last_op (key o.offset))) [
    | inl n ↦
        let h =
          λ (d : key o.offset ≡ k). let p = ap s.last_op d in let q = w.has_last in absurd (cc) in
        let (r, p) = put_at k i (key o.offset) s.last_op w.last w.has_last in
        let t = record s { last_op = put (key o.offset) (some i) s.last_op } in
        let v =
          do_op-Calm i o t e h (record { last = r; has_last = p; none_flying = w.none_flying }) in
        rw (e, try_op) (rw (n, try_op) (record { idle = v.idle; same = v.same }))
    | inr (l, n) ↦
        let x = some (record o { deferred = true }) in
        let ops = put i x s.ops in
        let (r, p) = put_at k i (key o.offset) s.last_op w.last w.has_last in
        rw (e, try_op)
          (rw (n, try_op)
            (record {
              idle = record {
                last = r;
                has_last = p;
                none_flying = λ j f kj. w.none_flying j f (
                    sym (keys-same i x s.ops j (sym (ap key_in e)))
                    ∙ sym (keys-same l (with_next i (ops l)) ops j (link_key c i (ops l)))
                    ∙ kj);
              };
              same = refl;
            }))
  ]

  write_at-Calm :
      (i offset : ℕ) (s : Writes)
      → s.ops i ≡ none
      → Inv s
      → Idle k s
      → Calm k s (write_at c i offset s)
  unfolding write_at
  write_at-Calm i offset s e q w =
      let x = some (new_op offset) in
      let t = record s { ops = put i x s.ops } in
      let at = λ (j : ℕ). ap (λ (m : ℕ → Option ℕ). m j) (keys-put i x s.ops) in
      let v = try_op-Calm i (new_op offset) t (put-same i x s.ops) (record {
        last = w.last;
        has_last = w.has_last;
        none_flying = λ j f kj. w.none_flying j f (
            old_key (keys s.ops) (nexts s.ops) s.last_op s.in_flight q i (key offset) j k f
              (ap key_in e) (sym (at j) ∙ kj));
      }) in
      record { idle = v.idle; same = v.same }

  fewer : (i j : ℕ) (f : ℕ → Bool) → put i false f j ≡ true → f j ≡ true
  fewer i j f e = elim (put-cases i false f j) [ inl (d, g) ↦ absurd (cc) | inr (d, g) ↦ sym g ∙ e ]

  run_next-Calm :
      (n : Option ℕ) (i : ℕ) (s : Writes)
      → nexts s.ops i ≡ n
      → s.in_flight i ≡ true
      → Inv s
      → Idle k s
      → Calm k s (run_next c n (record s { in_flight = put i false s.in_flight }))
  unfolding run_next
  run_next-Calm none i s e f q w = record {
    idle = record {
      last = w.last;
      has_last = w.has_last;
      none_flying = λ j g kj. w.none_flying j (fewer i j s.in_flight g) kj;
    };
    same = refl;
  }
  run_next-Calm (some n) i s e f q w =
      let (m, ki, kn) = q.next i n e in
      let (p, ep, kp) = known c (s.ops n) m kn in
      let v =
        do_op-Calm n p (record s { in_flight = put i false s.in_flight }) ep
          (λ d. w.none_flying i f (ki ∙ ap some (sym kp ∙ d)))
          (record {
            last = w.last;
            has_last = w.has_last;
            none_flying = λ j g kj. w.none_flying j (fewer i j s.in_flight g) kj;
          }) in
      record { idle = v.idle; same = v.same }

  changed-Calm :
      (i : ℕ) (x : Option Op) (s : Writes)
      → key_in x ≡ key_in (s.ops i)
      → Idle k s
      → Idle k (record s { ops = put i x s.ops })
  changed-Calm i x s e w = record {
    last = w.last;
    has_last = w.has_last;
    none_flying = λ j g kj. w.none_flying j g (sym (keys-same i x s.ops j e) ∙ kj);
  }

  answer_to-Calm :
      (retry success : Bool) (o : Op) (i : ℕ) (s : Writes)
      → s.ops i ≡ some o
      → s.in_flight i ≡ true
      → Inv s
      → Idle k s
      → Calm k s (answer_to c retry success o i s)
  unfolding answer_to
  answer_to-Calm true success o i s e f q w =
      let o' = record o { retry = false; retried = true } in
      let v =
        do_op-Calm i o' (record s { ops = put i (some o') s.ops }) (put-same i (some o') s.ops)
          (λ d. w.none_flying i f (ap key_in e ∙ ap some d))
          (changed-Calm i (some o') s (sym (ap key_in e)) w) in
      record { idle = v.idle; same = v.same }
  answer_to-Calm false false o i s e f q w = record {
    idle = changed-Calm i (some (record o { retry = true })) s (sym (ap key_in e)) w;
    same = refl;
  }
  answer_to-Calm false true o i s e f q w = run_next-Calm o.next i s (ap next_in e) f q w

  handle-Calm :
      (i : ℕ) (success : Bool) (s : Writes)
      → s.in_flight i ≡ true
      → Inv s
      → Idle k s
      → Calm k s (handle_hyperdex_message c i success s)
  unfolding handle_hyperdex_message
  handle-Calm i success s f q w = elim (Option-cases (s.ops i)) [
    | inl e ↦ rw (e, handle_hyperdex_message) (record { idle = w; same = refl })
    | inr (o, e) ↦ rw (e, handle_hyperdex_message) (answer_to-Calm o.retry success o i s e f q w)
  ]

  Step-Calm : (s t : Writes) → Step c s t → Inv s → Idle k s → Calm k s t
  Step-Calm s _ (write i offset e) q w = write_at-Calm i offset s e q w
  Step-Calm s _ (answer i success f) q w = handle-Calm i success s f q w
  Step-Calm s _ (reply i m f) q w =
      let v = changed-Calm i (with_changeset m (s.ops i)) s (same_key c m (s.ops i)) w in
      record {
        idle = record { last = v.last; has_last = v.has_last; none_flying = v.none_flying };
        same = refl;
      }

  Steps-Calm : (s t : Writes) → Steps c s t → Inv s → Idle k s → Calm k s t
  Steps-Calm s _ stop q w = record { idle = w; same = refl }
  Steps-Calm s _ (step {t} {u} r a) q w =
      let v = Steps-Calm s t r q w in
      let x = Step-Calm t u a (Steps-Inv c s t r q) v.idle in
      record { idle = x.idle; same = x.same ∙ v.same }

module _ (c : Codec) where
  ended-Idle :
      (i : ℕ) (o : Op) (s : Writes)
      → Inv s
      → s.in_flight i ≡ true
      → s.ops i ≡ some o
      → o.retry ≡ false
      → o.next ≡ none
      → Calm (key o.offset) s (handle_hyperdex_message c i true s)
  unfolding handle_hyperdex_message answer_to run_next
  ended-Idle i o s q f e er en =
      let (k, l, ki, lk) = q.flying i f in
      let same = some_same k (key o.offset) (sym ki ∙ ap key_in e) in
      rw (e, handle_hyperdex_message)
        (rw (er, answer_to)
          (rw (en, run_next)
            (record {
              idle = record {
                last = l;
                has_last = ap s.last_op (sym same) ∙ lk;
                none_flying = λ j g kj. none_left c i j (key o.offset) s q f (ap key_in e) g kj;
              };
              same = refl;
            })))

  -- Once the put of a write has succeeded (the write not being retried) and no other write stands behind
  -- it, no write whose offset has the same lowest 32 bits is ever started again: not by this answer, nor
  -- by whatever writes and answers follow.
  pub never_started :
      (f : File) (s t : Writes) (i : ℕ) (o : Op)
      → Steps c (no_writes f) s
      → s.in_flight i ≡ true
      → s.ops i ≡ some o
      → o.retry ≡ false
      → o.next ≡ none
      → Steps c (handle_hyperdex_message c i true s) t
      → starts_at (key o.offset) t.started ≡ starts_at (key o.offset) s.started
  never_started f s t i o r a e er en u =
      let q = Steps-Inv c (no_writes f) s r (no_writes-Inv c f) in
      let w = ended-Idle i o s q a e er en in
      let v =
        Steps-Calm c (key o.offset) (handle_hyperdex_message c i true s) t u
          (handle-Inv c i true s a q) w.idle in
      v.same ∙ w.same
