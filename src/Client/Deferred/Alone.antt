-- ===== src/Client/Deferred/Alone.antt =====
-- No two writes of a file at one key have messages on their way.
use wtf.Prelude.{
  ℕ, ◌≡◌, ◌≢◌, refl, sym, ap, subst, ◌∙◌, Bool, true, false, Option, none, some, inl, inr,
  Bool-cases, Option-cases, ◌==◌,
}
use mathlib.Core.Path.{fun_ext}
use wtf.OrdMap.{OrdMap}
use wtf.Codec.{Codec}
use wtf.Client.File.{Block, File}
use wtf.Client.Deferred.{
  Op, new_op, Writes, no_writes, put, key, key_in, next_in, with_next, with_changeset, do_op,
  try_op, write_at, handle_hyperdex_message, run_next, answer_to, Step, write, answer, reply, Steps,
  stop, step,
}
use wtf.Client.Deferred.Queued.{
  Queued, put-cases, put-same, started-Queued, ended-Queued, new-Queued, last-Queued, linked-Queued,
  some_same,
}

abbrev pub keys : (ℕ → Option Op) → ℕ → Option ℕ
keys ops i = key_in (ops i)

abbrev pub nexts : (ℕ → Option Op) → ℕ → Option ℕ
nexts ops i = next_in (ops i)

-- The writes of each key stand in a queue, and one of them at most has messages on their way.
abbrev pub Inv : Writes → Type 0
Inv s = Queued (keys s.ops) (nexts s.ops) s.last_op s.in_flight

pub keys-put :
    (i : ℕ) (x : Option Op) (ops : ℕ → Option Op) → keys (put i x ops) ≡ put i (key_in x) (keys ops)
keys-put i x ops = fun_ext (λ j. at j)
  where
    at : (j : ℕ) → key_in (put i x ops j) ≡ put i (key_in x) (keys ops) j
    at j = elim (Bool-cases (i == j)) [ inl e ↦ rw e refl | inr e ↦ rw e refl ]

nexts-put :
    (i : ℕ) (x : Option Op) (ops : ℕ → Option Op)
    → nexts (put i x ops) ≡ put i (next_in x) (nexts ops)
nexts-put i x ops = fun_ext (λ j. at j)
  where
    at : (j : ℕ) → next_in (put i x ops j) ≡ put i (next_in x) (nexts ops) j
    at j = elim (Bool-cases (i == j)) [ inl e ↦ rw e refl | inr e ↦ rw e refl ]

pub put_back : (i : ℕ) (a : Option ℕ) (f : ℕ → Option ℕ) → a ≡ f i → put i a f ≡ f
put_back i a f e = fun_ext (λ j. at j)
  where
    at : (j : ℕ) → put i a f j ≡ f j
    at j = elim (put-cases i a f j) [ inl (d, g) ↦ g ∙ e ∙ ap f d | inr (d, g) ↦ g ]

-- A change to a write that leaves its key and the write behind it.
keep :
    (i : ℕ) (x : Option Op) (ops : ℕ → Option Op) (l : ℕ → Option ℕ) (f : ℕ → Bool)
    → key_in x ≡ key_in (ops i)
    → next_in x ≡ next_in (ops i)
    → Queued (keys ops) (nexts ops) l f
    → Queued (keys (put i x ops)) (nexts (put i x ops)) l f
keep i x ops l f ek en q =
    let a = keys-put i x ops ∙ put_back i (key_in x) (keys ops) ek in
    let b = nexts-put i x ops ∙ put_back i (next_in x) (nexts ops) en in
    subst (λ k. Queued k (nexts (put i x ops)) l f) (sym a)
      (subst (λ n. Queued (keys ops) n l f) (sym b) q)

module _ (c : Codec) where
  pub do_op-Inv :
      (i : ℕ) (o : Op) (l : ℕ) (s : Writes)
      → s.ops i ≡ some o
      → s.last_op (key o.offset) ≡ some l
      → ((j : ℕ) → s.in_flight j ≡ true → keys s.ops j ≡ some (key o.offset) → j ≡ i)
      → Inv s
      → Inv (do_op c i s)
  unfolding do_op
  do_op-Inv i o l s e le only q =
      let k = ap key_in e in
      let w =
        started-Queued (keys s.ops) (nexts s.ops) s.last_op s.in_flight q i (key o.offset) l k le
          only in
      rw (e, do_op)
        (keep i _ s.ops s.last_op (put i true s.in_flight) (sym k) (sym (ap next_in e)) w)

  pub link_key : (i : ℕ) (x : Option Op) → key_in (with_next i x) ≡ key_in x
  link_key i none = refl
  link_key i (some o) = refl

  link_next : (i k : ℕ) (x : Option Op) → key_in x ≡ some k → next_in (with_next i x) ≡ some i
  link_next i k none e = cc
  link_next i k (some o) e = refl

  pub try_op-Inv : (i : ℕ) (o : Op) (s : Writes) → s.ops i ≡ some o → Inv s → Inv (try_op c i s)
  unfolding try_op
  try_op-Inv i o s e q = elim (Option-cases (s.last_op (key o.offset))) [
    | inl n ↦
        let t = record s { last_op = put (key o.offset) (some i) s.last_op } in
        let w =
          last-Queued (keys s.ops) (nexts s.ops) s.last_op s.in_flight q i (key o.offset)
            (ap key_in e) in
        rw (e, try_op)
          (rw (n, try_op)
            (do_op-Inv i o i t e (put-same (key o.offset) (some i) s.last_op) (none_in_flight n) w))
    | inr (l, n) ↦
        let k = key o.offset in
        let ops = put i (some (record o { deferred = true })) s.ops in
        let a =
          keep i (some (record o { deferred = true })) s.ops s.last_op s.in_flight
            (sym (ap key_in e)) (sym (ap next_in e)) q in
        let ki : keys ops i ≡ some k =
          ap key_in (put-same i (some (record o { deferred = true })) s.ops) in
        let kl = a.last k l n in
        let b = linked-Queued (keys ops) (nexts ops) s.last_op s.in_flight a i k l ki kl in
        let d =
          subst (λ m. Queued (keys ops) m s.last_op s.in_flight)
            (sym (
              nexts-put l (with_next i (ops l)) ops
              ∙ ap (λ m. put l m (nexts ops)) (link_next i k (ops l) kl)))
            b in
        let same =
          keys-put l (with_next i (ops l)) ops
          ∙ put_back l (key_in (with_next i (ops l))) (keys ops) (link_key i (ops l)) in
        let g =
          subst (λ m. Queued m (nexts (put l (with_next i (ops l)) ops)) s.last_op s.in_flight)
            (sym same) d in
        let ops' = put l (with_next i (ops l)) ops in
        let ki' : keys ops' i ≡ some k = ap (λ (m : ℕ → Option ℕ). m i) same ∙ ki in
        rw (e, try_op)
          (rw (n, try_op) (last-Queued (keys ops') (nexts ops') s.last_op s.in_flight g i k ki'))
  ]
    where
      none_in_flight :
          s.last_op (key o.offset) ≡ none
          → (j : ℕ) → s.in_flight j ≡ true
          → keys s.ops j ≡ some (key o.offset)
          → j ≡ i
      none_in_flight n j f kj =
          let (k, l, a, b) = q.flying j f in
          let same = some_same k (key o.offset) (sym a ∙ kj) in
          let d = ap s.last_op same in absurd (cc)

  pub write_at-Inv :
      (i offset : ℕ) (s : Writes) → s.ops i ≡ none → Inv s → Inv (write_at c i offset s)
  unfolding write_at
  write_at-Inv i offset s e q =
      let x = some (new_op offset) in
      let t = record s { ops = put i x s.ops } in
      let w =
        new-Queued (keys s.ops) (nexts s.ops) s.last_op s.in_flight q i (key offset)
          (ap key_in e) in
      let v =
        subst (λ k. Queued k (nexts t.ops) s.last_op s.in_flight) (sym (keys-put i x s.ops))
          (subst (λ n. Queued (put i (some (key offset)) (keys s.ops)) n s.last_op s.in_flight)
            (sym (nexts-put i x s.ops)) w) in
      try_op-Inv i (new_op offset) t (put-same i x s.ops) v

  -- A write with messages on its way, whose put has succeeded, is not on its way any more; so none of
  -- its key is.
  pub none_left :
      (i j k : ℕ) (s : Writes)
      → Inv s
      → s.in_flight i ≡ true
      → keys s.ops i ≡ some k
      → put i false s.in_flight j ≡ true
      → keys s.ops j ≡ some k
      → ⊥
  none_left i j k s q f ki g kj = elim (put-cases i false s.in_flight j) [
    | inl (e, h) ↦ cc
    | inr (e, h) ↦
        let same = q.alone i j k f (sym h ∙ g) ki kj in
        let p = ap (λ m. put i false s.in_flight m) same in
        let z = put-same i false s.in_flight in cc
  ]

  pub known :
      (x : Option Op) (k : ℕ) → key_in x ≡ some k → (p : Op) × (x ≡ some p) × (key p.offset ≡ k)
  known none k e = absurd (cc)
  known (some p) k e = (p, refl, some_same (key p.offset) k e)

  run_next-Inv :
      (n : Option ℕ) (i : ℕ) (s : Writes)
      → nexts s.ops i ≡ n
      → s.in_flight i ≡ true
      → Inv s
      → Inv (run_next c n (record s { in_flight = put i false s.in_flight }))
  unfolding run_next
  run_next-Inv none i s e f q = ended-Queued (keys s.ops) (nexts s.ops) s.last_op s.in_flight q i
  run_next-Inv (some n) i s e f q =
      let (k, ki, kn) = q.next i n e in
      let (k', l, ki', lk) = q.flying i f in
      let (p, ep, kp) = known (s.ops n) k kn in
      let same = some_same k' k (sym ki' ∙ ki) in
      do_op-Inv n p l (record s { in_flight = put i false s.in_flight }) ep
        (ap s.last_op (kp ∙ sym same) ∙ lk)
        (λ j g kj. absurd (none_left i j k s q f ki g (kj ∙ ap some kp)))
        (ended-Queued (keys s.ops) (nexts s.ops) s.last_op s.in_flight q i)

  answer_to-Inv :
      (retry success : Bool) (o : Op) (i : ℕ) (s : Writes)
      → s.ops i ≡ some o
      → s.in_flight i ≡ true
      → Inv s
      → Inv (answer_to c retry success o i s)
  unfolding answer_to
  answer_to-Inv true success o i s e f q =
      let x = some (record o { retry = false; retried = true }) in
      let (k, l, ki, lk) = q.flying i f in
      let same = some_same k (key o.offset) (sym ki ∙ ap key_in e) in
      let w = keep i x s.ops s.last_op s.in_flight (sym (ap key_in e)) (sym (ap next_in e)) q in
      do_op-Inv i (record o { retry = false; retried = true }) l (record s { ops = put i x s.ops })
        (put-same i x s.ops) (ap s.last_op (sym same) ∙ lk)
        (λ j g kj. w.alone j i (key o.offset) g f kj (ap key_in (put-same i x s.ops))) w
  answer_to-Inv false false o i s e f q =
      keep i (some (record o { retry = true })) s.ops s.last_op s.in_flight (sym (ap key_in e))
        (sym (ap next_in e)) q
  answer_to-Inv false true o i s e f q = run_next-Inv o.next i s (ap next_in e) f q

  pub handle-Inv :
      (i : ℕ) (success : Bool) (s : Writes)
      → s.in_flight i ≡ true
      → Inv s
      → Inv (handle_hyperdex_message c i success s)
  unfolding handle_hyperdex_message
  handle-Inv i success s f q = elim (Option-cases (s.ops i)) [
    | inl e ↦ rw (e, handle_hyperdex_message) q
    | inr (o, e) ↦ rw (e, handle_hyperdex_message) (answer_to-Inv o.retry success o i s e f q)
  ]

  pub same_key : (m : OrdMap Block) (x : Option Op) → key_in (with_changeset m x) ≡ key_in x
  same_key m none = refl
  same_key m (some o) = refl

  same_next : (m : OrdMap Block) (x : Option Op) → next_in (with_changeset m x) ≡ next_in x
  same_next m none = refl
  same_next m (some o) = refl

  pub Step-Inv : (s t : Writes) → Step c s t → Inv s → Inv t
  Step-Inv s _ (write i offset e) q = write_at-Inv i offset s e q
  Step-Inv s _ (answer i success f) q = handle-Inv i success s f q
  Step-Inv s _ (reply i m f) q =
      keep i (with_changeset m (s.ops i)) s.ops s.last_op s.in_flight (same_key m (s.ops i))
        (same_next m (s.ops i)) q

  pub Steps-Inv : (s t : Writes) → Steps c s t → Inv s → Inv t
  Steps-Inv s _ stop q = q
  Steps-Inv s _ (step {t} {u} r w) q = Step-Inv t u w (Steps-Inv s t r q)

  pub no_writes-Inv : (f : File) → Inv (no_writes f)
  no_writes-Inv f = record {
    last = λ k l e. absurd (cc);
    next = λ i n e. absurd (cc);
    flying = λ i e. absurd (cc);
    alone = λ i j k e. absurd (cc);
  }

  -- Whatever writes are made on a file, and whatever answers come in whatever order, while a write has
  -- messages on their way, no other write has whose offset has the same lowest 32 bits.
  pub alone_in_flight :
      (f : File) (s : Writes) (i j : ℕ) (o p : Op)
      → Steps c (no_writes f) s
      → s.in_flight i ≡ true
      → s.ops i ≡ some o
      → s.ops j ≡ some p
      → key o.offset ≡ key p.offset
      → i ≢ j
      → s.in_flight j ≡ false
  alone_in_flight f s i j o p r a eo ep e ne = elim (Bool-cases (s.in_flight j)) [
    | inl b ↦
        let q = Steps-Inv (no_writes f) s r (no_writes-Inv f) in
        absurd (ne (q.alone i j (key p.offset) a b (ap key_in eo ∙ ap some e) (ap key_in ep)))
    | inr b ↦ b
  ]
