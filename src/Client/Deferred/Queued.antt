-- ===== src/Client/Deferred/Queued.antt =====
-- What the queues of a file's writes keep, whatever else the writes hold.
use wtf.Prelude.{
  ℕ, ◌≡◌, refl, sym, ap, ◌∙◌, Bool, true, false, Option, none, some, arith, ◌==◌, Bool-cases, ◌⊎◌,
  inl, inr,
}
use wtf.Client.Deferred.{put}

-- Of the writes by their addresses: their keys `K`, the writes behind them `N`, the last one by key `L`,
-- and which have messages on their way, `F`. The last write of a key and the write behind another have
-- that key; a key that has messages on their way has a last write; and of one write only.
pub record Queued (K N L : ℕ → Option ℕ) (F : ℕ → Bool) : Type 0 where
  pub last : (k l : ℕ) → L k ≡ some l → K l ≡ some k
  pub next : (i n : ℕ) → N i ≡ some n → (k : ℕ) × (K i ≡ some k) × (K n ≡ some k)
  pub flying : (i : ℕ) → F i ≡ true → (k : ℕ) × (l : ℕ) × (K i ≡ some k) × (L k ≡ some l)
  pub alone : (i j k : ℕ) → F i ≡ true → F j ≡ true → K i ≡ some k → K j ≡ some k → i ≡ j

pub put-cases {ℓ} :
    {A : Type ℓ} (i : ℕ) (a : A) (f : ℕ → A) (j : ℕ)
    → ((i ≡ j) × (put i a f j ≡ a)) ⊎ (((i == j) ≡ false) × (put i a f j ≡ f j))
put-cases i a f j = elim (Bool-cases (i == j)) [
  | inl e ↦ inl (ground (arith, e), rw e refl)
  | inr e ↦ inr (e, rw e refl)
]

pub put-same {ℓ} : {A : Type ℓ} (i : ℕ) (a : A) (f : ℕ → A) → put i a f i ≡ a
put-same i a f = elim (put-cases i a f i) [
  | inl (e, h) ↦ h
  | inr (e, h) ↦ absurd (ground (arith, e))
]

pub some_same : (a b : ℕ) → some a ≡ some b → a ≡ b
some_same a b e = cc

module _ (K N L : ℕ → Option ℕ) (F : ℕ → Bool) (q : Queued K N L F) where
  -- A write that starts where no other of its key has messages on their way.
  pub started-Queued :
      (i k l : ℕ)
      → K i ≡ some k
      → L k ≡ some l
      → ((j : ℕ) → F j ≡ true → K j ≡ some k → j ≡ i)
      → Queued K N L (put i true F)
  started-Queued i k l ki lk only = record {
    last = q.last;
    next = q.next;
    flying = λ j f. elim (put-cases i true F j) [
      | inl (e, h) ↦ (k, l, ap K (sym e) ∙ ki, lk)
      | inr (e, h) ↦ q.flying j (sym h ∙ f)
    ];
    alone = λ a b m fa fb ka kb. elim (put-cases i true F a) [
      | inl (e, h) ↦ elim (put-cases i true F b) [
        | inl (d, g) ↦ sym e ∙ d
        | inr (d, g) ↦
            let same = some_same m k (sym ka ∙ ap K (sym e) ∙ ki) in
            sym e ∙ sym (only b (sym g ∙ fb) (kb ∙ ap some same))
      ]
      | inr (e, h) ↦ elim (put-cases i true F b) [
        | inl (d, g) ↦
            let same = some_same m k (sym kb ∙ ap K (sym d) ∙ ki) in
            only a (sym h ∙ fa) (ka ∙ ap some same) ∙ d
        | inr (d, g) ↦ q.alone a b m (sym h ∙ fa) (sym g ∙ fb) ka kb
      ]
    ];
  }

  still_flying : (i j : ℕ) → put i false F j ≡ true → F j ≡ true
  still_flying i j f = elim (put-cases i false F j) [
    | inl (e, h) ↦ absurd (cc)
    | inr (e, h) ↦ sym h ∙ f
  ]

  pub ended-Queued : (i : ℕ) → Queued K N L (put i false F)
  ended-Queued i = record {
    last = q.last;
    next = q.next;
    flying = λ j f. q.flying j (still_flying i j f);
    alone = λ a b m fa fb ka kb. q.alone a b m (still_flying i a fa) (still_flying i b fb) ka kb;
  }

  new_key : (i k j m : ℕ) → K i ≡ none → K j ≡ some m → put i (some k) K j ≡ some m
  new_key i k j m h kj = elim (put-cases i (some k) K j) [
    | inl (e, g) ↦ let p = ap K e in absurd (cc)
    | inr (e, g) ↦ g ∙ kj
  ]

  pub old_key : (i k j m : ℕ) → F j ≡ true → K i ≡ none → put i (some k) K j ≡ some m → K j ≡ some m
  old_key i k j m f h kj = elim (put-cases i (some k) K j) [
    | inl (e, g) ↦ let (a, b, p, r) = q.flying j f in let d = ap K e in absurd (cc)
    | inr (e, g) ↦ sym g ∙ kj
  ]

  -- A write with an address that was free.
  pub new-Queued : (i k : ℕ) → K i ≡ none → Queued (put i (some k) K) (put i none N) L F
  new-Queued i k h = record {
    last = λ m l e. new_key i k l m h (q.last m l e);
    next = λ j n e. elim (put-cases i none N j) [
      | inl (d, g) ↦ absurd (cc)
      | inr (d, g) ↦
          let (m, a, b) = q.next j n (sym g ∙ e) in (m, new_key i k j m h a, new_key i k n m h b)
    ];
    flying = λ j f. let (m, l, a, b) = q.flying j f in (m, l, new_key i k j m h a, b);
    alone = λ a b m fa fb ka kb.
        q.alone a b m fa fb (old_key i k a m fa h ka) (old_key i k b m fb h kb);
  }

  new_last : (i k m l : ℕ) → K i ≡ some k → put k (some i) L m ≡ some l → K l ≡ some m
  new_last i k m l ki e = elim (put-cases k (some i) L m) [
    | inl (d, g) ↦ let same = some_same i l (sym g ∙ e) in ap K (sym same) ∙ ki ∙ ap some d
    | inr (d, g) ↦ q.last m l (sym g ∙ e)
  ]

  has_last : (i k m l : ℕ) → L m ≡ some l → (r : ℕ) × (put k (some i) L m ≡ some r)
  has_last i k m l e = elim (put-cases k (some i) L m) [
    | inl (d, g) ↦ (i, g)
    | inr (d, g) ↦ (l, g ∙ e)
  ]

  -- A write that becomes the last one of its key.
  pub last-Queued : (i k : ℕ) → K i ≡ some k → Queued K N (put k (some i) L) F
  last-Queued i k ki = record {
    last = λ m l e. new_last i k m l ki e;
    next = q.next;
    flying =
        λ j f. let (m, l, a, b) = q.flying j f in let (r, p) = has_last i k m l b in (m, r, a, p);
    alone = q.alone;
  }

  -- A write behind another one of its key.
  pub linked-Queued : (i k l : ℕ) → K i ≡ some k → K l ≡ some k → Queued K (put l (some i) N) L F
  linked-Queued i k l ki kl = record {
    last = q.last;
    next = λ j n e. elim (put-cases l (some i) N j) [
      | inl (d, g) ↦
          let same = some_same i n (sym g ∙ e) in (k, ap K (sym d) ∙ kl, ap K (sym same) ∙ ki)
      | inr (d, g) ↦ q.next j n (sym g ∙ e)
    ];
    flying = q.flying;
    alone = q.alone;
  }
