-- ===== src/Link/Section/Steps.antt =====
-- Every step of a thread keeps the invariant of the section.
use wtf.Prelude.{
  ◌+◌, ◌<◌, ◌≤◌, ◌≡◌, ◌≢◌, refl, sym, ap, ◌∙◌, Bool, true, false, some, List, ◌∷◌, ◌++◌, ltb,
  if◌then◌else◌, inl, inr, length, arith, word, sub64, sub64_exact, get_elem?,
}
use wtf.Link.Section.{
  Phase, outside, asleep, woken, inside, Section, attempt, release, place, count, is_asleep,
  is_woken, is_inside, Signal, wakes_one, wakes_none, Step, enter, wake, retry, exit_signal,
  exit_quiet,
}
use wtf.Link.Section.Counts.{
  waiters, Core, Inv, count-append, waiters-le, length-same, elsewhere, others, number,
  attempt_where-Inv,
}

-- Of a thread that is not in the section: what stands at the place of the one that can be killed.
pub outsider :
    (p : Phase) (b a : List Phase) (s : Section)
    → Core s
    → s.threads ≡ b ++ p ∷ a
    → p ≢ inside true
    → s.kill ≡ true
    → (q : Phase) → get_elem? s.to_kill (b ++ q ∷ a) ≡ some (inside true)
outsider p b a s v e ne f q =
    elim (elsewhere b p q (inside true) a s.to_kill
      (ap (λ l. get_elem? s.to_kill l) (sym e) ∙ v.kills f)) [
        | inl (d, h) ↦ absurd (ne d)
        | inr h ↦ h
      ]

pub few_threads :
    (p q : Phase) (b a : List Phase) (s : Section)
    → Core s
    → s.threads ≡ b ++ p ∷ a
    → length (b ++ q ∷ a) < word
few_threads p q b a s v e = omega (arith, v.few, ap length e, length-same b p q a)

-- The counts over the threads, of which one is `p`.
pub counts :
    (p : Phase) (b a : List Phase) (s : Section)
    → Core s
    → s.threads ≡ b ++ p ∷ a
    → (s.waiting ≡ is_asleep p + is_woken p + (others is_asleep b a + others is_woken b a))
      × (is_inside p + others is_inside b a ≡ number s.locked)
      × (s.waiting < word)
counts p b a s v e = (
  omega (arith, v.counted, ap waiters e, count-append is_asleep b p a, count-append is_woken b p a),
  omega (arith, v.one, ap (count is_inside) e, count-append is_inside b p a),
  omega (arith, v.counted, waiters-le s.threads, v.few),
)

pub enter-Inv :
    (b a : List Phase) (k : Bool) (s : Section)
    → s.threads ≡ b ++ outside ∷ a
    → Inv s
    → Inv (place b (attempt k (length b) s) a)
enter-Inv b a k s e v =
    let (n, m, w) = counts outside b a s v.core e in
    attempt_where-Inv s.locked k b a s refl (λ q. few_threads outside q b a s v.core e)
      (omega (arith, n)) (omega (arith, m)) (λ f q. outsider outside b a s v.core e (λ d. cc) f q)

pub retry-Inv :
    (b a : List Phase) (k : Bool) (s : Section)
    → s.threads ≡ b ++ woken k ∷ a
    → Inv s
    → Inv (place b (attempt k (length b) (record s { waiting = sub64 s.waiting 1 })) a)
retry-Inv b a k s e v =
    let (n, m, w) = counts (woken k) b a s v.core e in
    attempt_where-Inv s.locked k b a (record s { waiting = sub64 s.waiting 1 }) refl
      (λ q. few_threads (woken k) q b a s v.core e)
      (omega (arith, n, sub64_exact s.waiting 1 (omega (arith, n)) w)) (omega (arith, m))
      (λ f q. outsider (woken k) b a s v.core e (λ d. cc) f q)

pub wake-Inv :
    (b a : List Phase) (k : Bool) (s : Section)
    → s.threads ≡ b ++ asleep k ∷ a
    → Core s
    → Inv (record s { threads = b ++ woken k ∷ a })
wake-Inv b a k s e v =
    let (n, m, w) = counts (asleep k) b a s v e in
    let q = woken k in
    let y = count-append is_woken b q a in
    record {
      core = record {
        few = few_threads (asleep k) q b a s v e;
        counted = omega (arith, n, count-append is_asleep b q a, y);
        one = omega (arith, m, count-append is_inside b q a);
        kills = λ f. outsider (asleep k) b a s v e (λ d. cc) f q;
      };
      awake = λ f g. omega (arith, y);
    }

-- After the section is left, but for the signal.
pub released :
    (k : Bool) (b a : List Phase) (s : Section)
    → Core s
    → s.threads ≡ b ++ inside k ∷ a
    → (if k then false else s.kill) ≡ true
    → get_elem? s.to_kill (b ++ outside ∷ a) ≡ some (inside true)
released true b a s v e f = absurd (cc)
released false b a s v e f = outsider (inside false) b a s v e (λ d. cc) f outside

pub number_le : (t : Bool) → number t ≤ 1
number_le true = omega arith
number_le false = omega arith

pub release-Core :
    (b a : List Phase) (k : Bool) (s : Section)
    → s.threads ≡ b ++ inside k ∷ a
    → Core s
    → Core (record (release k s) { threads = b ++ outside ∷ a })
unfolding release
release-Core b a k s e v =
    let (n, m, w) = counts (inside k) b a s v e in
    record {
      few = few_threads (inside k) outside b a s v e;
      counted =
          omega (arith, n, count-append is_asleep b outside a, count-append is_woken b outside a);
      one = omega (arith, m, number_le s.locked, count-append is_inside b outside a);
      kills = released k b a s v e;
    }

pub exit_quiet-Inv :
    (b a : List Phase) (k : Bool) (s : Section)
    → s.threads ≡ b ++ inside k ∷ a
    → ltb 0 s.waiting ≡ false
    → Inv s
    → Inv (record (release k s) { threads = b ++ outside ∷ a })
unfolding release
exit_quiet-Inv b a k s e z v = record {
  core = release-Core b a k s e v.core;
  awake = λ f g. ground (arith, z, g);
}

pub signalled_exit-Inv :
    (b a l : List Phase) (k : Bool) (s : Section)
    → s.threads ≡ b ++ inside k ∷ a
    → Signal (b ++ outside ∷ a) l
    → Inv s
    → Inv (record (release k s) { threads = l })
unfolding release
signalled_exit-Inv b a _ k s e (wakes_one b' a' k' e') v =
    let c = release-Core b a k s e v.core in
    let w = wake-Inv b' a' k' (record (release k s) { threads = b ++ outside ∷ a }) e' c in
    record { core = w.core; awake = w.awake }
signalled_exit-Inv b a _ k s e (wakes_none z) v =
    let c = release-Core b a k s e v.core in
    record { core = c; awake = λ f g. omega (arith, c.counted, z, g) }

pub Step-Inv : (s t : Section) → Step s t → Inv s → Inv t
Step-Inv s _ (enter b a k e) v = enter-Inv b a k s e v
Step-Inv s _ (wake b a k e) v = wake-Inv b a k s e v.core
Step-Inv s _ (retry b a k e) v = retry-Inv b a k s e v
Step-Inv s _ (exit_signal b a l k e z g) v = signalled_exit-Inv b a l k s e g v
Step-Inv s _ (exit_quiet b a k e z) v = exit_quiet-Inv b a k s e z v
