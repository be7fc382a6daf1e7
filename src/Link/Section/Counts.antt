-- ===== src/Link/Section/Counts.antt =====
-- The invariant of the section, by counts over its threads, and an attempt to enter.
use wtf.Prelude.{
  ℕ, zero, suc, ◌+◌, ◌<◌, ◌≤◌, ◌≡◌, refl, ap, Bool, true, false, some, List, [], ◌∷◌, ◌++◌,
  if◌then◌else◌, ◌⊎◌, inl, inr, length, arith, word, add64_exact, get_elem?,
}
use wtf.Link.Section.{
  Phase, outside, asleep, woken, inside, Section, attempt_where, place, count, is_asleep, is_woken,
  is_inside,
}

-- The threads that `m_waiting` counts: those in `m_cond.wait`.
abbrev pub waiters : List Phase → ℕ
waiters l = count is_asleep l + count is_woken l

-- All threads fit the counter, it counts those that wait, the lock tells whether one is inside, and the
-- thread to kill is inside and can be killed.
pub record Core (s : Section) : Type 0 where
  pub few : length s.threads < word
  pub counted : s.waiting ≡ waiters s.threads
  pub one : count is_inside s.threads ≡ (if s.locked then 1 else 0)
  pub kills : s.kill ≡ true → get_elem? s.to_kill s.threads ≡ some (inside true)

-- Besides, where nobody holds the section and a thread waits, one has woken.
pub record Inv (s : Section) : Type 0 where
  pub core : Core s
  pub awake : s.locked ≡ false → 0 < s.waiting → 0 < count is_woken s.threads

pub count-append :
    (f : Phase → ℕ) (b : List Phase) (p : Phase) (a : List Phase)
    → count f (b ++ p ∷ a) ≡ f p + (count f b + count f a)
count-append f [] p a = omega arith
count-append f (q ∷ b) p a = omega (arith, count-append f b p a)

pub waiters-le : (l : List Phase) → waiters l ≤ length l
waiters-le [] = omega arith
waiters-le (outside ∷ l) = omega (arith, waiters-le l)
waiters-le (asleep k ∷ l) = omega (arith, waiters-le l)
waiters-le (woken k ∷ l) = omega (arith, waiters-le l)
waiters-le (inside k ∷ l) = omega (arith, waiters-le l)

pub length-same :
    (b : List Phase) (p q : Phase) (a : List Phase) → length (b ++ p ∷ a) ≡ length (b ++ q ∷ a)
length-same [] p q a = refl
length-same (r ∷ b) p q a = ap suc (length-same b p q a)

-- What stands at a place does not change where it is not what the thread was.
pub elsewhere :
    (b : List Phase) (p q r : Phase) (a : List Phase) (i : ℕ)
    → get_elem? i (b ++ p ∷ a) ≡ some r
    → ((p ≡ r) × (i ≡ length b)) ⊎ (get_elem? i (b ++ q ∷ a) ≡ some r)
elsewhere [] p q r a zero e = inl (cc, refl)
elsewhere [] p q r a (suc i) e = inr e
elsewhere (x ∷ b) p q r a zero e = inr e
elsewhere (x ∷ b) p q r a (suc i) e = elim (elsewhere b p q r a i e) [
  | inl (d, h) ↦ inl (d, ap suc h)
  | inr h ↦ inr h
]

pub here :
    (b : List Phase) (p : Phase) (a : List Phase) → get_elem? (length b) (b ++ p ∷ a) ≡ some p
here [] p a = refl
here (x ∷ b) p a = here b p a

-- The others, of a thread between `b` and `a`.
abbrev pub others : (Phase → ℕ) → List Phase → List Phase → ℕ
others f b a = count f b + count f a

abbrev pub number : Bool → ℕ
number b = if b then 1 else 0

pub entered :
    (k : Bool) (b a : List Phase) (s : Section)
    → (s.kill ≡ true → (q : Phase) → get_elem? s.to_kill (b ++ q ∷ a) ≡ some (inside true))
    → (if k then true else s.kill) ≡ true
    → get_elem? (if k then length b else s.to_kill) (b ++ inside k ∷ a) ≡ some (inside true)
entered true b a s kills f = here b (inside true) a
entered false b a s kills f = kills f (inside false)

pub attempt_where-Inv :
    (locked k : Bool) (b a : List Phase) (s : Section)
    → s.locked ≡ locked
    → ((q : Phase) → length (b ++ q ∷ a) < word)
    → s.waiting ≡ others is_asleep b a + others is_woken b a
    → others is_inside b a ≡ (if locked then 1 else 0)
    → (s.kill ≡ true → (q : Phase) → get_elem? s.to_kill (b ++ q ∷ a) ≡ some (inside true))
    → Inv (place b (attempt_where locked k (length b) s) a)
unfolding attempt_where
attempt_where-Inv true k b a s e few counted one kills =
    let q = asleep k in
    let n = count-append is_asleep b q a in
    let m = count-append is_woken b q a in
    let h = waiters-le (b ++ q ∷ a) in
    record {
      core = record {
        few = few q;
        counted = omega (
          arith,
          n,
          m,
          counted,
          add64_exact s.waiting 1 (omega (arith, n, m, counted, h, few q)),
        );
        one = omega (arith, count-append is_inside b q a, one, ap number e);
        kills = λ f. kills f q;
      };
      awake = λ f. absurd (cc);
    }
attempt_where-Inv false k b a s e few counted one kills =
    let q = inside k in
    let n = count-append is_asleep b q a in
    let m = count-append is_woken b q a in
    record {
      core = record {
        few = few q;
        counted = omega (arith, n, m, counted);
        one = omega (arith, count-append is_inside b q a, one);
        kills = entered k b a s kills;
      };
      awake = λ f. absurd (cc);
    }
