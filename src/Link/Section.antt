-- ===== src/Link/Section.antt =====
-- daemon/coordinator_link_wrapper.cc: the critical section of the link, which one thread holds through a
-- round of `maintain_link` and can be interrupted there. The mutex makes each stretch between two waits
-- one step.
mod Counts
mod Steps
pub mod Exclusive
use wtf.Prelude.{
  ℕ, zero, suc, ◌+◌, Bool, true, false, Option, none, some, List, [], ◌∷◌, ◌++◌, ltb, if◌then◌else◌,
  ◌≡◌, length, add64, sub64,
}

-- Where a thread is: outside, in `m_cond.wait` and asleep or woken, or in the section; and whether it
-- entered, or enters, by `enter_critical_section_killable`.
pub data Phase : Type 0 where
  outside : Phase
  asleep woken inside : (killable : Bool) → Phase

-- The members of the link that the section uses, and the threads; a thread is its place in the list.
pub record Section : Type 0 where
  pub locked : Bool
  pub kill : Bool
  pub to_kill : ℕ
  pub waiting : ℕ
  pub threads : List Phase

-- `coordinator_link_wrapper::coordinator_link_wrapper`, with a number of threads
abbrev pub all_outside : ℕ → List Phase
all_outside zero = []
all_outside (suc n) = outside ∷ all_outside n

abbrev pub new_section : ℕ → Section
new_section n = record {
  locked = false;
  kill = false;
  to_kill = 0;
  waiting = 0;
  threads = all_outside n;
}

-- `enter_critical_section` and `enter_critical_section_killable`, up to the wait or to the end: the
-- thread's phase, and the members. (The signal that goes to `m_to_kill` changes no member.)
unfoldable pub attempt_where : Bool → Bool → ℕ → Section → Phase × Section
attempt_where true killable me s = (asleep killable, record s { waiting = add64 s.waiting 1 })
attempt_where false killable me s = (
  inside killable,
  record s {
    locked = true;
    kill = if killable then true else s.kill;
    to_kill = if killable then me else s.to_kill;
  },
)

abbrev pub attempt : Bool → ℕ → Section → Phase × Section
attempt killable me s = attempt_where s.locked killable me s

-- `exit_critical_section` and `exit_critical_section_killable`, but for the signal
unfoldable pub release : Bool → Section → Section
release killable s = record s { locked = false; kill = if killable then false else s.kill }

-- The thread between the others, after `attempt`.
abbrev pub place : List Phase → Phase × Section → List Phase → Section
place b r a = record r.1 { threads = b ++ r.0 ∷ a }

abbrev pub count : (Phase → ℕ) → List Phase → ℕ
count f [] = 0
count f (p ∷ l) = f p + count f l

abbrev pub is_asleep : Phase → ℕ
is_asleep (asleep k) = 1
is_asleep _ = 0

abbrev pub is_woken : Phase → ℕ
is_woken (woken k) = 1
is_woken _ = 0

abbrev pub is_inside : Phase → ℕ
is_inside (inside k) = 1
is_inside _ = 0

-- `m_cond.signal`: it wakes a thread that is asleep, if there is one.
pub data Signal (l : List Phase) : List Phase → Type 0 where
  wakes_one : (b a : List Phase) (k : Bool) → l ≡ b ++ asleep k ∷ a → Signal l (b ++ woken k ∷ a)
  wakes_none : count is_asleep l ≡ 0 → Signal l l

-- One step of one thread, with those before and behind it in the list. A thread that sleeps may wake
-- with no signal; one that has woken counts itself out and tries again.
pub data Step (s : Section) : Section → Type 0 where
  enter :
      (b a : List Phase) (k : Bool)
      → s.threads ≡ b ++ outside ∷ a
      → Step s (place b (attempt k (length b) s) a)
  wake :
      (b a : List Phase) (k : Bool)
      → s.threads ≡ b ++ asleep k ∷ a
      → Step s (record s { threads = b ++ woken k ∷ a })
  retry :
      (b a : List Phase) (k : Bool)
      → s.threads ≡ b ++ woken k ∷ a
      → Step s (place b (attempt k (length b) (record s { waiting = sub64 s.waiting 1 })) a)
  exit_signal :
      (b a l : List Phase) (k : Bool)
      → s.threads ≡ b ++ inside k ∷ a
      → ltb 0 s.waiting ≡ true
      → Signal (b ++ outside ∷ a) l
      → Step s (record (release k s) { threads = l })
  exit_quiet :
      (b a : List Phase) (k : Bool)
      → s.threads ≡ b ++ inside k ∷ a
      → ltb 0 s.waiting ≡ false
      → Step s (record (release k s) { threads = b ++ outside ∷ a })

-- The sections that come from a new one with `n` threads.
pub data Reached (n : ℕ) : Section → Type 0 where
  start : Reached n (new_section n)
  next : {s t : Section} → Reached n s → Step s t → Reached n t
