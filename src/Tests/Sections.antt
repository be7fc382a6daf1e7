-- ===== src/Tests/Sections.antt =====
-- Two threads: the first holds the section as it can be killed, and leaves it to the second.
use wtf.Prelude.{◌<◌, ◌≡◌, refl, true, false, some, [], ◌∷◌, get_elem?, add64, arith}
use wtf.Link.Section.{
  outside, asleep, woken, inside, Section, attempt_where, release, count, is_inside, is_woken,
  wakes_one, enter, exit_signal, Reached, start, next,
}
use wtf.Link.Section.Exclusive.{one_inside, no_lost_signal, kills_inside}

-- The first thread is inside, and the second one waits.
abbrev held : Section
held = record {
  locked = true;
  kill = true;
  to_kill = 0;
  waiting = 1;
  threads = inside true ∷ asleep false ∷ [];
}

abbrev handed_over : Section
handed_over = record held { locked = false; kill = false; threads = outside ∷ woken false ∷ [] }

held-Reached : Reached 2 held
unfolding attempt_where add64
held-Reached =
    next (next start (enter [] (outside ∷ []) true refl)) (enter (inside true ∷ []) [] false refl)

handed_over-Reached : Reached 2 handed_over
unfolding release
handed_over-Reached =
    next held-Reached
      (exit_signal [] (asleep false ∷ []) _ true refl refl (wakes_one (outside ∷ []) [] false refl))

one_inside_example : count is_inside held.threads ≡ 1
one_inside_example = one_inside 2 held (omega arith) held-Reached

no_lost_signal_example : 0 < count is_woken handed_over.threads
no_lost_signal_example =
    no_lost_signal 2 handed_over (omega arith) handed_over-Reached refl (omega arith)

kills_inside_example : get_elem? 0 held.threads ≡ some (inside true)
kills_inside_example = kills_inside 2 held (omega arith) held-Reached refl
