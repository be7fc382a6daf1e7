-- ===== src/Tests/Admins.antt =====
-- A coordinator link that numbers its calls; a call, the text of the configuration, and two rounds.
use wtf.Prelude.{ℕ, suc, ◌+◌, ◌≤◌, ◌≡◌, refl, arith, add64, true, none, some, List, [], ◌∷◌}
use wtf.Admin.{
  success, stray, Net, Admin, Result, gives, read_only, call_coordinator, dump_config,
  maintain_coord_connection, loop_round, loop_round_at, new_admin,
}
use wtf.Admin.Outstanding.{outstanding}
use wtf.Admin.Once.{Run, start, called, dumped, looped, times, given_back_once}

abbrev quick : Net ℕ
quick = record {
  ensure = λ x. (none, x);
  external_fd = λ x. true;
  queued = λ x. true;
  call = λ r x. (some x, success, suc x);
  loop = λ x. (some 7, success, success, none, x);
  recv = λ x. (stray, x);
}

abbrev asked : Admin ℕ
asked = (dump_config quick (call_coordinator quick (read_only (1 ∷ [])) (new_admin 7)).1).1

abbrev yielded : Admin ℕ
yielded = (loop_round quick (loop_round quick asked).1).1

abbrev calls : List Result
calls = gives 2 ∷ gives 1 ∷ []

yielded-Run : Run quick calls (gives 2 ∷ []) yielded
unfolding call_coordinator dump_config maintain_coord_connection loop_round_at add64
yielded-Run = looped (
    looped
      (dumped (omega arith) (called (read_only (1 ∷ [])) (λ cid e. refl) (omega arith) (start 7))))

given_back_once_example :
    (times quick 2 calls ≤ 1)
    × (times quick 2 calls ≡ times quick 2 (gives 2 ∷ []) + outstanding 2 yielded)
given_back_once_example = given_back_once quick 2 calls (gives 2 ∷ []) yielded yielded-Run
