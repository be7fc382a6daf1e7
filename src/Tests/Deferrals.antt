-- ===== src/Tests/Deferrals.antt =====
-- Two writes of a file at offset 4: the second one comes while the first has messages on their way, or
-- after its put has succeeded.
use wtf.Prelude.{◌≡◌, refl, arith, false, true, false, [], ◌∷◌}
use wtf.Codec.{padded}
use wtf.Client.File.{File}
use wtf.Client.Deferred.{
  no_writes, write_at, handle_hyperdex_message, do_op, try_op, run_next, answer_to, Writes, Steps,
  stop, step, write, starts_at,
}
use wtf.Client.Deferred.Alone.{alone_in_flight}
use wtf.Client.Deferred.Stuck.{never_started}

abbrev small : File
small = record { block_map = []; offset = 0; replicas = 1; block_size = 8 }

-- The first write, and both.
abbrev one_write : Writes
one_write = write_at padded 0 4 (no_writes small)

abbrev two_writes : Writes
two_writes = write_at padded 1 4 one_write

-- The first write ends before the second one comes.
abbrev ended_first : Writes
ended_first = handle_hyperdex_message padded 0 true one_write

abbrev too_late : Writes
too_late = write_at padded 1 4 ended_first

two_writes-Steps : Steps padded (no_writes small) two_writes
unfolding write_at try_op do_op
two_writes-Steps = step (step stop (write 0 4 refl)) (write 1 4 refl)

alone_in_flight_example : two_writes.in_flight 1 ≡ false
unfolding write_at try_op do_op
alone_in_flight_example =
    alone_in_flight padded small two_writes 0 1 _ _ two_writes-Steps refl refl refl refl
      (omega arith)

never_started_example : starts_at 4 too_late.started ≡ 0 ∷ []
unfolding write_at try_op do_op handle_hyperdex_message answer_to run_next
never_started_example =
    never_started padded small one_write too_late 0 _ (step stop (write 0 4 refl)) refl refl refl
      refl (step stop (write 1 4 refl))
