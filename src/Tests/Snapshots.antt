-- ===== src/Tests/Snapshots.antt =====
-- A coordinator with a server, a barrier that waits for it, and vectors behind their length.
use wtf.Prelude.{ℕ, zero, suc, ◌≡◌, ◌⊎◌, refl, none, some, List, [], ◌∷◌, ◌++◌, length, All, arith}
use mathlib.Core.List.{append_assoc}
use wtf.Barrier.{Barrier, initial, new_version, pass}
use wtf.Barrier.Recreated.{behind_zeros, moves-behind_zeros}
use wtf.Codec.{Bytes, Reader, ◌>>=◌, done, padded}
use wtf.Server.{assigned}
use wtf.Coordinator.{Env, Coordinator, start, generate_cached_configuration}
use wtf.Configuration.Wire.{Addresses}
use wtf.Coordinator.Snapshot.{Vectors, snapshot, recreate, recreate-snapshot}

abbrev put_all : {A : Type 0} → (A → Bytes) → List A → Bytes
put_all put [] = []
put_all put (a ∷ l) = put a ++ put_all put l

abbrev get_all : {A : Type 0} → Reader A → ℕ → Reader (List A)
get_all get zero = done []
get_all get (suc n) = get >>= λ a. get_all get n >>= λ l. done (a ∷ l)

get_all-put :
    {A : Type 0} (put : A → Bytes) (get : Reader A) (l : List A) (rest : Bytes)
    → All (λ a. (r : Bytes) → get (put a ++ r) ≡ some (a, r)) l
    → get_all get (length l) (put_all put l ++ rest) ≡ some (l, rest)
get_all-put put get [] rest h = refl
get_all-put put get (a ∷ l) rest h = simp (append_assoc, ◌>>=◌, h.0, get_all-put put get l rest h.1)

abbrev get_counted : {A : Type 0} → Reader A → Reader (List A)
get_counted get [] = none
get_counted get (n ∷ b) = get_all get n b

abbrev counted : Vectors
counted = record {
  put = λ put l. length l ∷ put_all put l;
  get = get_counted;
  get-put = λ put get l rest h k. get_all-put put get l rest h;
}

-- An address in one byte.
abbrev one_byte : Addresses ℕ
one_byte = record {
  put = λ a. a ∷ [];
  get = λ b. elim b [ [] ↦ none | a ∷ rest ↦ some (a, rest) ];
  get-put = λ a rest. refl;
}

-- A state machine library that counts the alarms.
abbrev alarms : Env ℕ
alarms = record { broadcast = λ c x. (none, x); alarm = λ x. suc x; suspect = λ i x. x }

abbrev waiting : Barrier
waiting = (4, []) ∷ (6, 9 ∷ []) ∷ []

abbrev running : Coordinator ℕ ℕ
running = record (start 0) {
  cluster = 7;
  version = 6;
  servers = record { state = assigned; id = 9; bind_to = 3 } ∷ [];
  config_ack_barrier = waiting;
}

recreate-snapshot_example :
    recreate padded counted one_byte alarms 20 (snapshot padded counted one_byte running ++ 5 ∷ [])
    ≡ some (
        generate_cached_configuration alarms (record running {
          ctx = 21;
          config_ack_barrier = (0, []) ∷ waiting;
          config_stable_barrier = (0, []) ∷ initial;
          checkpoint_stable_barrier = (0, []) ∷ initial;
        }))
recreate-snapshot_example =
    recreate-snapshot padded counted one_byte alarms 20 running (5 ∷ []) (record {
      cluster = omega arith;
      counter = omega arith;
      version = omega arith;
      flags = omega arith;
      servers = ((omega arith, tt), omega arith);
      offline = (tt, omega arith);
      config_ack_through = omega arith;
      config_ack_barrier = omega arith;
      config_stable_through = omega arith;
      config_stable_barrier = omega arith;
      checkpoint = omega arith;
      checkpoint_stable_through = omega arith;
      checkpoint_gc_through = omega arith;
      checkpoint_stable_barrier = omega arith;
    })

moves-behind_zeros_example :
    (new_version 8 (9 ∷ []) (behind_zeros 1 waiting) ≡ new_version 8 (9 ∷ []) waiting)
    × ((pass 6 9 (behind_zeros 1 waiting) ≡ pass 6 9 waiting)
        ⊎ ((pass 6 9 (behind_zeros 1 waiting) ≡ behind_zeros 1 waiting)
            × (pass 6 9 waiting ≡ waiting)))
moves-behind_zeros_example =
    moves-behind_zeros 8 6 9 (9 ∷ []) 1 waiting ((omega arith, tt), (refl, tt)) refl
