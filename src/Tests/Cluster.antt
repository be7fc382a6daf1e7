-- ===== src/Tests/Cluster.antt =====
-- A coordinator of one cluster, whose conditions are a function to their values, with no server yet.
use wtf.Prelude.{ℕ, suc, ◌≤◌, ◌≡◌, refl, ◌==◌, some, [], ◌∷◌, arith, if◌then◌else◌}
use wtf.Coordinator.{Coordinator, Env, Net, start}
use wtf.Coordinator.Conditions.{Counts, code}
use wtf.Coordinator.Handlers.{Response}
use wtf.Coordinator.Calls.{init_call, perform}
use wtf.Coordinator.Reachable.{Reachable, started, Reachable-answers}

abbrev Values : Type 0
Values = ℕ → ℕ

abbrev value_of : ℕ → Values → ℕ
value_of d x = x d

abbrev counting : Env Values
counting = record {
  broadcast = λ c x. (some (suc (x (code c))), λ d. if code c == d then suc (x d) else x d);
  alarm = λ x. x;
  suspect = λ sid x. x;
}

counting-Counts : Counts counting value_of
counting-Counts = record {
  given = λ c x. refl;
  counted = λ c d x. refl;
  quiet_alarm = λ d x. refl;
  quiet_suspect = λ d sid x. refl;
}

abbrev numbers : Net ℕ
numbers = record { unset = 0; same = λ a b. a == b }

abbrev one_each : Values
one_each d = if d == 0 then 1 else if d == 1 then 1 else if d == 2 then 1 else 0

abbrev founded : Coordinator Values ℕ
founded = record (start one_each) {
  cluster = 77;
  version = 1;
  config_ack_through = 1;
  config_ack_barrier = (1, []) ∷ [];
  config_stable_through = 1;
  config_stable_barrier = (1, []) ∷ [];
  latest_config = some (record { cluster = 77; version = 1; flags = 0; servers = [] });
}

abbrev zeros : Values
zeros d = 0

fresh-Reachable : Reachable {Loc = ℕ} counting numbers value_of (start zeros)
fresh-Reachable = started zeros (λ d. refl)

Reachable-answers_example :
    (r : Response ℕ) × (t : Coordinator Values ℕ) × (perform counting numbers
        (init_call 77)
        (start zeros)
      ≡ some (r, t))
    × Reachable counting numbers value_of t
    × ((start {Ctx = Values} {Loc = ℕ} zeros).version ≤ t.version)
Reachable-answers_example =
    Reachable-answers counting numbers value_of counting-Counts (init_call 77) (start zeros)
      fresh-Reachable (omega arith, omega arith)
