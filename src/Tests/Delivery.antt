-- ===== src/Tests/Delivery.antt =====
-- A coordinator that was given its cluster, and a client that unpacks its configuration.
use wtf.Prelude.{
  ℕ, suc, ◌≡◌, ◌++◌, refl, add64, none, some, [], ◌∷◌, arith, ◌==◌, if◌then◌else◌, inl,
}
use wtf.Codec.{padded}
use wtf.Server.{get_server, new_server, sink, servers_in_configuration}
use wtf.Barrier.{min_version, new_version, maybe_clear_prefix, last_empty}
use wtf.Coordinator.{
  generate_next_configuration, broadcast_as, broadcast_until, generate_cached_configuration,
  check_ack_condition, check_stable_condition, Coordinator, Env, Net, start,
}
use wtf.Coordinator.Conditions.{Counts, code}
use wtf.Coordinator.Invariant.{Inv}
use wtf.Coordinator.Handlers.{configuration, success, init, server_register}
use wtf.Coordinator.Calls.{Call, init_call, register_call, config_get_call, perform, dispatch}
use wtf.Coordinator.Reachable.{Reachable, started, called, Reachable-Inv}
use wtf.Coordinator.Safety.{Cached, current}
use wtf.Configuration.Wire.{Addresses, pack_config}
use wtf.CoordinatorLink.{
  success as succeeded, garbage, fetching_config, Client, Link, new_link, new_config,
}
use wtf.CoordinatorLink.Loops.{loop}
use wtf.CoordinatorLink.Delivered.{loop-config_get}

abbrev Values : Type 0
Values = ℕ → ℕ

abbrev value_of : ℕ → Values → ℕ
value_of d x = x d

abbrev counting : Env Values
counting = record {
  broadcast = λ c x. (some (suc (x (code c))), λ d. if code c == d then suc (x d) else x d);
  alarm = λ x. x;
  suspect = λ sid x. x;
}

counting-Counts : Counts counting value_of
counting-Counts = record {
  given = λ c x. refl;
  counted = λ c d x. refl;
  quiet_alarm = λ d x. refl;
  quiet_suspect = λ d sid x. refl;
}

abbrev numbers : Net ℕ
numbers = record { unset = 0; same = λ a b. a == b }

-- An address in one byte.
abbrev bytes_of_address : Addresses ℕ
bytes_of_address = record {
  put = λ a. a ∷ [];
  get = λ b. elim b [ [] ↦ none | a ∷ rest ↦ some (a, rest) ];
  get-put = λ a rest. refl;
}

abbrev fresh : Coordinator Values ℕ
fresh = start (λ d. 0)

-- The coordinator behind a call.
abbrev after : Call ℕ → Coordinator Values ℕ → Coordinator Values ℕ
after call s = elim (perform counting numbers call s) [ none ↦ s | some (r, t) ↦ t ]

abbrev founded : Coordinator Values ℕ
founded = after (init_call 77) fresh

-- Two servers, the second with the smaller id.
abbrev joined : Coordinator Values ℕ
joined = after (register_call 3 8000) (after (register_call 5 9000) founded)

founded-Reachable : Reachable counting numbers value_of founded
unfolding perform dispatch init server_register get_server new_server sink
    generate_next_configuration check_ack_condition check_stable_condition broadcast_as
    broadcast_until generate_cached_configuration maybe_clear_prefix last_empty min_version
    new_version add64 servers_in_configuration
founded-Reachable =
    called (init_call 77) success fresh founded (started (λ d. 0) (λ d. refl))
      (omega arith, omega arith) refl

joined-Reachable : Reachable counting numbers value_of joined
unfolding perform dispatch init server_register get_server new_server sink
    generate_next_configuration check_ack_condition check_stable_condition broadcast_as
    broadcast_until generate_cached_configuration maybe_clear_prefix last_empty min_version
    new_version add64 servers_in_configuration
joined-Reachable =
    called (register_call 3 8000) success (after (register_call 5 9000) founded) joined
      (called (register_call 5 9000) success founded (after (register_call 5 9000) founded)
        founded-Reachable (omega arith, omega arith) refl)
      (omega arith, omega arith) refl

Reachable-Inv_example : Inv value_of joined × Cached joined
Reachable-Inv_example =
    Reachable-Inv counting numbers value_of counting-Counts joined joined-Reachable

-- A client whose operation 5 ends with the coordinator's configuration, and a link that waits for it.
abbrev answering : Client ℕ
answering = record {
  send = λ r x. (some x, garbage, suc x);
  kill = λ i x. x;
  loop = λ timeout x. (
    record {
      lid = some 5;
      status = succeeded;
      ended = succeeded;
      output = pack_config padded bytes_of_address (current joined) ++ 4 ∷ [];
    },
    x,
  );
}

abbrev fetching : Link ℕ ℕ
fetching = record (new_link 6 succeeded) { state = fetching_config; id = some 5 }

loop-config_get_example :
    (perform counting numbers config_get_call joined
      ≡ some (configuration (current joined), joined))
    × ((u : Link ℕ ℕ) × (loop padded bytes_of_address answering 2 (some 1000) fetching
          ≡ some (new_config, u))
        × (u.config ≡ current joined))
unfolding perform dispatch init server_register get_server new_server sink
    generate_next_configuration check_ack_condition check_stable_condition broadcast_as
    broadcast_until generate_cached_configuration maybe_clear_prefix last_empty min_version
    new_version add64 servers_in_configuration
loop-config_get_example =
    loop-config_get counting numbers value_of counting-Counts padded bytes_of_address (4 ∷ [])
      joined answering (some 1000) fetching joined-Reachable (omega arith)
      (omega arith, (omega arith, tt)) (omega arith) (omega arith) (omega arith) (omega arith)
      (record {
        ready = record { output = refl; shape = refl };
        fetching = refl;
        queue = refl;
        own = refl;
        well = refl;
        holds = refl;
      })
      (inl refl)
