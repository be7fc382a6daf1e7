-- ===== src/Tests/Fetches.antt =====
-- A client of the replicated state machine that ends its operations one by one, each with a packed
-- configuration of version 3.
use wtf.Prelude.{ℕ, suc, refl, none, some, List, [], ◌∷◌, length}
use wtf.Codec.{padded}
use wtf.Coordinator.{Config}
use wtf.Configuration.Wire.{Addresses, pack_config}
use wtf.CoordinatorLink.{
  success, timed_out, garbage, Client, Link, new_link, pass_on, backup, Looped,
}
use wtf.CoordinatorLink.Loops.{loop}

-- An address in one byte.
abbrev byte_address : Addresses ℕ
byte_address = record {
  put = λ a. a ∷ [];
  get = λ b. elim b [ [] ↦ none | a ∷ rest ↦ some (a, rest) ];
  get-put = λ a rest. refl;
}

abbrev third : Config ℕ
third = record { cluster = 1; version = 3; flags = 0; servers = [] }

-- The next id, and the operations in progress, newest first.
abbrev Ops : Type 0
Ops = ℕ × List ℕ

abbrev end_one : Ops → Looped × Ops
end_one (n, []) = (record { lid = none; status = timed_out; ended = success; output = [] }, (n, []))
end_one (n, i ∷ l) = (
  record {
    lid = some i;
    status = success;
    ended = success;
    output = pack_config padded byte_address third;
  },
  (n, l),
)

abbrev client : Client Ops
client = record {
  send = λ r x. (some x.0, garbage, (suc x.0, x.0 ∷ x.1));
  kill = λ i x. x;
  loop = λ timeout x. end_one x;
}

abbrev open_ops : Ops → ℕ
open_ops x = length x.1

-- A link whose user has made a call.
abbrev fresh : Link Ops ℕ
fresh = new_link (5, []) success

abbrev asked : Link Ops ℕ
asked = (pass_on client backup fresh).1
