-- ===== src/OrdMap.antt =====
-- `std::map<uint64_t, V>` as the list of its entries in ascending key order. An iterator is the
-- list of the entries from it to end(), so that end() is [].
pub mod Append
use wtf.Prelude.{ℕ, ◌<◌, ◌≡◌, Option, none, some, List, [], ◌∷◌, arith, ltb, ◌==◌, if◌then◌else◌}

abbrev pub OrdMap {ℓ} : Type ℓ → Type ℓ
OrdMap V = List (ℕ × V)

module _ {ℓ} {V : Type ℓ} where
  -- The first entry whose key is not below `k`.
  abbrev pub lower_bound : ℕ → OrdMap V → OrdMap V
  lower_bound k [] = []
  lower_bound k ((j, v) ∷ m) = if ltb j k then lower_bound k m else (j, v) ∷ m

  -- `--it` for `it = lower_bound(k)`: the last entry whose key is below `k`.
  abbrev pub before : ℕ → OrdMap V → Option (ℕ × V)
  before k [] = none
  before k ((j, v) ∷ m) =
      if ltb j k then elim (before k m) [ none ↦ some (j, v) | some e ↦ some e ] else none

  -- `--end()`
  abbrev pub last? : OrdMap V → Option (ℕ × V)
  last? [] = none
  last? (e ∷ []) = some e
  last? (e ∷ f ∷ m) = last? (f ∷ m)

  abbrev pub lookup : ℕ → OrdMap V → Option V
  lookup k [] = none
  lookup k ((j, v) ∷ m) = if j == k then some v else lookup k m

  -- `m[k] = v`
  abbrev pub assign : ℕ → V → OrdMap V → OrdMap V
  assign k v [] = (k, v) ∷ []
  assign k v ((j, w) ∷ m) =
      if ltb j k then (j, w) ∷ assign k v m else if j == k then (k, v) ∷ m else (k, v) ∷ (j, w) ∷ m

  -- `m.insert(std::make_pair(k, v))`, which leaves an entry that is there.
  abbrev pub insert_new : ℕ → V → OrdMap V → OrdMap V
  insert_new k v [] = (k, v) ∷ []
  insert_new k v ((j, w) ∷ m) =
      if ltb j k
      then (j, w) ∷ insert_new k v m
      else if j == k
      then (j, w) ∷ m
      else (k, v) ∷ (j, w) ∷ m

  -- `m.erase(k)`
  abbrev pub erase : ℕ → OrdMap V → OrdMap V
  erase k [] = []
  erase k ((j, w) ∷ m) = if j == k then m else (j, w) ∷ erase k m

  -- `m.erase(m.upper_bound(k), m.end())`
  abbrev pub erase_above : ℕ → OrdMap V → OrdMap V
  erase_above k [] = []
  erase_above k ((j, w) ∷ m) = if ltb k j then [] else (j, w) ∷ erase_above k m
