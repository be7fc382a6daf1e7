-- ===== src/Barrier.antt =====
-- coordinator/server_barrier.{h,cc}: the versions that servers have still to pass, oldest first,
-- each with the ids that have not passed it.
pub mod Waiting
pub mod Order
pub mod Progress
pub mod Newest
pub mod Recreated
use wtf.Prelude.{
  ℕ, zero, suc, Bool, true, false, Option, none, some, List, [], ◌∷◌, length, ltb, ◌==◌,
  if◌then◌else◌, ◌&&◌,
}

-- `version_t` and `version_list_t`, the only field of `class server_barrier`
abbrev pub Version : Type 0
Version = ℕ × List ℕ

abbrev pub Barrier : Type 0
Barrier = List Version

-- `server_barrier::server_barrier()`
abbrev pub initial : Barrier
initial = (0, []) ∷ []

abbrev pub is_empty {ℓ} : {A : Type ℓ} → List A → Bool
is_empty [] = true
is_empty (x ∷ xs) = false

-- `min_version`. The list is never empty; front() of an empty list is undefined.
unfoldable pub min_version : Barrier → ℕ
min_version [] = 0
min_version (v ∷ b) = v.0

-- The loop that finds `last_empty`: an iterator is the list from it on.
unfoldable pub last_empty : Barrier → Option Barrier
last_empty [] = none
last_empty (v ∷ b) = elim (last_empty b) [
  | some it ↦ some it
  | none ↦ if is_empty v.1 then some (v ∷ b) else none
]

-- `maybe_clear_prefix`
unfoldable pub maybe_clear_prefix : Barrier → Barrier
unfolding last_empty
maybe_clear_prefix b = elim (last_empty b) [ none ↦ b | some it ↦ it ]

abbrev pub back : Barrier → ℕ
back [] = 0
back (v ∷ []) = v.0
back (v ∷ w ∷ b) = back (w ∷ b)

abbrev pub push_back {ℓ} : {A : Type ℓ} → List A → A → List A
push_back [] a = a ∷ []
push_back (x ∷ xs) a = x ∷ push_back xs a

-- `new_version`; `none` where an assertion fails.
unfoldable pub new_version : ℕ → List ℕ → Barrier → Option Barrier
unfolding maybe_clear_prefix
new_version version servers [] = none
new_version version servers (v ∷ b) =
    if ltb 0 version && ltb (back (v ∷ b)) version
    then some (maybe_clear_prefix (push_back (v ∷ b) (version, servers)))
    else none

-- `v[i] = v.back(); v.pop_back();` where `v[i]` stood before the given rest.
unfoldable pub fill_from_back {ℓ} : {A : Type ℓ} → List A → List A
fill_from_back [] = []
fill_from_back (x ∷ []) = x ∷ []
fill_from_back (x ∷ y ∷ l) = elim (fill_from_back (y ∷ l)) [ [] ↦ x ∷ [] | z ∷ r ↦ z ∷ x ∷ r ]

-- The loop of `pass` over the ids of a version; each round makes the rest of the vector shorter.
unfoldable pub remove_id : ℕ → ℕ → List ℕ → List ℕ
unfolding fill_from_back
remove_id zero sid l = l
remove_id (suc fuel) sid [] = []
remove_id (suc fuel) sid (x ∷ l) = elim (x == sid) [
  | true ↦ remove_id fuel sid (fill_from_back l)
  | false ↦ x ∷ remove_id fuel sid l
]

-- The loop of `pass` over the versions; `none` where none matches.
unfoldable pub pass_version : ℕ → ℕ → Barrier → Option Barrier
unfolding remove_id
pass_version version sid [] = none
pass_version version sid ((v, ids) ∷ b) =
    let rest = pass_version version sid b in
    if ltb v version
    then elim rest [ none ↦ none | some b' ↦ some ((v, ids) ∷ b') ]
    else if ltb version v
    then none
    else some ((v, remove_id (length ids) sid ids) ∷ b)

-- `pass`
unfoldable pub pass : ℕ → ℕ → Barrier → Barrier
unfolding pass_version maybe_clear_prefix
pass version sid b = elim (pass_version version sid b) [
  | none ↦ b
  | some b' ↦ maybe_clear_prefix b'
]
