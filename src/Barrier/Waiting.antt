-- ===== src/Barrier/Waiting.antt =====
-- Which servers a version still waits for.
use wtf.Prelude.{
  ℕ, zero, suc, ◌<◌, ◌≤◌, ◌≡◌, refl, Bool, false, not, Option, none, some, List, [], ◌∷◌, arith,
  length, ◌==◌, ◌&&◌, ◌||◌,
}
use wtf.Barrier.{Barrier, fill_from_back, remove_id, pass_version}

abbrev pub contains : ℕ → List ℕ → Bool
contains y [] = false
contains y (x ∷ l) = x == y || contains y l

contains-fill : (y : ℕ) (l : List ℕ) → contains y (fill_from_back l) ≡ contains y l
unfolding fill_from_back
contains-fill y [] = refl
contains-fill y (x ∷ []) = refl
contains-fill y (x ∷ z ∷ l) = ground (arith, contains-fill y (z ∷ l))

length-fill : (l : List ℕ) → length (fill_from_back l) ≡ length l
unfolding fill_from_back
length-fill [] = refl
length-fill (x ∷ []) = refl
length-fill (x ∷ z ∷ l) = ground (arith, length-fill (z ∷ l))

pub contains-remove :
    (fuel y sid : ℕ) (l : List ℕ)
    → length l ≤ fuel
    → contains y (remove_id fuel sid l) ≡ (contains y l && not (y == sid))
unfolding remove_id
contains-remove zero y sid [] h = refl
contains-remove zero y sid (x ∷ l) h = elim h [ ]
contains-remove (suc fuel) y sid [] h = refl
contains-remove (suc fuel) y sid (x ∷ l) h = ground (
  arith,
  contains-remove fuel y sid l,
  contains-remove fuel y sid (fill_from_back l),
  length-fill l,
  contains-fill y l,
)

-- Does the barrier hold version `v` with server `y` still to pass it? (Any of the entries of `v`.)
abbrev pub waits_for : ℕ → ℕ → Barrier → Bool
waits_for v y [] = false
waits_for v y ((u, ids) ∷ b) = (u == v && contains y ids) || waits_for v y b

-- The versions rise along the list.
abbrev pub Rising : ℕ → Barrier → Type 0
Rising n [] = Unit {0}
Rising n (v ∷ b) = (n ≤ v.0) × Rising (suc v.0) b

pub waits_for-below : (n v y : ℕ) (b : Barrier) → Rising n b → v < n → waits_for v y b ≡ false
waits_for-below n v y [] r h = refl
waits_for-below n v y ((u, ids) ∷ b) r h = ground (arith, waits_for-below (suc u) v y b r.1)

abbrev pub or_same : Barrier → Option Barrier → Barrier
or_same b none = b
or_same b (some c) = c

-- Removing a server from a version removes it there, and nowhere else.
pub waits_for-pass_version :
    (n v sid w y : ℕ) (b : Barrier)
    → Rising n b
    → waits_for w y (or_same b (pass_version v sid b))
      ≡ (waits_for w y b && not (w == v && y == sid))
unfolding pass_version
waits_for-pass_version n v sid w y [] r = refl
waits_for-pass_version n v sid w y ((u, ids) ∷ b) r = ground (
  arith,
  waits_for-pass_version (suc u) v sid w y b r.1,
  waits_for-below (suc u) w y b r.1,
  contains-remove (length ids) y sid ids,
)
