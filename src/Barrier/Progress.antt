-- ===== src/Barrier/Progress.antt =====
-- What `pass` does to the servers that the versions wait for, and when a version is through.
use wtf.Prelude.{
  ℕ, suc, ◌≤◌, ◌≡◌, ◌≢◌, ◌∙◌, refl, leb, inl, inr, Bool, true, false, some, [], ◌∷◌, arith, ◌==◌,
  ◌&&◌, ◌||◌, not, Bool-cases, Option-cases,
}
use wtf.Barrier.{
  Barrier, Version, last_empty, maybe_clear_prefix, min_version, pass_version, pass, is_empty,
}
use wtf.Barrier.Waiting.{Rising, waits_for, contains, waits_for-pass_version}
use wtf.Barrier.Order.{WellFormed, AllBusy, last_empty-shape, pass_version-Rising, pass-WellFormed}

waits_for-last_empty :
    (n x y : ℕ) (b c : Barrier) (w : Version)
    → Rising n b
    → last_empty b ≡ some (w ∷ c)
    → w.0 ≤ x
    → (n ≤ w.0) × (waits_for x y (w ∷ c) ≡ waits_for x y b)
unfolding last_empty
waits_for-last_empty n x y [] c w r e h = cc
waits_for-last_empty n x y ((u, ids) ∷ b) c w r e h = elim (Option-cases (last_empty b)) [
  | inl q ↦ ground arith
  | inr ([], q) ↦ ground (arith, last_empty-shape (suc u) b r.1)
  | inr (z ∷ d, q) ↦ ground (arith, waits_for-last_empty (suc u) x y b d z r.1 q)
]

waits_for-clear :
    (n x y : ℕ) (b : Barrier)
    → Rising n b
    → min_version (maybe_clear_prefix b) ≤ x
    → waits_for x y (maybe_clear_prefix b) ≡ waits_for x y b
unfolding maybe_clear_prefix min_version
waits_for-clear n x y b r h = elim (last_empty-shape n b r) [
  | inl (e, a) ↦ ground arith
  | inr (w, c, e, k, s, a) ↦ ground (arith, waits_for-last_empty n x y b c w r e)
]

-- After `pass` on a well-formed barrier (rising versions, of which only the first may have no server to
-- wait for), each version from the smallest one on waits for the servers that it waited for
-- before, but for the one that passed, at the version that it passed.
pub waits_for-pass :
    (version sid w y : ℕ) (b : Barrier)
    → WellFormed b
    → min_version (pass version sid b) ≤ w
    → waits_for w y (pass version sid b) ≡ (waits_for w y b && not (w == version && y == sid))
unfolding pass
waits_for-pass version sid w y [] k h = elim k [ ]
waits_for-pass version sid w y (v ∷ b) k h =
    let rising : Rising 0 (v ∷ b) = (omega arith, k.0) in
    let removed = waits_for-pass_version 0 version sid w y (v ∷ b) rising in
    elim (Option-cases (pass_version version sid (v ∷ b))) [
      | inl e ↦ ground (arith, removed)
      | inr (c, e) ↦
          let kept =
            waits_for-clear 0 w y c (pass_version-Rising 0 version sid (v ∷ b) c rising e) in
          ground (arith, removed, kept)
    ]

abbrev pub holds : ℕ → Barrier → Bool
holds v [] = false
holds v ((u, ids) ∷ b) = u == v || holds v b

busy-waits : (v : Version) → is_empty v.1 ≡ false → (y : ℕ) × (contains y v.1 ≡ true)
busy-waits (u, []) h = cc
busy-waits (u, x ∷ l) h = (x, ground arith)

later-waits :
    (v : ℕ) (b : Barrier) → AllBusy b → holds v b ≡ true → (y : ℕ) × (waits_for v y b ≡ true)
later-waits v [] a h = cc
later-waits v ((u, ids) ∷ b) a h = elim (Bool-cases (u == v)) [
  | inl e ↦ let (y, q) = busy-waits (u, ids) a.0 in (y, ground arith)
  | inr e ↦ let (y, q) = later-waits v b a.1 (ground arith) in (y, ground arith)
]

nobody_left :
    (v : ℕ) (b : Barrier)
    → WellFormed b
    → holds v b ≡ true
    → ((y : ℕ) → waits_for v y b ≡ false)
    → min_version b ≡ v
unfolding min_version
nobody_left v [] w h idle = elim w [ ]
nobody_left v ((u, ids) ∷ b) w h idle = elim (Bool-cases (u == v)) [
  | inl e ↦ ground arith
  | inr e ↦ let (y, q) = later-waits v b w.1 (ground arith) in ground (arith, idle y)
]

holds-pass_version :
    (v version sid : ℕ) (b c : Barrier)
    → pass_version version sid b ≡ some c
    → holds v c ≡ holds v b
unfolding pass_version
holds-pass_version v version sid [] c e = cc
holds-pass_version v version sid ((u, ids) ∷ b) [] e = ground arith
holds-pass_version v version sid ((u, ids) ∷ b) (w ∷ c) e =
    ground (arith, holds-pass_version v version sid b c)

holds-last_empty :
    (n v : ℕ) (b c : Barrier) (w : Version)
    → Rising n b
    → last_empty b ≡ some (w ∷ c)
    → w.0 ≤ v
    → (n ≤ w.0) × (holds v (w ∷ c) ≡ holds v b)
unfolding last_empty
holds-last_empty n v [] c w r e h = cc
holds-last_empty n v ((u, ids) ∷ b) c w r e h = elim (Option-cases (last_empty b)) [
  | inl q ↦ ground arith
  | inr ([], q) ↦ ground (arith, last_empty-shape (suc u) b r.1)
  | inr (z ∷ d, q) ↦ ground (arith, holds-last_empty (suc u) v b d z r.1 q)
]

holds-clear :
    (n v : ℕ) (b : Barrier)
    → Rising n b
    → min_version (maybe_clear_prefix b) ≤ v
    → holds v (maybe_clear_prefix b) ≡ holds v b
unfolding maybe_clear_prefix min_version
holds-clear n v b r h = elim (last_empty-shape n b r) [
  | inl (e, a) ↦ ground arith
  | inr (w, c, e, k, s, a) ↦ ground (arith, holds-last_empty n v b c w r e)
]

holds-pass :
    (version sid v : ℕ) (b : Barrier)
    → WellFormed b
    → min_version (pass version sid b) ≤ v
    → holds v (pass version sid b) ≡ holds v b
unfolding pass
holds-pass version sid v [] w h = elim w [ ]
holds-pass version sid v (u ∷ b) w h = elim (Option-cases (pass_version version sid (u ∷ b))) [
  | inl e ↦ ground arith
  | inr (c, e) ↦
      let rising = pass_version-Rising 0 version sid (u ∷ b) c (omega arith, w.0) e in
      ground (arith, holds-pass_version v version sid (u ∷ b) c e, holds-clear 0 v c rising)
]

-- When the only server that a version of a well-formed barrier (rising versions, of which only the first
-- may have no server to wait for) still waits for passes it, the smallest version of the barrier is then
-- that version or a later one.
pub pass-through :
    (version sid : ℕ) (b : Barrier)
    → WellFormed b
    → holds version b ≡ true
    → ((y : ℕ) → y ≢ sid → waits_for version y b ≡ false)
    → version ≤ min_version (pass version sid b)
pass-through version sid b w h only =
    elim (Bool-cases (leb (min_version (pass version sid b)) version)) [
      | inr e ↦ ground (arith, e)
      | inl e ↦
          let below : min_version (pass version sid b) ≤ version = ground (arith, e) in
          let kept = holds-pass version sid version b w below in
          let well = (pass-WellFormed version sid b w).0 in
          let idle : (y : ℕ) → waits_for version y (pass version sid b) ≡ false = λ y.
            waits_for-pass version sid version y b w below
            ∙ none_but sid y (waits_for version y b) (only y) in
          omega (arith, nobody_left version (pass version sid b) well (kept ∙ h) idle)
    ]
  where
    none_but :
        (sid y : ℕ) (t : Bool)
        → (y ≢ sid → t ≡ false)
        → (t && not (version == version && y == sid)) ≡ false
    none_but sid y t h = elim (Bool-cases (y == sid)) [
      | inl e ↦ ground (arith, e)
      | inr e ↦ rw (h (λ q. ground (arith, e, q))) refl
    ]
