-- ===== src/Barrier/Order.antt =====
-- The invariant of the version list, and how the smallest version moves.
use wtf.Prelude.{
  ℕ, suc, ◌<◌, ◌≤◌, ◌≡◌, ◌⊎◌, inl, inr, refl, false, none, some, List, [], ◌∷◌, arith, All,
  Bool-cases, Option-cases, subst,
}
use wtf.Barrier.{
  Barrier, Version, last_empty, maybe_clear_prefix, back, push_back, new_version, min_version,
  pass_version, pass, is_empty,
}
use wtf.Barrier.Waiting.{Rising}

-- Every version of the list waits for somebody.
abbrev pub AllBusy : Barrier → Type 0
AllBusy = All (λ v. is_empty v.1 ≡ false)

-- There is a front, the versions rise, and only the front may have nobody left to wait for.
abbrev pub WellFormed : Barrier → Type 0
WellFormed [] = ⊥
WellFormed (v ∷ b) = Rising (suc v.0) b × AllBusy b

pub last_empty-shape :
    (n : ℕ) (b : Barrier)
    → Rising n b
    → ((last_empty b ≡ none) × AllBusy b)
      ⊎ ((w : Version) × (c : Barrier) × (last_empty b ≡ some (w ∷ c))
          × (n ≤ w.0)
          × Rising (suc w.0) c
          × AllBusy c)
unfolding last_empty
last_empty-shape n [] r = inl (refl, tt)
last_empty-shape n (v ∷ b) r = elim (last_empty-shape (suc v.0) b r.1) [
  | inr (w, c, e, h, s, a) ↦ inr (w, c, rw e, omega arith, s, a)
  | inl (e, a) ↦ elim (Bool-cases (is_empty v.1)) [
    | inl q ↦ inr (v, b, rw e (rw q), r.0, r.1, a)
    | inr q ↦ inl (rw e (rw q), (q, a))
  ]
]

clear-shape :
    (v : Version) (b : Barrier)
    → Rising (suc v.0) b
    → (w : Version) × (c : Barrier) × (maybe_clear_prefix (v ∷ b) ≡ w ∷ c)
      × (v.0 ≤ w.0)
      × Rising (suc w.0) c
      × AllBusy c
unfolding maybe_clear_prefix last_empty
clear-shape v b r = elim (last_empty-shape (suc v.0) b r) [
  | inr (w, c, e, h, s, a) ↦ (w, c, ground arith, omega arith, s, a)
  | inl (e, a) ↦ (v, b, ground arith, omega arith, r, a)
]

clear-WellFormed :
    (v : Version) (b : Barrier)
    → Rising (suc v.0) b
    → WellFormed (maybe_clear_prefix (v ∷ b)) × (v.0 ≤ min_version (maybe_clear_prefix (v ∷ b)))
unfolding min_version
clear-WellFormed v b r = let (w, c, e, h, s, a) = clear-shape v b r in rw e ((s, a), h)

Rising-push :
    (n m : ℕ) (ids : List ℕ) (v : Version) (b : Barrier)
    → Rising n (v ∷ b)
    → back (v ∷ b) < m
    → Rising n (push_back (v ∷ b) (m, ids))
Rising-push n m ids v [] r h = ground arith
Rising-push n m ids v (w ∷ b) r h = (r.0, Rising-push (suc v.0) m ids w b r.1 h)

pub pushed :
    (version : ℕ) (servers : List ℕ) (v : Version) (b c : Barrier)
    → new_version version servers (v ∷ b) ≡ some c
    → (back (v ∷ b) < version) × (maybe_clear_prefix (v ∷ push_back b (version, servers)) ≡ c)
unfolding new_version
pushed version servers v b c e = ground arith

-- `new_version` keeps the invariant: a front, rising versions, and nobody but the front without
-- servers to wait for. The smallest version does not fall.
pub new_version-WellFormed :
    (version : ℕ) (servers : List ℕ) (b c : Barrier)
    → WellFormed b
    → new_version version servers b ≡ some c
    → WellFormed c × (min_version b ≤ min_version c)
unfolding new_version min_version
new_version-WellFormed version servers [] c w e = elim w [ ]
new_version-WellFormed version servers (v ∷ b) c w e =
    let parts = pushed version servers v b c e in
    subst (λ x. WellFormed x × (v.0 ≤ min_version x)) parts.1
      (clear-WellFormed v (push_back b (version, servers))
        (Rising-push 0 version servers v b (omega arith, w.0) parts.0).1)

-- No assertion of `new_version` fails for a version above the newest one.
pub new_version_total :
    (version : ℕ) (servers : List ℕ) (b : Barrier)
    → WellFormed b
    → back b < version
    → (c : Barrier) × (new_version version servers b ≡ some c)
unfolding new_version
new_version_total version servers [] w h = elim w [ ]
new_version_total version servers (v ∷ b) w h =
    (maybe_clear_prefix (push_back (v ∷ b) (version, servers)), ground arith)

pub pass_version-Rising :
    (n version sid : ℕ) (b c : Barrier)
    → Rising n b
    → pass_version version sid b ≡ some c
    → Rising n c
unfolding pass_version
pass_version-Rising n version sid [] c r e = cc
pass_version-Rising n version sid ((u, ids) ∷ b) [] r e = ground arith
pass_version-Rising n version sid ((u, ids) ∷ b) (v ∷ c) r e =
    ground (arith, pass_version-Rising (suc u) version sid b c r.1)

pass_version-nonempty :
    (version sid : ℕ) (v : Version) (b c : Barrier)
    → pass_version version sid (v ∷ b) ≡ some c
    → (w : Version) × (d : Barrier) × (c ≡ w ∷ d) × (w.0 ≡ v.0)
unfolding pass_version
pass_version-nonempty version sid v b [] e = ground arith
pass_version-nonempty version sid v b (w ∷ d) e = (w, d, refl, ground arith)

-- `pass` keeps the invariant, and the smallest version does not fall.
pub pass-WellFormed :
    (version sid : ℕ) (b : Barrier)
    → WellFormed b
    → WellFormed (pass version sid b) × (min_version b ≤ min_version (pass version sid b))
unfolding pass
pass-WellFormed version sid [] w = elim w [ ]
pass-WellFormed version sid (v ∷ b) w = elim (Option-cases (pass_version version sid (v ∷ b))) [
  | inl e ↦ rw (e, pass) (w, omega arith)
  | inr (c, e) ↦
      let (u, d, q, k) = pass_version-nonempty version sid v b c e in
      let rising = pass_version-Rising 0 version sid (v ∷ b) c (omega arith, w.0) e in
      let done = clear-WellFormed u d (subst (Rising 0) q rising).1 in
      rw (e, pass) (rw q (done.0, unfold min_version in omega (arith, done.1)))
]
