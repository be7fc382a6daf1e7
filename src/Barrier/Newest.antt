-- ===== src/Barrier/Newest.antt =====
-- The newest version of the list.
use wtf.Prelude.{
  ℕ, suc, ◌≤◌, ◌≡◌, ◌∙◌, refl, sym, ap, inl, inr, some, List, [], ◌∷◌, arith, Option-cases,
}
use wtf.Barrier.{
  Barrier, Version, last_empty, maybe_clear_prefix, min_version, back, push_back, new_version,
  pass_version, pass,
}
use wtf.Barrier.Waiting.{Rising}
use wtf.Barrier.Order.{WellFormed, pushed}

back-push : (v : Version) (b : Barrier) (w : Version) → back (push_back (v ∷ b) w) ≡ w.0
back-push v [] w = refl
back-push v (u ∷ b) w = back-push u b w

last_empty-ne : (b : Barrier) → last_empty b ≡ some [] → ⊥
unfolding last_empty
last_empty-ne [] e = cc
last_empty-ne (v ∷ b) e = ground (arith, last_empty-ne b)

back-last_empty :
    (v : Version) (b c : Barrier) → last_empty (v ∷ b) ≡ some c → back c ≡ back (v ∷ b)
unfolding last_empty
back-last_empty v [] c e = ground arith
back-last_empty v (u ∷ b) c e = elim (Option-cases (last_empty (u ∷ b))) [
  | inl q ↦ ground arith
  | inr (d, q) ↦ ground (arith, back-last_empty u b d q)
]

back-clear : (v : Version) (b : Barrier) → back (maybe_clear_prefix (v ∷ b)) ≡ back (v ∷ b)
unfolding maybe_clear_prefix
back-clear v b = elim (Option-cases (last_empty (v ∷ b))) [
  | inl q ↦ rw (q, maybe_clear_prefix) refl
  | inr (d, q) ↦ rw (q, maybe_clear_prefix) (back-last_empty v b d q)
]

-- The version that `new_version` adds is the newest one.
pub back-new_version :
    (version : ℕ) (servers : List ℕ) (b c : Barrier)
    → new_version version servers b ≡ some c
    → back c ≡ version
unfolding new_version
back-new_version version servers [] c e = cc
back-new_version version servers (v ∷ b) c e =
    ap back (sym (pushed version servers v b c e).1)
    ∙ back-clear v (push_back b (version, servers))
    ∙ back-push v b (version, servers)

back-pass_version :
    (version sid : ℕ) (v : Version) (b c : Barrier)
    → pass_version version sid (v ∷ b) ≡ some c
    → (u : Version) × (d : Barrier) × (c ≡ u ∷ d) × (back c ≡ back (v ∷ b))
unfolding pass_version
back-pass_version version sid v [] [] e = ground arith
back-pass_version version sid v [] (u ∷ d) e = (u, d, refl, ground arith)
back-pass_version version sid v (w ∷ b) [] e = ground arith
back-pass_version version sid v (w ∷ b) (u ∷ c) e = (
  u,
  c,
  refl,
  (elim (Option-cases (pass_version version sid (w ∷ b))) [
    | inl q ↦ ground arith
    | inr (d, q) ↦ let (x, y, k, z) = back-pass_version version sid w b d q in ground arith
  ]),
)

-- `pass` leaves the newest version.
pub back-pass : (version sid : ℕ) (b : Barrier) → WellFormed b → back (pass version sid b) ≡ back b
unfolding pass
back-pass version sid [] w = elim w [ ]
back-pass version sid (v ∷ b) w = elim (Option-cases (pass_version version sid (v ∷ b))) [
  | inl e ↦ rw (e, pass) refl
  | inr (c, e) ↦
      let (u, d, q, k) = back-pass_version version sid v b c e in
      rw (e, pass) (rw q (back-clear u d ∙ ap back (sym q) ∙ k))
]

Rising-le-back : (n : ℕ) (v : Version) (b : Barrier) → Rising n (v ∷ b) → n ≤ back (v ∷ b)
Rising-le-back n v [] r = r.0
Rising-le-back n v (u ∷ b) r = omega (arith, r.0, Rising-le-back (suc v.0) u b r.1)

-- The smallest version is not above the newest one.
pub min-le-back : (b : Barrier) → WellFormed b → min_version b ≤ back b
unfolding min_version
min-le-back [] w = elim w [ ]
min-le-back (v ∷ b) w = Rising-le-back v.0 v b (omega arith, w.0)
