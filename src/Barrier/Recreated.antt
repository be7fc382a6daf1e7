-- ===== src/Barrier/Recreated.antt =====
-- The barriers of a recreated coordinator: `>>` on a server_barrier pushes what it unpacks behind the
-- version that the new object has, so that version 0, with nobody left to wait for, stands in front.
use wtf.Prelude.{
  ℕ, zero, suc, ◌<◌, ◌≡◌, refl, sym, ap, subst, lt→ltb, le→ltb, ◌∙◌, ◌⊎◌, inl, inr, Bool, true,
  false, Option, none, some, List, [], ◌∷◌, arith, ltb, if◌then◌else◌, ◌&&◌, Bool-cases,
  Option-cases,
}
use wtf.Barrier.{
  Barrier, Version, last_empty, maybe_clear_prefix, back, push_back, new_version, pass_version,
  pass, is_empty, remove_id,
}
use wtf.Barrier.Order.{WellFormed, AllBusy}

-- The barrier behind `n` copies of version 0.
abbrev pub behind_zeros : ℕ → Barrier → Barrier
behind_zeros zero b = b
behind_zeros (suc n) b = (0, []) ∷ behind_zeros n b

-- The smallest version has nobody left to wait for.
abbrev pub FrontPassed : Barrier → Type 0
FrontPassed [] = ⊥
FrontPassed (v ∷ b) = is_empty v.1 ≡ true

last_empty-cases :
    (b : Barrier)
    → (last_empty b ≡ none) ⊎ ((c : Barrier) × (last_empty b ≡ some c) × FrontPassed c)
unfolding last_empty
last_empty-cases [] = inl refl
last_empty-cases (v ∷ b) = elim (last_empty-cases b) [
  | inr (c, e, h) ↦ inr (c, rw e refl, h)
  | inl e ↦ elim (Bool-cases (is_empty v.1)) [
    | inl q ↦ inr (v ∷ b, rw e (rw q refl), q)
    | inr q ↦ inl (rw e (rw q refl))
  ]
]

last_empty-FrontPassed :
    (b : Barrier) → FrontPassed b → (c : Barrier) × (last_empty b ≡ some c) × FrontPassed c
unfolding last_empty
last_empty-FrontPassed [] h = absurd h
last_empty-FrontPassed (v ∷ b) h = elim (last_empty-cases b) [
  | inr (c, e, k) ↦ (c, rw e refl, k)
  | inl e ↦ (v ∷ b, rw e (rw h refl), h)
]

last_empty-behind_zeros :
    (n : ℕ) (b c : Barrier) → last_empty b ≡ some c → last_empty (behind_zeros n b) ≡ some c
unfolding last_empty
last_empty-behind_zeros zero b c e = e
last_empty-behind_zeros (suc n) b c e = rw (last_empty-behind_zeros n b c e) refl

clear-behind_zeros :
    (n : ℕ) (b : Barrier)
    → FrontPassed b
    → maybe_clear_prefix (behind_zeros n b) ≡ maybe_clear_prefix b
unfolding maybe_clear_prefix
clear-behind_zeros n b h =
    let (c, e, k) = last_empty-FrontPassed b h in
    rw (last_empty-behind_zeros n b c e, maybe_clear_prefix) (rw (e, maybe_clear_prefix) refl)

clear-FrontPassed : (b : Barrier) → FrontPassed b → FrontPassed (maybe_clear_prefix b)
unfolding maybe_clear_prefix
clear-FrontPassed b h = let (c, e, k) = last_empty-FrontPassed b h in rw (e, maybe_clear_prefix) k

busy-last_empty : (b : Barrier) → AllBusy b → last_empty b ≡ none
unfolding last_empty
busy-last_empty [] a = refl
busy-last_empty (v ∷ b) a = rw (busy-last_empty b a.1) (rw a.0 refl)

clear-same : (b : Barrier) → WellFormed b → maybe_clear_prefix b ≡ b
unfolding maybe_clear_prefix last_empty
clear-same [] w = absurd w
clear-same (v ∷ b) w =
    let k = busy-last_empty b w.1 in
    elim (Bool-cases (is_empty v.1)) [
      | inl q ↦
          let e : last_empty (v ∷ b) ≡ some (v ∷ b) = rw k (rw q refl) in
          rw (e, maybe_clear_prefix) refl
      | inr q ↦
          let e : last_empty (v ∷ b) ≡ none = rw k (rw q refl) in rw (e, maybe_clear_prefix) refl
    ]

push_back-behind_zeros :
    (n : ℕ) (b : Barrier) (v : Version)
    → push_back (behind_zeros n b) v ≡ behind_zeros n (push_back b v)
push_back-behind_zeros zero b v = refl
push_back-behind_zeros (suc n) b v = ap (λ c. (0, []) ∷ c) (push_back-behind_zeros n b v)

push_back-FrontPassed : (b : Barrier) (v : Version) → FrontPassed b → FrontPassed (push_back b v)
push_back-FrontPassed [] v h = absurd h
push_back-FrontPassed (w ∷ b) v h = h

back-behind_zeros :
    (n : ℕ) (v : Version) (b : Barrier) → back (behind_zeros n (v ∷ b)) ≡ back (v ∷ b)
back-behind_zeros zero v b = refl
back-behind_zeros (suc zero) v b = refl
back-behind_zeros (suc (suc n)) v b = back-behind_zeros (suc n) v b

new_version-behind_zeros :
    (version : ℕ) (servers : List ℕ) (n : ℕ) (b : Barrier)
    → FrontPassed b
    → new_version version servers (behind_zeros n b) ≡ new_version version servers b
unfolding new_version
new_version-behind_zeros version servers n [] h = absurd h
new_version-behind_zeros version servers zero (v ∷ b) h = refl
new_version-behind_zeros version servers (suc n) (v ∷ b) h =
    let p = push_back-behind_zeros (suc n) (v ∷ b) (version, servers) in
    let c = clear-behind_zeros (suc n) (push_back (v ∷ b) (version, servers)) h in
    let x = maybe_clear_prefix (push_back (behind_zeros (suc n) (v ∷ b)) (version, servers)) in
    ap (λ m. if ltb 0 version && ltb m version then some x else none)
      (back-behind_zeros (suc n) v b)
    ∙ ap (λ l. if ltb 0 version && ltb (back (v ∷ b)) version then some l else none)
        (ap maybe_clear_prefix p ∙ c)

if_some : (t : Bool) (x c : Barrier) → (if t then some x else none) ≡ some c → x ≡ c
if_some true x c e = cc
if_some false x c e = cc

new_version-FrontPassed :
    (version : ℕ) (servers : List ℕ) (b c : Barrier)
    → FrontPassed b
    → new_version version servers b ≡ some c
    → FrontPassed c
unfolding new_version
new_version-FrontPassed version servers [] c h e = absurd h
new_version-FrontPassed version servers (v ∷ b) c h e =
    let p = clear-FrontPassed (push_back (v ∷ b) (version, servers)) h in
    subst FrontPassed (if_some (ltb 0 version && ltb (back (v ∷ b)) version) _ c e) p

passes_zeros :
    (version sid n : ℕ) (b : Barrier)
    → 0 < version
    → ((c : Barrier)
        → pass_version version sid b ≡ some c
        → pass_version version sid (behind_zeros n b) ≡ some (behind_zeros n c))
      × (pass_version version sid b ≡ none → pass_version version sid (behind_zeros n b) ≡ none)
unfolding pass_version
passes_zeros version sid zero b h = (λ c e. e, λ e. e)
passes_zeros version sid (suc n) b h =
    let (found, lost) = passes_zeros version sid n b h in
    let t = lt→ltb 0 version h in (λ c e. rw t (rw (found c e) refl), λ e. rw t (rw (lost e) refl))

some_same : (x c : Barrier) → some x ≡ some c → x ≡ c
some_same x c e = cc

front_passed :
    (t u : Bool) (v : ℕ) (rest : Option Barrier) (b c : Barrier)
    → (if t
        then elim rest [ none ↦ none | some b' ↦ some ((v, []) ∷ b') ]
        else if u
        then none
        else some ((v, []) ∷ b))
      ≡ some c
    → FrontPassed c
front_passed true u v none b c e = cc
front_passed true u v (some r) b c e = subst FrontPassed (some_same ((v, []) ∷ r) c e) refl
front_passed false true v rest b c e = cc
front_passed false false v rest b c e = subst FrontPassed (some_same ((v, []) ∷ b) c e) refl

pass_version-FrontPassed :
    (version sid : ℕ) (b c : Barrier)
    → FrontPassed b
    → pass_version version sid b ≡ some c
    → FrontPassed c
unfolding pass_version remove_id
pass_version-FrontPassed version sid [] c h e = absurd h
pass_version-FrontPassed version sid ((v, []) ∷ b) c h e =
    front_passed (ltb v version) (ltb version v) v (pass_version version sid b) b c e
pass_version-FrontPassed version sid ((v, i ∷ l) ∷ b) c h e = cc

pass_zero : (sid : ℕ) (b : Barrier) → WellFormed b → FrontPassed b → pass 0 sid b ≡ b
unfolding pass pass_version remove_id
pass_zero sid [] w h = absurd h
pass_zero sid ((zero, []) ∷ b) w h = clear-same ((0, []) ∷ b) w
pass_zero sid ((suc v, []) ∷ b) w h =
    let e : pass_version 0 sid ((suc v, []) ∷ b) ≡ none =
      rw (le→ltb (suc v) 0 (omega arith)) (rw (lt→ltb 0 (suc v) (omega arith)) refl) in
    rw (e, pass) refl
pass_zero sid ((v, i ∷ l) ∷ b) w h = cc

pass-FrontPassed :
    (version sid : ℕ) (b : Barrier) → FrontPassed b → FrontPassed (pass version sid b)
unfolding pass
pass-FrontPassed version sid b h = elim (Option-cases (pass_version version sid b)) [
  | inl e ↦ rw (e, pass) h
  | inr (c, e) ↦ rw (e, pass) (clear-FrontPassed c (pass_version-FrontPassed version sid b c h e))
]

pass-behind_zeros :
    (version sid n : ℕ) (b : Barrier)
    → WellFormed b
    → FrontPassed b
    → (pass version sid (behind_zeros n b) ≡ pass version sid b)
      ⊎ ((pass version sid (behind_zeros n b) ≡ behind_zeros n b) × (pass version sid b ≡ b))
unfolding pass pass_version remove_id
pass-behind_zeros zero sid zero b w h = inl refl
pass-behind_zeros zero sid (suc n) b w h =
    inl (clear-behind_zeros (suc n) b h ∙ clear-same b w ∙ sym (pass_zero sid b w h))
pass-behind_zeros (suc version) sid n b w h =
    let (found, lost) = passes_zeros (suc version) sid n b (omega arith) in
    elim (Option-cases (pass_version (suc version) sid b)) [
      | inl e ↦ inr (rw (lost e, pass) refl, rw (e, pass) refl)
      | inr (c, e) ↦
          let k = pass_version-FrontPassed (suc version) sid b c h e in
          inl (rw (found c e, pass) (rw (e, pass) (clear-behind_zeros n c k)))
    ]

-- Behind any number of copies of version 0, a well-formed barrier whose smallest version has nobody left
-- to wait for moves as it does without them: `new_version` fails or leaves the same barrier, with the
-- copies gone; and so does `pass`, unless it changes neither.
pub moves-behind_zeros :
    (later version sid : ℕ) (servers : List ℕ) (n : ℕ) (b : Barrier)
    → WellFormed b
    → FrontPassed b
    → (new_version later servers (behind_zeros n b) ≡ new_version later servers b)
      × ((pass version sid (behind_zeros n b) ≡ pass version sid b)
          ⊎ ((pass version sid (behind_zeros n b) ≡ behind_zeros n b) × (pass version sid b ≡ b)))
moves-behind_zeros later version sid servers n b w h =
    (new_version-behind_zeros later servers n b h, pass-behind_zeros version sid n b w h)

-- `new_version` and `pass` keep a smallest version that has nobody left to wait for.
pub moves-FrontPassed :
    (version sid : ℕ) (servers : List ℕ) (b : Barrier)
    → FrontPassed b
    → ((c : Barrier) → new_version version servers b ≡ some c → FrontPassed c)
      × FrontPassed (pass version sid b)
moves-FrontPassed version sid servers b h =
    ((λ c e. new_version-FrontPassed version servers b c h e), pass-FrontPassed version sid b h)
