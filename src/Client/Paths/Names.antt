-- ===== src/Client/Paths/Names.antt =====
-- What canon_path makes of a path: the names that are left when "." and ".." are taken away.
use wtf.Prelude.{
  ℕ, zero, suc, ◌+◌, ◌*◌, ◌<◌, ◌≤◌, ◌≡◌, refl, sym, ap, ◌∙◌, Bool, true, false, Option, some, List,
  [], ◌∷◌, arith, ◌==◌, ◌&&◌, if◌then◌else◌, length, All, inl, inr, Bool-cases,
}
use wtf.Client.Paths.{
  slash, dot, onto, is_dotdot, is_dot, copy_name, drop_name, tail, move_back, canon_loop,
}

-- A path, by its names: where it has two slashes together, or one at an end, there is an empty name.
abbrev pub prepend : ℕ → List (List ℕ) → List (List ℕ)
prepend c [] = (c ∷ []) ∷ []
prepend c (n ∷ ns) = (c ∷ n) ∷ ns

abbrev pub split : List ℕ → List (List ℕ)
split [] = [] ∷ []
split (c ∷ rel) = if c == slash then [] ∷ split rel else prepend c (split rel)

abbrev pub is_here : List ℕ → Bool
is_here (a ∷ []) = a == dot
is_here _ = false

abbrev pub is_up : List ℕ → Bool
is_up (a ∷ b ∷ []) = (a == dot) && (b == dot)
is_up _ = false

abbrev pub parent : List (List ℕ) → List (List ℕ)
parent [] = []
parent (n ∷ st) = st

-- A directory, by its names from the deepest one up, and the directory that a name leads to from there.
abbrev pub enter : List ℕ → List (List ℕ) → List (List ℕ)
enter [] st = st
enter (c ∷ n) st = if is_up (c ∷ n) then parent st else if is_here (c ∷ n) then st else (c ∷ n) ∷ st

abbrev pub resolve : List (List ℕ) → List (List ℕ) → List (List ℕ)
resolve [] st = st
resolve (n ∷ ns) st = resolve ns (enter n st)

-- The buffer for a directory, with a slash at the end.
abbrev pub render : List (List ℕ) → List ℕ
render [] = slash ∷ []
render (n ∷ st) = slash ∷ onto n (render st)

abbrev pub Plain : List ℕ → Type 0
Plain = All (λ c. (c == slash) ≡ false)

-- The first name of a path, and what follows it.
abbrev first_name : List ℕ → List ℕ
first_name [] = []
first_name (c ∷ rel) = if c == slash then [] else c ∷ first_name rel

abbrev behind_name : List ℕ → List ℕ
behind_name [] = []
behind_name (c ∷ rel) = if c == slash then c ∷ rel else behind_name rel

abbrev other_names : List ℕ → List (List ℕ)
other_names [] = []
other_names (c ∷ rel) = split rel

split-first : (rel : List ℕ) → split rel ≡ first_name rel ∷ other_names (behind_name rel)
split-first [] = refl
split-first (c ∷ rel) = ground (arith, split-first rel)

first_name-Plain : (rel : List ℕ) → Plain (first_name rel)
first_name-Plain [] = tt
first_name-Plain (c ∷ rel) = ground (arith, first_name-Plain rel)

length-first : (rel : List ℕ) → length (first_name rel) + length (behind_name rel) ≡ length rel
length-first [] = refl
length-first (c ∷ rel) = ground (arith, length-first rel)

resolve-behind :
    (rel : List ℕ) (st : List (List ℕ))
    → resolve (split (behind_name rel)) st ≡ resolve (other_names (behind_name rel)) st
resolve-behind [] st = refl
resolve-behind (c ∷ rel) st = ground (arith, resolve-behind rel st)

is_dotdot-first : (rel : List ℕ) → is_dotdot rel ≡ is_up (first_name rel)
is_dotdot-first [] = refl
is_dotdot-first (a ∷ []) = ground arith
is_dotdot-first (a ∷ b ∷ []) = ground arith
is_dotdot-first (a ∷ b ∷ c ∷ rel) = ground arith

behind-dotdot :
    (a : ℕ) (rel : List ℕ) → is_dotdot (a ∷ rel) ≡ true → behind_name (a ∷ rel) ≡ tail rel
behind-dotdot a [] h = ground (arith, h)
behind-dotdot a (b ∷ []) h = ground (arith, h)
behind-dotdot a (b ∷ c ∷ rel) h = ground (arith, h)

is_dot-first : (rel : List ℕ) → is_dot rel ≡ is_here (first_name rel)
is_dot-first [] = refl
is_dot-first (a ∷ []) = ground arith
is_dot-first (a ∷ b ∷ rel) = ground arith

behind-dot : (a : ℕ) (rel : List ℕ) → is_dot (a ∷ rel) ≡ true → behind_name (a ∷ rel) ≡ rel
behind-dot a [] h = ground (arith, h)
behind-dot a (b ∷ rel) h = ground (arith, h)

pub length-onto : (n out : List ℕ) → length (onto n out) ≡ length n + length out
length-onto [] out = omega arith
length-onto (c ∷ n) out = omega (arith, length-onto n (c ∷ out))

drop_name-onto : (n out : List ℕ) → Plain n → drop_name (onto n out) ≡ drop_name out
drop_name-onto [] out p = refl
drop_name-onto (c ∷ n) out p = ground (arith, drop_name-onto n (c ∷ out) p.1, p.0)

drop_name-render : (st : List (List ℕ)) → drop_name (render st) ≡ render st
drop_name-render [] = refl
drop_name-render (n ∷ st) = refl

pub length-render : (st : List (List ℕ)) → 0 < length (render st)
length-render [] = omega arith
length-render (n ∷ st) = omega arith

move_back-render : (st : List (List ℕ)) → All Plain st → move_back (render st) ≡ render (parent st)
move_back-render [] p = refl
move_back-render (n ∷ st) p = ground (
  arith,
  drop_name-onto n (render st) p.0,
  drop_name-render st,
  length-onto n (render st),
  length-render st,
)

copy_name-first :
    (limit : ℕ) (rel out : List ℕ)
    → length rel + length out < limit
    → copy_name limit rel out ≡ some (behind_name rel, onto (first_name rel) out)
unfolding copy_name
copy_name-first limit [] out h = refl
copy_name-first limit (c ∷ rel) out h = ground (arith, copy_name-first limit rel (c ∷ out))

-- A directory's parent has no longer path, and plain names.
parent-shorter : (st : List (List ℕ)) → length (render (parent st)) ≤ length (render st)
parent-shorter [] = omega arith
parent-shorter (n ∷ st) = omega (arith, length-onto n (render st))

parent-Plain : (st : List (List ℕ)) → All Plain st → All Plain (parent st)
parent-Plain [] p = tt
parent-Plain (n ∷ st) p = p.1

tail-shorter : (rel : List ℕ) → length (tail rel) ≤ length rel
tail-shorter [] = omega arith
tail-shorter (c ∷ rel) = omega arith

resolve-first :
    (rel : List ℕ) (st : List (List ℕ))
    → resolve (split rel) st ≡ resolve (split (behind_name rel)) (enter (first_name rel) st)
resolve-first rel st =
    ap (λ ns. resolve ns st) (split-first rel)
    ∙ sym (resolve-behind rel (enter (first_name rel) st))

enter-up :
    (c : ℕ) (rel : List ℕ) (st : List (List ℕ))
    → (c == slash) ≡ false
    → is_dotdot (c ∷ rel) ≡ true
    → enter (first_name (c ∷ rel)) st ≡ parent st
enter-up c rel st e u = ground (arith, e, u, is_dotdot-first (c ∷ rel))

enter-here :
    (c : ℕ) (rel : List ℕ) (st : List (List ℕ))
    → (c == slash) ≡ false
    → is_dotdot (c ∷ rel) ≡ false
    → is_dot (c ∷ rel) ≡ true
    → enter (first_name (c ∷ rel)) st ≡ st
enter-here c rel st e u d =
    ground (arith, e, u, d, is_dotdot-first (c ∷ rel), is_dot-first (c ∷ rel))

enter-name :
    (c : ℕ) (rel : List ℕ) (st : List (List ℕ))
    → (c == slash) ≡ false
    → is_dotdot (c ∷ rel) ≡ false
    → is_dot (c ∷ rel) ≡ false
    → enter (first_name (c ∷ rel)) st ≡ first_name (c ∷ rel) ∷ st
enter-name c rel st e u d =
    ground (arith, e, u, d, is_dotdot-first (c ∷ rel), is_dot-first (c ∷ rel))

-- The path at a name, where the loop goes on behind it in the directory that the name leads to.
resolve-on :
    (c : ℕ) (rel rest : List ℕ) (st st' : List (List ℕ)) (o : Option (List ℕ))
    → behind_name (c ∷ rel) ≡ rest
    → enter (first_name (c ∷ rel)) st ≡ st'
    → o ≡ some (render (resolve (split rest) st'))
    → o ≡ some (render (resolve (split (c ∷ rel)) st))
resolve-on c rel rest st st' o b e h =
    h
    ∙ ap (λ d. some (render d))
        (sym (
          resolve-first (c ∷ rel) st
          ∙ ap (λ r. resolve (split r) (enter (first_name (c ∷ rel)) st)) b
          ∙ ap (resolve (split rest)) e))

pub canon_loop-resolve :
    (fuel limit : ℕ) (rel : List ℕ) (st : List (List ℕ))
    → All Plain st
    → length rel ≤ fuel
    → length (render st) + 2 * length rel < limit
    → canon_loop fuel limit rel (render st) ≡ some (render (resolve (split rel) st))
unfolding canon_loop
canon_loop-resolve fuel limit [] st p h room = refl
canon_loop-resolve zero limit (c ∷ rel) st p h room = absurd (omega (arith, h))
canon_loop-resolve (suc fuel) limit (c ∷ rel) st p h room = elim (Bool-cases (c == slash)) [
  | inl e ↦ rw e (canon_loop-resolve fuel limit rel st p (omega arith) (omega arith))
  | inr e ↦ elim (Bool-cases (is_dotdot (c ∷ rel))) [
    | inl u ↦
        let k = tail-shorter rel in
        let ih =
          canon_loop-resolve fuel limit (tail rel) (parent st) (parent-Plain st p) (omega arith)
            (omega (arith, parent-shorter st, k)) in
        resolve-on c rel (tail rel) st (parent st) _ (behind-dotdot c rel u) (enter-up c rel st e u)
          (ground (arith, e, u, move_back-render st p, ih))
    | inr u ↦ elim (Bool-cases (is_dot (c ∷ rel))) [
      | inl d ↦ resolve-on c rel rel st st _ (behind-dot c rel d) (enter-here c rel st e u d) (
          ground
            (arith, e, u, d, canon_loop-resolve fuel limit rel st p (omega arith) (omega arith)))
      | inr d ↦
          let name = first_name (c ∷ rel) in
          let rest = behind_name (c ∷ rel) in
          let l = length-first (c ∷ rel) in
          let n : 0 < length name = ground (arith, e) in
          let ih =
            canon_loop-resolve fuel limit rest (name ∷ st) (first_name-Plain (c ∷ rel), p)
              (omega (arith, l, n)) (omega (arith, l, n, length-onto name (render st))) in
          resolve-on c rel rest st (name ∷ st) _ refl (enter-name c rel st e u d) (
            ground (
              arith,
              e,
              u,
              d,
              copy_name-first limit (c ∷ rel) (render st) (omega (arith, room)),
              ih,
            ))
    ]
  ]
]
