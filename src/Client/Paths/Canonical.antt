-- ===== src/Client/Paths/Canonical.antt =====
-- The path that canon_path gives.
use wtf.Prelude.{
  ℕ, ◌+◌, ◌*◌, ◌<◌, ◌≤◌, ◌≡◌, refl, sym, ap, ◌∙◌, Bool, false, some, List, [], ◌∷◌, ◌++◌, arith,
  ◌==◌, ◌&&◌, not, if◌then◌else◌, length, All, inl, inr, le→ltb, Bool-cases,
}
use mathlib.Core.List.{append_assoc, append-nil}
use wtf.Client.Paths.{slash, path_max, onto, ends_name, without_slash, with_slash, canon_path}
use wtf.Client.Paths.Names.{
  prepend, split, is_here, is_up, parent, enter, resolve, render, Plain, canon_loop-resolve,
  length-onto, length-render,
}

-- A name that a canonical path may have: not empty, with no slash, and neither "." nor "..".
abbrev pub Canonical : List ℕ → Type 0
Canonical n = Plain n × (0 < length n) × (is_here n ≡ false) × (is_up n ≡ false)

-- The names from the root down, each behind a slash; the root is a slash.
abbrev pub absolute : List (List ℕ) → List ℕ
absolute [] = []
absolute (n ∷ st) = absolute st ++ (slash ∷ n)

abbrev pub printed : List (List ℕ) → List ℕ
printed [] = slash ∷ []
printed (n ∷ st) = absolute (n ∷ st)

abbrev pub is_absolute : List ℕ → Bool
is_absolute [] = false
is_absolute (c ∷ rel) = c == slash

prepend-Plain :
    (c : ℕ) (ns : List (List ℕ)) → (c == slash) ≡ false → All Plain ns → All Plain (prepend c ns)
prepend-Plain c [] e p = ((e, tt), tt)
prepend-Plain c (n ∷ ns) e p = ((e, p.0), p.1)

split-Plain : (rel : List ℕ) → All Plain (split rel)
split-Plain [] = (tt, tt)
split-Plain (c ∷ rel) = elim (Bool-cases (c == slash)) [
  | inl e ↦ rw e (tt, split-Plain rel)
  | inr e ↦ rw e (prepend-Plain c (split rel) e (split-Plain rel))
]

parent-Canonical : (st : List (List ℕ)) → All Canonical st → All Canonical (parent st)
parent-Canonical [] p = tt
parent-Canonical (n ∷ st) p = p.1

enter-Canonical :
    (n : List ℕ) (st : List (List ℕ)) → Plain n → All Canonical st → All Canonical (enter n st)
enter-Canonical [] st p q = q
enter-Canonical (c ∷ n) st p q = elim (Bool-cases (is_up (c ∷ n))) [
  | inl u ↦ rw u (parent-Canonical st q)
  | inr u ↦ elim (Bool-cases (is_here (c ∷ n))) [
    | inl d ↦ rw (u, d) q
    | inr d ↦ rw (u, d) ((p, omega arith, d, u), q)
  ]
]

resolve-Canonical :
    (ns st : List (List ℕ)) → All Plain ns → All Canonical st → All Canonical (resolve ns st)
resolve-Canonical [] st p q = q
resolve-Canonical (n ∷ ns) st p q =
    resolve-Canonical ns (enter n st) p.1 (enter-Canonical n st p.0 q)

onto-onto : (n out l : List ℕ) → onto (onto n out) l ≡ onto out (n ++ l)
onto-onto [] out l = refl
onto-onto (c ∷ n) out l = onto-onto n (c ∷ out) l

onto-render : (st : List (List ℕ)) (l : List ℕ) → onto (render st) l ≡ absolute st ++ (slash ∷ l)
onto-render [] l = refl
onto-render (n ∷ st) l =
    onto-onto n (render st) (slash ∷ l)
    ∙ onto-render st (n ++ (slash ∷ l))
    ∙ sym (append_assoc (absolute st) (slash ∷ n) (slash ∷ l))

without_slash-render :
    (n : List ℕ) (st : List (List ℕ)) → without_slash (render (n ∷ st)) ≡ onto n (render st)
without_slash-render n st = ground (arith, length-onto n (render st), length-render st)

onto-printed : (st : List (List ℕ)) → onto (without_slash (render st)) [] ≡ printed st
onto-printed [] = refl
onto-printed (n ∷ st) =
    ap (λ out. onto out []) (without_slash-render n st)
    ∙ onto-onto n (render st) []
    ∙ ap (onto (render st)) (append-nil n)
    ∙ onto-render st n

with_slash-onto :
    (c : ℕ) (n out : List ℕ)
    → (c == slash) ≡ false
    → Plain n
    → with_slash (onto n (c ∷ out)) ≡ slash ∷ onto n (c ∷ out)
with_slash-onto c [] out e p = ground (arith, e)
with_slash-onto c (d ∷ n) out e p = with_slash-onto d n (c ∷ out) p.0 p.1

with_slash-render :
    (st : List (List ℕ)) → All Canonical st → with_slash (without_slash (render st)) ≡ render st
with_slash-render [] p = refl
with_slash-render ([] ∷ st) p = absurd (omega (arith, p.0.1))
with_slash-render ((c ∷ n) ∷ st) p =
    ap with_slash (without_slash-render (c ∷ n) st)
    ∙ with_slash-onto c n (render st) p.0.0.0 p.0.0.1

-- The directory from which a path leads on: the root, or the current one.
abbrev pub from_where : List ℕ → List (List ℕ) → List (List ℕ)
from_where rel at = if is_absolute rel then [] else at

from_where-Canonical :
    (rel : List ℕ) (at : List (List ℕ)) → All Canonical at → All Canonical (from_where rel at)
from_where-Canonical [] at p = p
from_where-Canonical (c ∷ rel) at p = elim (Bool-cases (c == slash)) [
  | inl e ↦ rw e tt
  | inr e ↦ rw e p
]

All-Plain : (st : List (List ℕ)) → All Canonical st → All Plain st
All-Plain [] p = tt
All-Plain (n ∷ st) p = (p.0.0, All-Plain st p.1)

start_of-render :
    (rel : List ℕ) (at : List (List ℕ))
    → All Canonical at
    → (if ends_name rel && not (length rel == 0)
        then slash ∷ []
        else with_slash (without_slash (render at)))
      ≡ render (from_where rel at)
start_of-render [] at p = with_slash-render at p
start_of-render (c ∷ rel) at p = ground (arith, with_slash-render at p)

room-from_where :
    (rel : List ℕ) (at : List (List ℕ)) → length (render (from_where rel at)) ≤ length (render at)
room-from_where [] at = omega arith
room-from_where (c ∷ rel) at = ground (arith, length-render at)

-- For a path of at most PATH_MAX bytes and a current directory of canonical names, whose length and twice
-- the path's stay below the bound, canon_path gives the absolute path of the directory that the path's
-- names lead to, one after another, from the root or the current directory: an empty name and "." stay,
-- ".." goes to the parent (the root's is the root), any other goes down. The names on that path are not
-- empty, have no slash, and are neither "." nor "..".
pub canon_path-resolve :
    (limit : ℕ) (at : List (List ℕ)) (rel : List ℕ)
    → All Canonical at
    → length (render at) + 2 * length rel < limit
    → length rel ≤ path_max
    → let target = resolve (split rel) (from_where rel at) in
      (canon_path limit (without_slash (render at)) rel ≡ some (printed target))
      × All Canonical target
unfolding canon_path
canon_path-resolve limit at rel p room short =
    let from = from_where rel at in
    let q = from_where-Canonical rel at p in
    let k =
      canon_loop-resolve (length rel) limit rel from (All-Plain from q) (omega arith)
        (omega (arith, room-from_where rel at)) in
    (
      rw (canon_path, le→ltb path_max (length rel) short, start_of-render rel at p, k)
          (ap some (onto-printed (resolve (split rel) from))),
      resolve-Canonical (split rel) from (split-Plain rel) q,
    )
