-- ===== src/Client/Paths.antt =====
-- client::canon_path of client/client.cc. The buffer is the list of its bytes, the last one first.
pub mod Names
pub mod Canonical
use wtf.Prelude.{
  ℕ, zero, suc, ◌+◌, ◌*◌, ◌<◌, ◌≤◌, ◌≡◌, refl, sym, ap, ◌∙◌, Bool, true, false, Option, none, some,
  List, [], ◌∷◌, ◌++◌, arith, ltb, ◌==◌, ◌&&◌, ◌||◌, not, if◌then◌else◌, length, All, inl, inr,
  Bool-cases,
}

abbrev pub slash : ℕ
slash = 47

abbrev pub dot : ℕ
dot = 46

-- The bytes of `name` behind a buffer.
abbrev pub onto : List ℕ → List ℕ → List ℕ
onto [] out = out
onto (c ∷ name) out = onto name (c ∷ out)

-- Does the path go on behind a name?
abbrev pub ends_name : List ℕ → Bool
ends_name [] = true
ends_name (c ∷ rel) = c == slash

-- `rel` starts with ".." or with "." as a whole name.
abbrev pub is_dotdot : List ℕ → Bool
is_dotdot (a ∷ b ∷ rel) = a == dot && (b == dot && ends_name rel)
is_dotdot _ = false

abbrev pub is_dot : List ℕ → Bool
is_dot (a ∷ rel) = a == dot && ends_name rel
is_dot [] = false

-- The copy of a name, up to the next slash: what remains of `rel`, and the buffer; `none` where the
-- buffer is full.
unfoldable pub copy_name : ℕ → List ℕ → List ℕ → Option (List ℕ × List ℕ)
copy_name limit [] out = some ([], out)
copy_name limit (c ∷ rel) out =
    let rest = copy_name limit rel (c ∷ out) in
    if c == slash then some (c ∷ rel, out) else if length (c ∷ out) == limit then none else rest

-- `while ((--abspath)[-1] != '/')`, behind the first step.
abbrev pub drop_name : List ℕ → List ℕ
drop_name [] = []
drop_name (c ∷ out) = if c == slash then c ∷ out else drop_name out

abbrev pub tail : List ℕ → List ℕ
tail [] = []
tail (c ∷ out) = out

-- "don't go back past the root directory"
abbrev pub move_back : List ℕ → List ℕ
move_back out = if length out == 1 then out else drop_name (tail out)

-- The loop over `rel`; `none` where the path is too long, or fuel runs out.
unfoldable pub canon_loop : ℕ → ℕ → List ℕ → List ℕ → Option (List ℕ)
unfolding copy_name
canon_loop fuel limit [] out = some out
canon_loop zero limit (c ∷ rel) out = none
canon_loop (suc fuel) limit (c ∷ rel) out =
    if c == slash
    then canon_loop fuel limit rel out
    else if is_dotdot (c ∷ rel)
    then canon_loop fuel limit (tail rel) (move_back out)
    else if is_dot (c ∷ rel)
    then canon_loop fuel limit rel out
    else elim (copy_name limit (c ∷ rel) out) [
      | none ↦ none
      | some (rest, out') ↦ canon_loop fuel limit rest (slash ∷ out')
    ]

-- The slash at the end goes, but for the root's.
abbrev pub without_slash : List ℕ → List ℕ
without_slash [] = []
without_slash (c ∷ out) = if (c == slash) && not (length (c ∷ out) == 1) then out else c ∷ out

abbrev pub with_slash : List ℕ → List ℕ
with_slash [] = slash ∷ []
with_slash (c ∷ out) = if c == slash then c ∷ out else slash ∷ c ∷ out

-- `PATH_MAX`
abbrev pub path_max : ℕ
path_max = 4096

-- `canon_path`, with the bound `abspath_sz - 2` and the current directory as `getcwd` leaves it in the
-- buffer, which it has to fit. The bound is only tested for equality, as in the code; behind it the code
-- writes outside the buffer.
unfoldable pub canon_path : ℕ → List ℕ → List ℕ → Option (List ℕ)
unfolding canon_loop
canon_path limit cwd rel =
    let start = (if ends_name rel && not (length rel == 0) then slash ∷ [] else with_slash cwd) in
    let walk = canon_loop (length rel) limit rel start in
    if ltb path_max (length rel)
    then none
    else elim walk [ none ↦ none | some out ↦ some (onto (without_slash out) []) ]
