-- ===== src/Tests/Paths.antt =====
-- The path ../b/./c in the directory /a.
use wtf.Prelude.{ℕ, ◌≡◌, refl, some, List, [], ◌∷◌, arith, All}
use wtf.Client.Paths.{without_slash, canon_path}
use wtf.Client.Paths.Names.{render}
use wtf.Client.Paths.Canonical.{Canonical, canon_path-resolve}

abbrev in_a : List (List ℕ)
in_a = (97 ∷ []) ∷ []

abbrev to_c : List ℕ
to_c = 46 ∷ 46 ∷ 47 ∷ 98 ∷ 47 ∷ 46 ∷ 47 ∷ 99 ∷ []

canon_path-resolve_example :
    (canon_path 100 (without_slash (render in_a)) to_c ≡ some (47 ∷ 98 ∷ 47 ∷ 99 ∷ []))
    × All Canonical ((99 ∷ []) ∷ (98 ∷ []) ∷ [])
canon_path-resolve_example =
    canon_path-resolve 100 in_a to_c (((refl, tt), omega arith, refl, refl), tt) (omega arith)
      (omega arith)
