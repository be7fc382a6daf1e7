-- ===== src/Tests/Barriers.antt =====
-- A barrier of three versions: the first is through, the others wait for servers.
use wtf.Prelude.{◌≤◌, ◌≡◌, refl, false, some, [], ◌∷◌, arith}
use wtf.Barrier.{Barrier, new_version, pass, min_version}
use wtf.Barrier.Waiting.{waits_for}
use wtf.Barrier.Order.{WellFormed, new_version-WellFormed, pass-WellFormed}
use wtf.Barrier.Progress.{waits_for-pass, pass-through}

abbrev three_versions : Barrier
three_versions = (3, []) ∷ (5, 7 ∷ 8 ∷ []) ∷ (6, 7 ∷ []) ∷ []

abbrev three_versions-WellFormed : WellFormed three_versions
three_versions-WellFormed = ((omega arith, (omega arith, tt)), (refl, (refl, tt)))

abbrev with_nine : Barrier
with_nine = (3, []) ∷ (5, 7 ∷ 8 ∷ []) ∷ (6, 7 ∷ []) ∷ (9, 8 ∷ []) ∷ []

added : new_version 9 (8 ∷ []) three_versions ≡ some with_nine
unfolding new_version
added = refl

new_version-WellFormed_example :
    WellFormed with_nine × (min_version three_versions ≤ min_version with_nine)
new_version-WellFormed_example =
    new_version-WellFormed 9 (8 ∷ []) three_versions with_nine three_versions-WellFormed added

pass-WellFormed_example :
    WellFormed (pass 6 7 three_versions)
    × (min_version three_versions ≤ min_version (pass 6 7 three_versions))
pass-WellFormed_example = pass-WellFormed 6 7 three_versions three_versions-WellFormed

waits_for-pass_example : waits_for 6 7 (pass 6 7 three_versions) ≡ false
waits_for-pass_example =
    waits_for-pass 6 7 6 7 three_versions three_versions-WellFormed
      (unfold pass min_version in omega arith)

-- Version 6 waits for server 7 only.
pass-through_example : 6 ≤ min_version (pass 6 7 three_versions)
pass-through_example =
    pass-through 6 7 three_versions three_versions-WellFormed refl (λ y h. ground (arith, h))
