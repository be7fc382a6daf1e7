-- ===== src/IntervalMap/Tiles.antt =====
-- Maps whose blocks lie end to end: the shape of every file that was written without a gap.
use wtf.Prelude.{ℕ, ◌+◌, ◌<◌, ◌≤◌, ◌≡◌, refl, none, some, [], ◌∷◌, arith, dec_lt}
use wtf.OrdMap.{lower_bound, before}
use wtf.IntervalMap.{Slice, SliceMap}

-- Each block starts where the one before it ends, the first at `k`. Only the last may be empty.
abbrev pub Tiles : ℕ → SliceMap → Type 0
Tiles k [] = Unit {0}
Tiles k ((j, s) ∷ []) = j ≡ k
Tiles k ((j, s) ∷ e ∷ r) = (j ≡ k) × (0 < s.length) × Tiles (k + s.length) (e ∷ r)

-- Where the last block ends.
abbrev pub extent : ℕ → SliceMap → ℕ
extent k [] = k
extent k ((j, s) ∷ r) = extent (k + s.length) r

pub le-extent : (k : ℕ) (m : SliceMap) → k ≤ extent k m
le-extent k [] = omega arith
le-extent k ((j, s) ∷ r) = omega (arith, le-extent (k + s.length) r)

pub Tiles-tail : (k : ℕ) (e : ℕ × Slice) (r : SliceMap) → Tiles k (e ∷ r) → Tiles (k + e.1.length) r
Tiles-tail k e [] t = tt
Tiles-tail k e (f ∷ r) t = t.2

pub Tiles-head : (k : ℕ) (e : ℕ × Slice) (r : SliceMap) → Tiles k (e ∷ r) → e.0 ≡ k
Tiles-head k e [] t = t
Tiles-head k e (f ∷ r) t = t.0

-- No block of the map starts below `k`.
pub before-Tiles : (a k : ℕ) (m : SliceMap) → Tiles k m → a ≤ k → before a m ≡ none
before-Tiles a k [] t h = refl
before-Tiles a k (e ∷ r) t h = ground (arith, Tiles-head k e r t)

pub lower_bound-Tiles : (a k : ℕ) (m : SliceMap) → Tiles k m → a ≤ k → lower_bound a m ≡ m
lower_bound-Tiles a k [] t h = refl
lower_bound-Tiles a k (e ∷ r) t h = ground (arith, Tiles-head k e r t)

-- A block that starts below `a` is found, and starts at `k` or later.
pub before-found :
    (a k : ℕ) (e : ℕ × Slice) (r : SliceMap)
    → Tiles k (e ∷ r)
    → k < a
    → (f : ℕ × Slice) × (before a (e ∷ r) ≡ some f) × (k ≤ f.0)
before-found a k e [] t h = (e, ground arith, omega arith)
before-found a k (j, s) (f ∷ r) t h = elim (dec_lt (k + s.length) a) [
  | yes x ↦
      let (g, p, q) = before-found a (k + s.length) f r t.2 x in (g, ground arith, omega arith)
  | no x ↦ ((j, s), ground (arith, before-Tiles a (k + s.length) (f ∷ r) t.2), omega arith)
]
