-- ===== src/IntervalMap/Truncate.antt =====
-- `truncate` and `length` on end-to-end blocks.
use wtf.Prelude.{
  ℕ, suc, ◌+◌, ◌-◌, ◌<◌, ◌≤◌, ◌≡◌, refl, none, [], ◌∷◌, arith, ltb, if◌then◌else◌, dec_lt, min,
  word, add64, sub64, add64_exact, sub64_exact,
}
use wtf.OrdMap.{assign, erase_above}
use wtf.IntervalMap.{Slice, SliceMap, truncate, file_length}
use wtf.IntervalMap.Tiles.{
  Tiles, extent, le-extent, Tiles-tail, Tiles-head, before-Tiles, before-found,
}
use wtf.IntervalMap.Reads.{read}

-- On end-to-end blocks from `k` that stay below 2 ^ 64, `length` is where the last block ends, and 0
-- where there is none.
length-from :
    (k : ℕ) (e : ℕ × Slice) (m : SliceMap)
    → Tiles k (e ∷ m)
    → extent k (e ∷ m) < word
    → file_length (e ∷ m) ≡ extent k (e ∷ m)
unfolding file_length
length-from k (j, s) [] t w = ground (arith, add64_exact k s.length)
length-from k (j, s) (f ∷ r) t w = length-from (k + s.length) f r t.2 w

-- On end-to-end blocks from address 0 that stay below 2 ^ 64, `length` is the address where the last
-- block ends.
pub length-extent : (m : SliceMap) → Tiles 0 m → extent 0 m < word → file_length m ≡ extent 0 m
unfolding file_length
length-extent [] t w = refl
length-extent (e ∷ r) t w = length-from 0 e r t w

-- The blocks below `n`, the last one cut there, in one pass.
keep : ℕ → SliceMap → SliceMap
keep n [] = []
keep n ((k, s) ∷ r) =
    let rest = keep n r in
    if ltb n (k + s.length) then (k, record s { length = n - k }) ∷ [] else (k, s) ∷ rest

abbrev cut_from : ℕ → ℕ → Slice → SliceMap → SliceMap
cut_from n k s m =
    erase_above n
      (if ltb n (add64 k s.length) then assign k (record s { length = sub64 n k }) m else m)

cut_from-past :
    (n k j : ℕ) (s u : Slice) (r : SliceMap)
    → k < j
    → k ≤ n
    → cut_from n j u ((k, s) ∷ r) ≡ (k, s) ∷ cut_from n j u r
cut_from-past n k j s u r h g = ground arith

truncate-past :
    (n k : ℕ) (s : Slice) (f : ℕ × Slice) (r : SliceMap)
    → Tiles k ((k, s) ∷ f ∷ r)
    → k + s.length ≤ n
    → truncate n ((k, s) ∷ f ∷ r) ≡ (k, s) ∷ truncate n (f ∷ r)
unfolding truncate
truncate-past n k s f r t h =
    let (e, p, q) = before-found (suc n) (k + s.length) f r t.2 (omega arith) in
    ground (arith, cut_from-past n k e.0 s e.1 (f ∷ r))

truncate-here :
    (n k : ℕ) (s : Slice) (r : SliceMap)
    → Tiles (k + s.length) r
    → k ≤ n
    → n < k + s.length
    → extent (k + s.length) r < word
    → truncate n ((k, s) ∷ r) ≡ (k, record s { length = n - k }) ∷ []
unfolding truncate
truncate-here n k s [] t h g w = ground (arith, add64_exact k s.length, sub64_exact n k)
truncate-here n k s (f ∷ r) t h g w = ground (
  arith,
  add64_exact k s.length,
  sub64_exact n k,
  le-extent (k + s.length) (f ∷ r),
  before-Tiles (suc n) (k + s.length) (f ∷ r) t,
  Tiles-head (k + s.length) f r t,
)

truncate-keep :
    (n k : ℕ) (e : ℕ × Slice) (r : SliceMap)
    → Tiles k (e ∷ r)
    → k ≤ n
    → extent k (e ∷ r) < word
    → truncate n (e ∷ r) ≡ keep n (e ∷ r)
unfolding keep
truncate-keep n k (j, s) [] t h w = elim (dec_lt n (k + s.length)) [
  | yes x ↦ rw t (rw (truncate-here n k s [] tt h x w) (ground arith))
  | no x ↦ unfold truncate in ground (arith, add64_exact k s.length)
]
truncate-keep n k (j, s) (f ∷ r) t h w = elim (dec_lt n (k + s.length)) [
  | yes x ↦ rw t.0 (rw (truncate-here n k s (f ∷ r) t.2 h x w) (ground arith))
  | no x ↦ rw t.0 (
      rw (truncate-past n k s f r (refl, t.1, t.2) (omega arith))
        (ground (arith, truncate-keep n (k + s.length) f r t.2)))
]

keep-Tiles : (n k : ℕ) (m : SliceMap) → Tiles k m → k ≤ n → Tiles k (keep n m)
unfolding keep
keep-Tiles n k [] t h = tt
keep-Tiles n k ((j, s) ∷ []) t h = ground arith
keep-Tiles n k ((j, s) ∷ f ∷ r) t h = ground (arith, keep-Tiles n (k + s.length) (f ∷ r) t.2)

extent-keep :
    (n k : ℕ) (m : SliceMap) → Tiles k m → k ≤ n → extent k (keep n m) ≡ min n (extent k m)
unfolding keep
extent-keep n k [] t h = omega arith
extent-keep n k ((j, s) ∷ r) t h =
    ground
      (arith, extent-keep n (k + s.length) r (Tiles-tail k (j, s) r t), le-extent (k + s.length) r)

read-keep :
    (n k x : ℕ) (m : SliceMap)
    → Tiles k m
    → k ≤ n
    → read (keep n m) x ≡ (if ltb x n then read m x else none)
unfolding keep
read-keep n k x [] t h = ground arith
read-keep n k x ((j, s) ∷ r) t h =
    ground
      (arith, Tiles-head k (j, s) r t, read-keep n (k + s.length) x r (Tiles-tail k (j, s) r t))

truncate-keep_all : (n : ℕ) (m : SliceMap) → Tiles 0 m → extent 0 m < word → truncate n m ≡ keep n m
unfolding keep truncate
truncate-keep_all n [] t w = refl
truncate-keep_all n (e ∷ r) t w = truncate-keep n 0 e r t (omega arith) w

-- On end-to-end blocks from address 0 that stay below 2 ^ 64, `truncate` leaves end-to-end blocks,
-- which end at `n` or at the old end, whichever is smaller.
pub truncate-Tiles :
    (n : ℕ) (m : SliceMap)
    → Tiles 0 m
    → extent 0 m < word
    → Tiles 0 (truncate n m) × (extent 0 (truncate n m) ≡ min n (extent 0 m))
truncate-Tiles n m t w =
    rw (truncate-keep_all n m t w)
      (keep-Tiles n 0 m t (omega arith), extent-keep n 0 m t (omega arith))

-- After `truncate` on end-to-end blocks from address 0 that stay below 2 ^ 64, every address below `n`
-- reads as before, and no other address reads as anything.
pub read-truncate :
    (n x : ℕ) (m : SliceMap)
    → Tiles 0 m
    → extent 0 m < word
    → read (truncate n m) x ≡ (if ltb x n then read m x else none)
read-truncate n x m t w = rw (truncate-keep_all n m t w) (read-keep n 0 x m t (omega arith))
