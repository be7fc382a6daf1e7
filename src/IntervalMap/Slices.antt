-- ===== src/IntervalMap/Slices.antt =====
-- `get_slices` on end-to-end blocks: the slices that it returns, read one after the other, are the
-- requested addresses.
use wtf.Prelude.{
  ℕ, ◌+◌, ◌-◌, ◌<◌, ◌≤◌, ◌≡◌, ◌⊎◌, inl, inr, refl, Option, none, some, List, [], ◌∷◌, arith, ltb,
  leb, if◌then◌else◌, dec_lt, All, word, add64_exact, sub64_exact,
}
use wtf.IntervalMap.{
  BlockLocation, Slice, SliceMap, clip, collect, slice_of_last, get_blocks, get_slices,
}
use wtf.IntervalMap.Tiles.{
  Tiles, extent, le-extent, Tiles-tail, Tiles-head, before-Tiles, before-found, lower_bound-Tiles,
}
use wtf.IntervalMap.Reads.{read}

-- Byte `y` of the slices, one after the other.
abbrev pub nth_byte : List Slice → ℕ → Option (List BlockLocation × ℕ)
nth_byte [] y = none
nth_byte (s ∷ l) y =
    if ltb y s.length then some (s.location, s.offset + y) else nth_byte l (y - s.length)

-- No place inside a stored block passes 2 ^ 64.
abbrev pub Fits : SliceMap → Type 0
Fits = All (λ e. e.1.offset + e.1.length < word)

abbrev until : ℕ → ℕ → SliceMap → Option (List BlockLocation × ℕ)
until e x m = if ltb x e then read m x else none

module _ (a n : ℕ) (fits : a + n < word) where
  clip_later :
      (k : ℕ) (s : Slice)
      → a ≤ k
      → k ≤ a + n
      → k + s.length < word
      → clip a n k s
        ≡ record s { length = if leb (k + s.length) (a + n) then s.length else a + n - k }
  unfolding clip
  clip_later k s h g w =
      ground (arith, add64_exact a n, add64_exact k s.length, sub64_exact (a + n) k)

  clip_first :
      (k : ℕ) (s : Slice)
      → k < a
      → a < k + s.length
      → k + s.length < word
      → s.offset + s.length < word
      → clip a n k s ≡ record s { offset = s.offset + (a - k); length = k + s.length - a }
  unfolding clip
  clip_first k s h g w z = ground (
    arith,
    add64_exact k s.length,
    sub64_exact a k,
    sub64_exact (k + s.length) a,
    add64_exact (a - k) s.offset,
  )

  -- The branch of the loop for a request that lies within the block.
  collect_within :
      (k : ℕ) (s : Slice) (r : SliceMap)
      → k ≤ a
      → k < a + n
      → a + n ≤ k + s.length
      → k + s.length < word
      → s.offset + s.length < word
      → collect a n ((k, s) ∷ r) ≡ record s { offset = s.offset + (a - k); length = n } ∷ []
  unfolding collect
  collect_within k s r h p g w z = ground (
    arith,
    add64_exact a n,
    add64_exact k s.length,
    sub64_exact a k,
    add64_exact (a - k) s.offset,
  )

  collect_across :
      (k : ℕ) (s : Slice) (r : SliceMap)
      → k < a + n
      → k + s.length < word
      → (a < k) ⊎ (k + s.length < a + n)
      → collect a n ((k, s) ∷ r) ≡ clip a n k s ∷ collect a n r
  unfolding collect
  collect_across k s r h w o = ground (arith, add64_exact a n, add64_exact k s.length)

  -- The loop stops at a block behind the request.
  collect_past : (k : ℕ) (r : SliceMap) → Tiles k r → a + n ≤ k → collect a n r ≡ []
  unfolding collect
  collect_past k [] t h = refl
  collect_past k ((j, s) ∷ r) t h = ground (arith, Tiles-head k (j, s) r t, add64_exact a n)

  -- One round, at a block that starts within the request, from the rounds that follow.
  collect_round :
      (k y : ℕ) (s : Slice) (r : SliceMap)
      → Tiles (k + s.length) r
      → s.offset + s.length < word
      → k + s.length < word
      → a ≤ k
      → k < a + n
      → (k + s.length ≤ a + n
          → nth_byte (collect a n r) (y - s.length)
            ≡ until (a + n) (k + s.length + (y - s.length)) r)
      → nth_byte (collect a n ((k, s) ∷ r)) y ≡ until (a + n) (k + y) ((k, s) ∷ r)
  collect_round k y s r t z w h g ih = elim (dec_lt a k) [
    | yes later ↦ ground (
      arith,
      collect_across k s r g w (inl later),
      clip_later k s h,
      collect_past (k + s.length) r t,
      ih,
    )
    | no same ↦ elim (dec_lt (k + s.length) (a + n)) [
      | yes short ↦ ground (arith, collect_across k s r g w (inr short), clip_later k s h, ih)
      | no whole ↦ ground (arith, collect_within k s r)
    ]
  ]

  -- The loop from a block that starts at the requested address or later.
  collect-later :
      (k y : ℕ) (m : SliceMap)
      → Tiles k m
      → Fits m
      → extent k m < word
      → a ≤ k
      → k ≤ a + n
      → a + n ≤ extent k m
      → nth_byte (collect a n m) y ≡ until (a + n) (k + y) m
  collect-later k y [] t z w h g x = rw (collect_past k [] tt (omega arith)) (ground arith)
  collect-later k y ((j, s) ∷ r) t z w h g x =
      let start = Tiles-head k (j, s) r t in
      let rest = Tiles-tail k (j, s) r t in
      let below : k + s.length < word = omega (arith, le-extent (k + s.length) r) in
      let ih = λ (p : k + s.length ≤ a + n).
        collect-later (k + s.length) (y - s.length) r rest z.1 w (omega arith) p x in
      elim (dec_lt k (a + n)) [
        | yes p ↦ rw start (collect_round k y s r rest z.0 below h p ih)
        | no p ↦ rw (collect_past k ((j, s) ∷ r) t (omega arith)) (ground arith)
      ]

  -- The loop from the block that the request starts in.
  collect-first :
      (k y : ℕ) (s : Slice) (r : SliceMap)
      → Tiles (k + s.length) r
      → Fits ((k, s) ∷ r)
      → extent (k + s.length) r < word
      → k ≤ a
      → a < k + s.length
      → 0 < n
      → a + n ≤ extent (k + s.length) r
      → nth_byte (collect a n ((k, s) ∷ r)) y ≡ until (a + n) (a + y) ((k, s) ∷ r)
  collect-first k y s r t z w h g pos x =
      let below : k + s.length < word = omega (arith, le-extent (k + s.length) r) in
      let later = λ (p : k + s.length ≤ a + n).
        collect-later (k + s.length) (y - (k + s.length - a)) r t z.1 w (omega arith) p x in
      elim (dec_lt (k + s.length) (a + n)) [
        | yes short ↦ elim (dec_lt k a) [
          | yes l ↦
              ground
                (arith, collect_across k s r (omega arith) below (inr short), clip_first k s, later)
          | no e ↦
              ground
                (arith, collect_across k s r (omega arith) below (inr short), clip_later k s, later)
        ]
        | no whole ↦ ground (arith, collect_within k s r)
      ]

  -- One block that ends before the request does not matter to the iterators.
  get_blocks-past :
      (k : ℕ) (s : Slice) (f : ℕ × Slice) (r : SliceMap)
      → Tiles k ((k, s) ∷ f ∷ r)
      → k + s.length ≤ a
      → get_blocks a n ((k, s) ∷ f ∷ r) ≡ get_blocks a n (f ∷ r)
  unfolding get_blocks
  get_blocks-past k s f r t h = elim (dec_lt (k + s.length) a) [
    | yes l ↦ let (e, p, q) = before-found a (k + s.length) f r t.2 l in ground arith
    | no b ↦ ground (arith, Tiles-head (k + s.length) f r t.2)
  ]

  get_blocks-here :
      (k : ℕ) (s : Slice) (r : SliceMap)
      → Tiles (k + s.length) r
      → k + s.length < word
      → s.offset + s.length < word
      → k ≤ a
      → a < k + s.length
      → a + n ≤ extent (k + s.length) r
      → 0 < n
      → get_blocks a n ((k, s) ∷ r) ≡ collect a n ((k, s) ∷ r)
  unfolding get_blocks slice_of_last
  get_blocks-here k s [] t w z h g x pos = ground (
    arith,
    collect_within k s [],
    add64_exact k s.length,
    sub64_exact a k,
    add64_exact (a - k) s.offset,
  )
  get_blocks-here k s (f ∷ r) t w z h g x pos = ground (
    arith,
    lower_bound-Tiles a (k + s.length) (f ∷ r) t,
    Tiles-head (k + s.length) f r t,
    before-Tiles a (k + s.length) (f ∷ r) t,
  )

  get_blocks-read :
      (k y : ℕ) (e : ℕ × Slice) (r : SliceMap)
      → Tiles k (e ∷ r)
      → Fits (e ∷ r)
      → extent k (e ∷ r) < word
      → k ≤ a
      → 0 < n
      → a + n ≤ extent k (e ∷ r)
      → nth_byte (get_blocks a n (e ∷ r)) y ≡ until (a + n) (a + y) (e ∷ r)
  get_blocks-read k y (j, s) [] t z w h pos x = rw t (
      rw (get_blocks-here k s [] tt w z.0 h (omega arith) x pos)
        (collect-first k y s [] tt z w h (omega arith) pos x))
  get_blocks-read k y (j, s) (f ∷ r) t z w h pos x = elim (dec_lt a (k + s.length)) [
    | yes l ↦
        let below : k + s.length < word = omega (arith, le-extent (k + s.length) (f ∷ r)) in
        rw t.0 (
          rw (get_blocks-here k s (f ∷ r) t.2 below z.0 h l x pos)
            (collect-first k y s (f ∷ r) t.2 z w h l pos x))
    | no l ↦
        let ih = get_blocks-read (k + s.length) y f r t.2 z.1 w (omega arith) pos x in
        rw t.0 (rw (get_blocks-past k s f r (refl, t.1, t.2) (omega arith)) (ground (arith, ih)))
  ]

-- On end-to-end blocks from address 0 that stay below 2 ^ 64, each of which is read from an offset that
-- with its length stays below 2 ^ 64, and for a request of n > 0 bytes
-- from address a that ends within the file, the slices that `get_slices` returns hold, one after
-- the other, for each y the byte that address a + y reads as, up to y = n - 1, and nothing more.
pub get_slices-read :
    (a n y : ℕ) (m : SliceMap)
    → Tiles 0 m
    → Fits m
    → extent 0 m < word
    → 0 < n
    → a + n ≤ extent 0 m
    → nth_byte (get_slices a n m) y ≡ (if ltb y n then read m (a + y) else none)
unfolding get_slices
get_slices-read a n y [] t z w pos x = ground arith
get_slices-read a n y (e ∷ r) t z w pos x =
    ground (arith, get_blocks-read a n (omega arith) 0 y e r t z w (omega arith) pos x)
