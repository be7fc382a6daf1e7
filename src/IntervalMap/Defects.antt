-- ===== src/IntervalMap/Defects.antt =====
-- Inputs on which `insert` does not do what a write means to do.
use wtf.Prelude.{
  ℕ, ◌+◌, ◌*◌, ◌-◌, ◌<◌, ◌≡◌, ◌≢◌, refl, some, List, [], ◌∷◌, ◌++◌, arith, word, add64_exact,
  sub64_exact,
}
use wtf.OrdMap.{insert_new}
use wtf.OrdMap.Append.{Below, Below-mono, lower_bound-append, before-append, insert_new-append}
use wtf.IntervalMap.{
  BlockLocation, Slice, SliceMap, new_slice, insert, insert_interval, make_room, into_blocks,
  after_last,
}
use wtf.IntervalMap.Tiles.{Tiles, extent, le-extent, Tiles-head}
use wtf.IntervalMap.Room.{trim}
use wtf.IntervalMap.Splice.{splice, written, insert-splice}
use wtf.IntervalMap.Reads.{read}

shifted :
    (n e : ℕ) (v s : Slice) (r : SliceMap)
    → 0 < n
    → n < s.length
    → e ≡ n
    → v.length ≡ n
    → Tiles 0 ((0, s) ∷ r)
    → read (splice 0 e v ((0, s) ∷ r)) n ≡ some (s.location, n)
unfolding splice trim
shifted n e v s [] pos h q z t = ground arith
shifted n e v s (f ∷ r) pos h q z t = ground (arith, Tiles-head (0 + s.length) f r t.2)

-- A write of the first n > 0 bytes of a first block that is longer and is not read from its start
-- (on end-to-end blocks from address 0 that stay below 2 ^ 64) changes what address n reads as,
-- though address n is not written.
pub insert_loses_offset :
    (n : ℕ) (l : List BlockLocation) (s : Slice) (r : SliceMap)
    → 0 < n
    → n < s.length
    → s.offset ≢ 0
    → Tiles 0 ((0, s) ∷ r)
    → extent 0 ((0, s) ∷ r) < word
    → read (insert 0 n l ((0, s) ∷ r)) n ≢ read ((0, s) ∷ r) n
insert_loses_offset n l s r pos h o t w e =
    let fits : 0 + n < word = omega (arith, le-extent (0 + s.length) r) in
    let after : read (insert 0 n l ((0, s) ∷ r)) n ≡ some (s.location, n) =
      rw (insert-splice 0 n l ((0, s) ∷ r) pos fits t (omega arith) w)
        (shifted n (0 + n) (written n l) s r pos h (omega arith) refl t) in
    let before : read ((0, s) ∷ r) n ≡ some (s.location, s.offset + n) = ground arith in
    o (ground (arith, after, before, e))

-- The filler that `insert` puts between the end of the last block and a write behind it.
abbrev pub filler : ℕ → ℕ → Slice → Slice
filler a k s = record new_slice { length = a - k + s.length }

after_last-gap :
    (a n k : ℕ) (s : Slice) (p : SliceMap)
    → Below k p
    → k + s.length < a
    → a + s.length < word
    → after_last k s a n (p ++ (k, s) ∷ [])
      ≡ insert_new (k + s.length) (filler a k s) (p ++ (k, s) ∷ [])
unfolding after_last
after_last-gap a n k s p b h w =
    ground (arith, add64_exact k s.length, sub64_exact a k, add64_exact (a - k) s.length)

into_blocks-gap :
    (a n k : ℕ) (s : Slice) (p : SliceMap)
    → Below k p
    → k + s.length < a
    → a + s.length < word
    → into_blocks a n (p ++ (k, s) ∷ [])
      ≡ insert_new (k + s.length) (filler a k s) (p ++ (k, s) ∷ [])
unfolding into_blocks
into_blocks-gap a n k s p b h w = ground (
  arith,
  lower_bound-append a p ((k, s) ∷ []) (Below-mono {j = k} p (omega arith) b),
  before-append a k s p [] b,
  after_last-gap a n k s p b,
)

make_room-cons :
    (a n : ℕ) (p : SliceMap) (e : ℕ × Slice)
    → make_room a n (p ++ e ∷ []) ≡ into_blocks a n (p ++ e ∷ [])
unfolding make_room
make_room-cons a n [] e = refl
make_room-cons a n (x ∷ p) e = refl

-- A write at `a` behind the end of the last block `(k, s)`, which is not empty, leaves a filler at
-- that end whose length is larger by twice the length of the block than the gap: the filler
-- overlaps the block that is written.
pub insert_overfills :
    (a n k : ℕ) (l : List BlockLocation) (s : Slice) (p : SliceMap)
    → Below k p
    → 0 < s.length
    → k + s.length < a
    → a + s.length < word
    → (insert a n l (p ++ (k, s) ∷ [])
        ≡ p ++ (k, s) ∷ (k + s.length, filler a k s) ∷ (a, written n l) ∷ [])
      × ((filler a k s).length ≡ a - (k + s.length) + 2 * s.length)
unfolding insert insert_interval
insert_overfills a n k l s p b pos h w = (
  rw (make_room-cons a n p (k, s), into_blocks-gap a n k s p b h w)
      (ground (
        arith,
        insert_new-append (k + s.length) (filler a k s) p ((k, s) ∷ [])
            (Below-mono {j = k} p (omega arith) b),
        insert_new-append a (written n l) p ((k, s) ∷ (k + s.length, filler a k s) ∷ [])
            (Below-mono {j = k} p (omega arith) b),
      )),
  omega arith,
)
