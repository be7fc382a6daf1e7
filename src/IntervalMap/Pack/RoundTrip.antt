-- ===== src/IntervalMap/Pack/RoundTrip.antt =====
-- Unpacking what was packed.
use mathlib.Core.List.{append_assoc}
use wtf.Prelude.{
  ℕ, suc, ◌+◌, ◌*◌, ◌<◌, ◌≡◌, ◌∙◌, refl, ap, some, List, [], ◌∷◌, ◌++◌, arith, length, All, map,
  word, add64, add64_exact, length-append,
}
use wtf.OrdMap.Append.{
  Below, Below-mono, Below-snoc, lower_bound-append, before-append, insert_new-append,
}
use wtf.Codec.{Bytes, Codec, ◌>>=◌}
use wtf.IntervalMap.{
  BlockLocation, Slice, SliceMap, make_room, into_blocks, into_empty, after_last, insert,
  insert_interval,
}
use wtf.IntervalMap.Tiles.{Tiles, extent, le-extent, Tiles-tail, Tiles-head}
use wtf.IntervalMap.Splice.{written}
use wtf.IntervalMap.Pack.{
  pack_locations, pack_slice, pack_slices, pack_map, unpack_locations, unpack_slice, unpack_slices,
  unpack_map, slice_size, map_size, map_size_from,
}

-- The fields of a slice are words.
abbrev pub IsWord : Slice → Type 0
IsWord s =
    (s.offset < word)
    × (s.length < word)
    × (length s.location < word)
    × All (λ (b : BlockLocation). (b.si < word) × (b.bi < word)) s.location

-- What the other end makes of a block: its place in the stored block is lost.
abbrev pub reset : ℕ × Slice → ℕ × Slice
reset (k, s) = (k, record s { offset = 0 })

-- `insert` behind the last block appends.
make_room-snoc :
    (a n : ℕ) (p : SliceMap) (e : ℕ × Slice)
    → make_room a n (p ++ e ∷ []) ≡ into_blocks a n (p ++ e ∷ [])
unfolding make_room
make_room-snoc a n [] e = refl
make_room-snoc a n (x ∷ p) e = refl

into_blocks-end :
    (a n k : ℕ) (s : Slice) (p : SliceMap)
    → Below k p
    → 0 < s.length
    → a ≡ k + s.length
    → a + n < word
    → into_blocks a n (p ++ (k, s) ∷ []) ≡ p ++ (k, s) ∷ []
unfolding into_blocks after_last
into_blocks-end a n k s p b pos e w = ground (
  arith,
  lower_bound-append a p ((k, s) ∷ []) (Below-mono {j = k} p (omega arith) b),
  before-append a k s p [] b,
  add64_exact k s.length,
  add64_exact a n,
)

insert-end :
    (a n k : ℕ) (l : List BlockLocation) (s : Slice) (p : SliceMap)
    → Below k p
    → 0 < s.length
    → a ≡ k + s.length
    → a + n < word
    → insert a n l (p ++ (k, s) ∷ []) ≡ p ++ (k, s) ∷ (a, written n l) ∷ []
unfolding insert insert_interval
insert-end a n k l s p b pos e w =
    rw (make_room-snoc a n p (k, s), into_blocks-end a n k s p b pos e w)
      (ground (
        arith,
        insert_new-append a (written n l) p ((k, s) ∷ []) (Below-mono {j = k} p (omega arith) b),
      ))

insert-empty : (n : ℕ) (l : List BlockLocation) → insert 0 n l [] ≡ (0, written n l) ∷ []
unfolding insert insert_interval make_room into_empty
insert-empty n l = refl

re_tile :
    (a : ℕ) (u : Slice) (j : ℕ) (r : SliceMap)
    → Tiles a ((j, u) ∷ r)
    → Tiles a ((a, written u.length u.location) ∷ r)
re_tile a u j [] t = refl
re_tile a u j (f ∷ r) t = (refl, t.1, t.2)

size_exact :
    (ret : ℕ) (s : Slice)
    → ret + (24 + 16 * length s.location) < word
    → add64 ret (slice_size s) ≡ ret + (24 + 16 * length s.location)
unfolding slice_size add64
size_exact ret s h = omega arith

module _ (c : Codec) where
  unpack_locations-pack :
      (l : List BlockLocation) (rest : Bytes)
      → All (λ (b : BlockLocation). (b.si < word) × (b.bi < word)) l
      → unpack_locations c (length l) (pack_locations c l ++ rest) ≡ some (l, rest)
  unfolding unpack_locations pack_locations
  unpack_locations-pack [] rest h = refl
  unpack_locations-pack (b ∷ l) rest h = simp (
    append_assoc,
    ◌>>=◌,
    c.get64-put64 b.si _ h.0.0,
    c.get64-put64 b.bi _ h.0.1,
    unpack_locations-pack l rest h.1,
  )

  unpack_slice-pack :
      (s : Slice) (rest : Bytes)
      → IsWord s
      → unpack_slice c (pack_slice c s ++ rest) ≡ some (s, rest)
  unfolding unpack_slice pack_slice
  unpack_slice-pack s rest h = simp (
    append_assoc,
    ◌>>=◌,
    c.get64-put64 s.offset _ h.0,
    c.get64-put64 s.length _ h.1,
    c.get64-put64 (length s.location) _ h.2,
    unpack_locations-pack s.location rest h.3,
  )

  unpack_step :
      (i a : ℕ) (m : SliceMap) (s : Slice) (tail rest : Bytes)
      → IsWord s
      → unpack_slices c (suc i) a m ((pack_slice c s ++ tail) ++ rest)
        ≡ unpack_slices c i (add64 a s.length) (insert a s.length s.location m) (tail ++ rest)
  unfolding unpack_slices
  unpack_step i a m s tail rest h = simp (append_assoc, ◌>>=◌, unpack_slice-pack s (tail ++ rest) h)

  -- The loop behind a block `(k, s)` that ends where the next one starts.
  unpack_slices-pack :
      (k : ℕ) (s : Slice) (p r : SliceMap) (rest : Bytes)
      → Below k p
      → Tiles k ((k, s) ∷ r)
      → All (λ e. IsWord e.1) r
      → extent k ((k, s) ∷ r) < word
      → unpack_slices c (length r) (k + s.length) (p ++ (k, s) ∷ []) (pack_slices c r ++ rest)
        ≡ some (p ++ (k, s) ∷ map reset r, rest)
  unfolding pack_slices
  unpack_slices-pack k s p [] rest b t h w = unfold unpack_slices in refl
  unpack_slices-pack k s p ((j, u) ∷ r) rest b t h w =
      let a = k + s.length in
      let fits : a + u.length < word = omega (arith, le-extent (a + u.length) r) in
      let ih =
        unpack_slices-pack a (written u.length u.location) (p ++ (k, s) ∷ []) r rest
          (Below-snoc k a s p (omega arith) b)
          (re_tile a u j r (Tiles-tail k (k, s) ((j, u) ∷ r) t)) h.1 w in
      unpack_step (length r) a (p ++ (k, s) ∷ []) u (pack_slices c r) rest h.0
      ∙ rw
          (
            add64_exact a u.length fits,
            insert-end a u.length k u.location s p b t.1 refl fits,
            Tiles-head a (j, u) r (Tiles-tail k (k, s) ((j, u) ∷ r) t),
          )
          (ground (
            arith,
            ih,
            append_assoc p ((k, s) ∷ []) ((a, written u.length u.location) ∷ []),
            append_assoc p ((k, s) ∷ []) ((a, written u.length u.location) ∷ map reset r),
          ))

  unpack_map-words :
      (m : SliceMap) (rest : Bytes)
      → length m < word
      → unpack_map c (pack_map c m ++ rest)
        ≡ unpack_slices c (length m) 0 [] (pack_slices c m ++ rest)
  unfolding unpack_map pack_map
  unpack_map-words m rest h = simp (append_assoc, ◌>>=◌, c.get64-put64 (length m) _ h)

  -- For end-to-end blocks from address 0 that stay below 2 ^ 64, with fields and a number of blocks
  -- below 2 ^ 64, unpacking what was packed succeeds, whatever bytes follow, leaves those bytes, and
  -- gives every block back at its address with its length and replicas, but with offset 0.
  pub unpack-pack :
      (m : SliceMap) (rest : Bytes)
      → Tiles 0 m
      → All (λ e. IsWord e.1) m
      → extent 0 m < word
      → length m < word
      → unpack_map c (pack_map c m ++ rest) ≡ some (map reset m, rest)
  unfolding pack_slices
  unpack-pack [] rest t h w len = unpack_map-words [] rest len ∙ unfold unpack_slices in refl
  unpack-pack ((j, s) ∷ r) rest t h w len =
      let ih =
        unpack_slices-pack 0 (written s.length s.location) [] r rest tt (re_tile 0 s j r t) h.1 w in
      unpack_map-words ((j, s) ∷ r) rest len
      ∙ unpack_step (length r) 0 [] s (pack_slices c r) rest h.0
      ∙ rw
          (
            add64_exact 0 s.length (omega (arith, le-extent (0 + s.length) r)),
            insert-empty s.length s.location,
            Tiles-head 0 (j, s) r t,
          )
          ih

  length-locations : (l : List BlockLocation) → length (pack_locations c l) ≡ 16 * length l
  unfolding pack_locations
  length-locations [] = omega arith
  length-locations (b ∷ l) = omega (
    arith,
    length-append (c.put64 b.si ++ c.put64 b.bi) (pack_locations c l),
    length-append (c.put64 b.si) (c.put64 b.bi),
    c.length-put64 b.si,
    c.length-put64 b.bi,
    length-locations l,
  )

  length-slice : (s : Slice) → length (pack_slice c s) ≡ 24 + 16 * length s.location
  unfolding pack_slice
  length-slice s =
      let o = c.put64 s.offset in
      let k = c.put64 s.length in
      let n = c.put64 (length s.location) in
      omega (
        arith,
        length-append (o ++ k ++ n) (pack_locations c s.location),
        length-append (o ++ k) n,
        length-append o k,
        c.length-put64 s.offset,
        c.length-put64 s.length,
        c.length-put64 (length s.location),
        length-locations s.location,
      )

  map_size_from-length :
      (ret : ℕ) (m : SliceMap)
      → ret + length (pack_slices c m) < word
      → map_size_from ret m ≡ ret + length (pack_slices c m)
  unfolding map_size_from pack_slices
  map_size_from-length ret [] h = omega arith
  map_size_from-length ret ((k, s) ∷ r) h =
      let whole = length-append (pack_slice c s) (pack_slices c r) in
      let one = length-slice s in
      omega (
        arith,
        whole,
        one,
        map_size_from-length (ret + (24 + 16 * length s.location)) r (omega (arith, whole, one)),
        size_exact ret s (omega (arith, whole, one)),
        ap (λ x. map_size_from x r) (size_exact ret s (omega (arith, whole, one))),
      )

  -- `pack_size` is the number of bytes that are packed, if that number is below 2 ^ 64.
  pub map_size-length :
      (m : SliceMap) → length (pack_map c m) < word → map_size m ≡ length (pack_map c m)
  unfolding map_size pack_map
  map_size-length m h =
      let whole = length-append (c.put64 (length m)) (pack_slices c m) in
      omega (
        arith,
        whole,
        c.length-put64 (length m),
        map_size_from-length 8 m (omega (arith, whole, c.length-put64 (length m))),
      )
