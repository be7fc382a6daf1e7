-- ===== src/IntervalMap/Room.antt =====
-- How `insert` makes room: it takes the addresses of the write from end-to-end blocks.
use wtf.Prelude.{
  ℕ, ◌+◌, ◌-◌, ◌<◌, ◌≤◌, ◌≡◌, refl, ◌∙◌, [], ◌∷◌, ◌++◌, arith, ltb, ◌==◌, if◌then◌else◌, dec_lt,
  word, add64_exact, sub64_exact,
}
use mathlib.Core.List.{append_assoc}
use wtf.OrdMap.{insert_new}
use wtf.OrdMap.Append.{
  Below, Below-mono, Below-snoc, lower_bound-append, lookup-append, assign-append,
  insert_new-append, erase-append, before-append,
}
use wtf.IntervalMap.{
  Slice, SliceMap, at, insert_contained, insert_right, insert_left, insert_overwrite_interval,
  clear_ahead, after_last, inside, into_blocks, make_room, into_empty,
}
use wtf.IntervalMap.Tiles.{
  Tiles, extent, le-extent, Tiles-tail, Tiles-head, before-Tiles, lower_bound-Tiles,
}

-- The part of block `(k, s)` from address `e` on, as the code makes it.
abbrev pub tail_of : ℕ → ℕ → Slice → Slice
tail_of e k s = record { location = s.location; offset = e - k; length = k + s.length - e }

-- The blocks from `e` on.
unfoldable pub trim : ℕ → SliceMap → SliceMap
trim e [] = []
trim e ((k, s) ∷ r) =
    let rest = trim e r in if ltb (k + s.length) e then rest else insert_new e (tail_of e k s) r

-- The blocks without the addresses from `a` up to `e`.
unfoldable pub room : ℕ → ℕ → SliceMap → SliceMap
room a e [] = []
room a e ((k, s) ∷ r) =
    let rest = room a e r in
    if a == k
    then trim e ((k, s) ∷ r)
    else if ltb a (k + s.length)
    then (k, record s { length = a - k })
      ∷ (if ltb e (k + s.length) then trim e ((k, s) ∷ r) else trim e r)
    else (k, s) ∷ rest

module _ (a n : ℕ) (fits : a + n < word) where
  at-append : (k : ℕ) (s : Slice) (p r : SliceMap) → Below k p → at k (p ++ (k, s) ∷ r) ≡ s
  unfolding at
  at-append k s p r b = ground (arith, lookup-append k p ((k, s) ∷ r) b)

  insert_left-append :
      (k : ℕ) (s : Slice) (p r : SliceMap)
      → Below k p
      → k ≤ a + n
      → a + n ≤ k + s.length
      → k + s.length < word
      → insert_left k s.length a n (p ++ (k, s) ∷ r)
        ≡ p ++ insert_new (a + n) (tail_of (a + n) k s) r
  unfolding insert_left
  insert_left-append k s p r b h g w = ground (
    arith,
    add64_exact a n,
    sub64_exact (a + n) k,
    sub64_exact s.length (a + n - k),
    add64_exact k (a + n - k),
    at-append k s p r b,
    erase-append k p ((k, s) ∷ r) b,
    insert_new-append (a + n) (tail_of (a + n) k s) p r (Below-mono p h b),
  )

  clear_ahead-append :
      (k : ℕ) (p m : SliceMap)
      → Tiles k m
      → Below k p
      → k ≤ a + n
      → extent k m < word
      → clear_ahead a n m (p ++ m) ≡ p ++ trim (a + n) m
  unfolding clear_ahead trim insert_overwrite_interval
  clear_ahead-append k p [] t b h w = refl
  clear_ahead-append k p ((j, s) ∷ r) t b h w =
      let start = Tiles-head k (j, s) r t in
      let rest = λ (g : k + s.length ≤ a + n).
        clear_ahead-append (k + s.length) p r (Tiles-tail k (j, s) r t)
          (Below-mono {j = k} p (omega arith) b) g w in
      ground (
        arith,
        add64_exact a n,
        add64_exact k s.length,
        le-extent (k + s.length) r,
        rest,
        erase-append k p ((k, s) ∷ r) b,
        insert_left-append k s p r b,
      )

  -- What is left of a block that the new one starts in.
  abbrev cut : ℕ → Slice → Slice
  cut k s = record s { length = a - k }

  insert_right-append :
      (k : ℕ) (s : Slice) (p r : SliceMap)
      → Below k p
      → k ≤ a
      → insert_right k a (p ++ (k, s) ∷ r) ≡ p ++ (k, cut k s) ∷ r
  unfolding insert_right
  insert_right-append k s p r b h =
      ground
        (arith, at-append k s p r b, sub64_exact a k, assign-append k (cut k s) p ((k, s) ∷ r) b)

  insert_contained-append :
      (k : ℕ) (s : Slice) (p r : SliceMap)
      → Below k p
      → k ≤ a
      → a + n < k + s.length
      → k + s.length < word
      → insert_contained k s.length a n (p ++ (k, s) ∷ r)
        ≡ p ++ insert_new (a + n) (tail_of (a + n) k s) ((k, cut k s) ∷ r)
  unfolding insert_contained
  insert_contained-append k s p r b h g w = ground (
    arith,
    at-append k s p r b,
    sub64_exact a k,
    add64_exact k (a - k),
    add64_exact a n,
    add64_exact (a - k) n,
    sub64_exact s.length (a - k),
    sub64_exact (s.length - (a - k)) n,
    assign-append k (cut k s) p ((k, s) ∷ r) b,
    insert_new-append (a + n) (tail_of (a + n) k s) p ((k, cut k s) ∷ r)
        (Below-mono {j = k} p (omega arith) b),
  )

  inside-append :
      (k : ℕ) (s : Slice) (p r : SliceMap)
      → Below k p
      → Tiles (k + s.length) r
      → k < a
      → a < k + s.length
      → extent (k + s.length) r < word
      → inside k s r a n (p ++ (k, s) ∷ r) ≡ p ++ room a (a + n) ((k, s) ∷ r)
  unfolding inside room trim
  inside-append k s p r b t h g w =
      let rest = λ (x : k + s.length ≤ a + n).
        clear_ahead-append (k + s.length) (p ++ (k, cut k s) ∷ []) r t
          (Below-snoc k (k + s.length) (cut k s) p (omega arith) b) x w in
      ground (
        arith,
        le-extent (k + s.length) r,
        add64_exact a n,
        add64_exact k s.length,
        insert_contained-append k s p r b,
        insert_right-append k s p r b,
        rest,
        append_assoc p ((k, cut k s) ∷ []) r,
        append_assoc p ((k, cut k s) ∷ []) (trim (a + n) r),
      )

  after_last-append :
      (k : ℕ) (s : Slice) (p : SliceMap)
      → Below k p
      → k < a
      → a ≤ k + s.length
      → k + s.length < word
      → after_last k s a n (p ++ (k, s) ∷ []) ≡ p ++ room a (a + n) ((k, s) ∷ [])
  unfolding after_last room trim
  after_last-append k s p b h g w = ground (
    arith,
    add64_exact a n,
    add64_exact k s.length,
    insert_contained-append k s p [] b,
    insert_right-append k s p [] b,
  )

  -- The insertion starts at a block's start.
  into_blocks-boundary :
      (k : ℕ) (s : Slice) (p r : SliceMap)
      → k ≡ a
      → Tiles k ((k, s) ∷ r)
      → Below k p
      → extent (k + s.length) r < word
      → into_blocks a n (p ++ (k, s) ∷ r) ≡ p ++ room a (a + n) ((k, s) ∷ r)
  unfolding into_blocks room
  into_blocks-boundary k s p r e t b w = ground (
    arith,
    lower_bound-append a p ((k, s) ∷ r) (Below-mono {j = k} p (omega arith) b),
    clear_ahead-append k p ((k, s) ∷ r) t b,
  )

  -- It starts inside a block that is not the last.
  into_blocks-inside :
      (k : ℕ) (s : Slice) (p r : SliceMap) (f : ℕ × Slice)
      → Below k p
      → Tiles (k + s.length) (f ∷ r)
      → k < a
      → a < k + s.length
      → extent (k + s.length) (f ∷ r) < word
      → into_blocks a n (p ++ (k, s) ∷ f ∷ r) ≡ p ++ room a (a + n) ((k, s) ∷ f ∷ r)
  unfolding into_blocks
  into_blocks-inside k s p r f b t h g w = ground (
    arith,
    lower_bound-append a p ((k, s) ∷ f ∷ r) (Below-mono {j = k} p (omega arith) b),
    lower_bound-Tiles a (k + s.length) (f ∷ r) t,
    before-append a k s p (f ∷ r) b,
    before-Tiles a (k + s.length) (f ∷ r) t,
    Tiles-head (k + s.length) f r t,
    inside-append k s p (f ∷ r) b t,
  )

  into_blocks-last :
      (k : ℕ) (s : Slice) (p : SliceMap)
      → Below k p
      → k < a
      → a ≤ k + s.length
      → k + s.length < word
      → into_blocks a n (p ++ (k, s) ∷ []) ≡ p ++ room a (a + n) ((k, s) ∷ [])
  unfolding into_blocks
  into_blocks-last k s p b h g w = ground (
    arith,
    lower_bound-append a p ((k, s) ∷ []) (Below-mono {j = k} p (omega arith) b),
    before-append a k s p [] b,
    after_last-append k s p b,
  )

  room_past :
      (k : ℕ) (s : Slice) (r : SliceMap)
      → k < a
      → k + s.length ≤ a
      → room a (a + n) ((k, s) ∷ r) ≡ (k, s) ∷ room a (a + n) r
  unfolding room
  room_past k s r h g = ground arith

  -- Induction over the blocks from `m` on, behind the blocks `p` that end before the insertion.
  into_blocks-append :
      (k : ℕ) (p : SliceMap) (e : ℕ × Slice) (r : SliceMap)
      → Tiles k (e ∷ r)
      → Below k p
      → k ≤ a
      → a ≤ extent k (e ∷ r)
      → extent k (e ∷ r) < word
      → into_blocks a n (p ++ e ∷ r) ≡ p ++ room a (a + n) (e ∷ r)
  into_blocks-append k p (j, s) [] t b h g w = elim (dec_lt k a) [
    | yes x ↦ rw t (into_blocks-last k s p b x g w)
    | no x ↦ rw t (into_blocks-boundary k s p [] (omega arith) refl b w)
  ]
  into_blocks-append k p (j, s) (f ∷ r) t b h g w = elim (dec_lt a (k + s.length)) [
    | yes y ↦ elim (dec_lt k a) [
      | yes x ↦ rw t.0 (into_blocks-inside k s p r f b t.2 x y w)
      | no x ↦ rw t.0 (into_blocks-boundary k s p (f ∷ r) (omega arith) (refl, t.1, t.2) b w)
    ]
    | no y ↦
        let ih =
          into_blocks-append (k + s.length) (p ++ (k, s) ∷ []) f r t.2
            (Below-snoc k (k + s.length) s p (omega arith) b) (omega arith) g w in
        let moved = append_assoc p ((k, s) ∷ []) (f ∷ r) in
        rw t.0 (
          rw (room_past k s (f ∷ r) (omega arith) (omega arith))
            (rw (← moved) (ih ∙ append_assoc p ((k, s) ∷ []) (room a (a + n) (f ∷ r)))))
  ]

pub make_room-room :
    (a n : ℕ) (m : SliceMap)
    → a + n < word
    → Tiles 0 m
    → a ≤ extent 0 m
    → extent 0 m < word
    → make_room a n m ≡ room a (a + n) m
unfolding make_room into_empty room
make_room-room a n [] fits t g w = ground arith
make_room-room a n (e ∷ r) fits t g w = into_blocks-append a n fits 0 [] e r t tt (omega arith) g w
