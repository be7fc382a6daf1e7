-- ===== src/IntervalMap/Reads.antt =====
-- What a file address reads as, before and after `insert`, and the shape that `insert` leaves.
use wtf.Prelude.{
  ℕ, ◌+◌, ◌-◌, ◌<◌, ◌≤◌, ◌≡◌, refl, Option, none, some, List, [], ◌∷◌, arith, Bool, ltb, leb, ◌&&◌,
  if◌then◌else◌, max, word,
}
use wtf.IntervalMap.{BlockLocation, Slice, SliceMap, insert}
use wtf.IntervalMap.Tiles.{Tiles, extent, le-extent, Tiles-tail, Tiles-head}
use wtf.IntervalMap.Room.{tail_of, trim}
use wtf.IntervalMap.Splice.{splice, written, insert-splice}

-- The replicas that hold file address `x`.
abbrev pub owner : SliceMap → ℕ → Option (List BlockLocation)
owner [] x = none
owner ((k, s) ∷ r) x =
    if ltb x k then none else if ltb x (k + s.length) then some s.location else owner r x

-- The replicas that hold file address `x`, and the place of its byte inside the stored block.
abbrev pub read : SliceMap → ℕ → Option (List BlockLocation × ℕ)
read [] x = none
read ((k, s) ∷ r) x =
    if ltb x k
    then none
    else if ltb x (k + s.length)
    then some (s.location, s.offset + (x - k))
    else read r x

-- Every block is read from its start.
abbrev pub Fresh : SliceMap → Type 0
Fresh [] = Unit {0}
Fresh ((k, s) ∷ r) = (s.offset ≡ 0) × Fresh r

abbrev pub in_range : ℕ → ℕ → ℕ → Bool
in_range a e x = leb a x && ltb x e

Tiles-cons :
    (k : ℕ) (s : Slice) (m : SliceMap)
    → 0 < s.length
    → Tiles (k + s.length) m
    → Tiles k ((k, s) ∷ m)
Tiles-cons k s [] h t = refl
Tiles-cons k s (e ∷ r) h t = (refl, h, t)

trim-Tiles : (e k : ℕ) (m : SliceMap) → Tiles k m → k ≤ e → Tiles e (trim e m)
unfolding trim
trim-Tiles e k [] t h = tt
trim-Tiles e k ((j, s) ∷ []) t h = ground arith
trim-Tiles e k ((j, s) ∷ f ∷ r) t h = ground (
  arith,
  trim-Tiles e (k + s.length) (f ∷ r) t.2,
  Tiles-head (k + s.length) f r t.2,
  Tiles-cons e (tail_of e k s) (f ∷ r),
  t.2,
)

extent-trim :
    (e k : ℕ) (m : SliceMap) → Tiles k m → k ≤ e → extent e (trim e m) ≡ max e (extent k m)
unfolding trim
extent-trim e k [] t h = omega arith
extent-trim e k ((j, s) ∷ []) t h = ground arith
extent-trim e k ((j, s) ∷ f ∷ r) t h = ground (
  arith,
  extent-trim e (k + s.length) (f ∷ r) t.2,
  Tiles-head (k + s.length) f r t.2,
  le-extent (k + s.length) (f ∷ r),
)

owner-trim : (e k x : ℕ) (m : SliceMap) → Tiles k m → k ≤ e → e ≤ x → owner (trim e m) x ≡ owner m x
unfolding trim
owner-trim e k x [] t h g = refl
owner-trim e k x ((j, s) ∷ []) t h g = ground arith
owner-trim e k x ((j, s) ∷ f ∷ r) t h g =
    ground (arith, owner-trim e (k + s.length) x (f ∷ r) t.2, Tiles-head (k + s.length) f r t.2)

read-trim :
    (e k x : ℕ) (m : SliceMap) → Tiles k m → Fresh m → k ≤ e → e ≤ x → read (trim e m) x ≡ read m x
unfolding trim
read-trim e k x [] t z h g = refl
read-trim e k x ((j, s) ∷ []) t z h g = ground arith
read-trim e k x ((j, s) ∷ f ∷ r) t z h g =
    ground (arith, read-trim e (k + s.length) x (f ∷ r) t.2 z.1, Tiles-head (k + s.length) f r t.2)

block-Tiles :
    (a e k : ℕ) (v : Slice) (m : SliceMap)
    → Tiles k m
    → k ≤ e
    → a < e
    → a + v.length ≡ e
    → Tiles a ((a, v) ∷ trim e m)
block-Tiles a e k v m t h g z =
    Tiles-cons a v (trim e m) (omega arith) (rw z (trim-Tiles e k m t h))

nonempty :
    (k : ℕ) (s : Slice) (r : SliceMap)
    → Tiles k ((k, s) ∷ r)
    → k < extent k ((k, s) ∷ r)
    → 0 < s.length
nonempty k s [] t h = omega arith
nonempty k s (f ∷ r) t h = t.1

splice-Tiles :
    (a e k : ℕ) (v : Slice) (m : SliceMap)
    → Tiles k m
    → k ≤ a
    → a ≤ extent k m
    → a < e
    → a + v.length ≡ e
    → Tiles k (splice a e v m)
unfolding splice
splice-Tiles a e k v [] t h g lt z = omega arith
splice-Tiles a e k v ((j, s) ∷ r) t h g lt z = ground (
  arith,
  Tiles-head k (j, s) r t,
  nonempty k s r,
  splice-Tiles a e (k + s.length) v r (Tiles-tail k (j, s) r t),
  block-Tiles a e k v ((j, s) ∷ r) t,
  block-Tiles a e (k + s.length) v r (Tiles-tail k (j, s) r t),
  Tiles-cons k s (splice a e v r),
  Tiles-cons k (record s { length = a - k }) ((a, v) ∷ trim e ((j, s) ∷ r)),
  Tiles-cons k (record s { length = a - k }) ((a, v) ∷ trim e r),
)

extent-splice :
    (a e k : ℕ) (v : Slice) (m : SliceMap)
    → Tiles k m
    → k ≤ a
    → a ≤ extent k m
    → a < e
    → a + v.length ≡ e
    → extent k (splice a e v m) ≡ max e (extent k m)
unfolding splice
extent-splice a e k v [] t h g lt z = omega arith
extent-splice a e k v ((j, s) ∷ r) t h g lt z = ground (
  arith,
  Tiles-head k (j, s) r t,
  le-extent (k + s.length) r,
  extent-splice a e (k + s.length) v r (Tiles-tail k (j, s) r t),
  extent-trim e k ((j, s) ∷ r) t,
  extent-trim e (k + s.length) r (Tiles-tail k (j, s) r t),
)

owner-splice :
    (a e k x : ℕ) (v : Slice) (m : SliceMap)
    → Tiles k m
    → k ≤ a
    → a ≤ extent k m
    → a < e
    → a + v.length ≡ e
    → owner (splice a e v m) x ≡ (if in_range a e x then some v.location else owner m x)
unfolding splice
owner-splice a e k x v [] t h g lt z = ground arith
owner-splice a e k x v ((j, s) ∷ r) t h g lt z = ground (
  arith,
  Tiles-head k (j, s) r t,
  owner-splice a e (k + s.length) x v r (Tiles-tail k (j, s) r t),
  owner-trim e k x ((j, s) ∷ r) t,
  owner-trim e (k + s.length) x r (Tiles-tail k (j, s) r t),
)

read-splice :
    (a e k x : ℕ) (v : Slice) (m : SliceMap)
    → Tiles k m
    → Fresh m
    → k ≤ a
    → a ≤ extent k m
    → a < e
    → a + v.length ≡ e
    → v.offset ≡ 0
    → read (splice a e v m) x ≡ (if in_range a e x then some (v.location, x - a) else read m x)
unfolding splice
read-splice a e k x v [] t y h g lt z o = ground arith
read-splice a e k x v ((j, s) ∷ r) t y h g lt z o = ground (
  arith,
  Tiles-head k (j, s) r t,
  read-splice a e (k + s.length) x v r (Tiles-tail k (j, s) r t) y.1,
  read-trim e k x ((j, s) ∷ r) t y,
  read-trim e (k + s.length) x r (Tiles-tail k (j, s) r t) y.1,
)

module _ (a n : ℕ) (l : List BlockLocation) (m : SliceMap) (pos : 0 < n) (fits : a + n < word)
    (t : Tiles 0 m) (g : a ≤ extent 0 m) (w : extent 0 m < word) where
  -- On end-to-end blocks from address 0, a write of n > 0 bytes at an address up to the end of
  -- the file (and no address past 64 bits) leaves end-to-end blocks from address 0, which end at
  -- the end of the write or at the old end, whichever is larger.
  pub insert-Tiles :
      Tiles 0 (insert a n l m) × (extent 0 (insert a n l m) ≡ max (a + n) (extent 0 m))
  insert-Tiles = rw (insert-splice a n l m pos fits t g w) (
    splice-Tiles a (a + n) 0 (written n l) m t (omega arith) g (omega arith) refl,
    extent-splice a (a + n) 0 (written n l) m t (omega arith) g (omega arith) refl,
  )

  -- After a write of n > 0 bytes at an address up to the end of a file of end-to-end blocks from
  -- address 0 (and no address past 64 bits), the written addresses, and no others, belong to the
  -- replicas written to, and every other address keeps the replicas that it had (or its lack of any).
  pub owner-insert :
      (x : ℕ) → owner (insert a n l m) x ≡ (if in_range a (a + n) x then some l else owner m x)
  owner-insert x =
      rw (insert-splice a n l m pos fits t g w)
        (owner-splice a (a + n) 0 x (written n l) m t (omega arith) g (omega arith) refl)

  -- After a write of n > 0 bytes at an address a up to the end of a file of end-to-end blocks from
  -- address 0 (and no address past 64 bits), where every block is read from its start, address x reads
  -- as byte x - a of the new block where it was written, and as before elsewhere.
  pub read-insert :
      Fresh m
      → (x : ℕ)
      → read (insert a n l m) x ≡ (if in_range a (a + n) x then some (l, x - a) else read m x)
  read-insert y x =
      rw (insert-splice a n l m pos fits t g w)
        (read-splice a (a + n) 0 x (written n l) m t y (omega arith) g (omega arith) refl refl)
