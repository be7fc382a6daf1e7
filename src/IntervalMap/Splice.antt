-- ===== src/IntervalMap/Splice.antt =====
-- `insert` on end-to-end blocks is one pass over the list.
use wtf.Prelude.{
  ℕ, ◌+◌, ◌-◌, ◌<◌, ◌≤◌, ◌≡◌, refl, List, [], ◌∷◌, arith, ltb, ◌==◌, if◌then◌else◌, word,
}
use wtf.OrdMap.{insert_new}
use wtf.IntervalMap.{BlockLocation, Slice, SliceMap, insert, insert_interval}
use wtf.IntervalMap.Tiles.{Tiles, extent, Tiles-tail, Tiles-head}
use wtf.IntervalMap.Room.{trim, room, make_room-room}

-- A map with the new block `v` at `a` in place of the addresses up to `e`, in one pass.
unfoldable pub splice : ℕ → ℕ → Slice → SliceMap → SliceMap
splice a e v [] = (a, v) ∷ []
splice a e v ((k, s) ∷ r) =
    let rest = splice a e v r in
    if a == k
    then (a, v) ∷ trim e ((k, s) ∷ r)
    else if ltb a (k + s.length)
    then (k, record s { length = a - k })
      ∷ (a, v)
      ∷ (if ltb e (k + s.length) then trim e ((k, s) ∷ r) else trim e r)
    else (k, s) ∷ rest

insert_new-trim :
    (a e k : ℕ) (v : Slice) (m : SliceMap)
    → Tiles k m
    → a < e
    → insert_new a v (trim e m) ≡ (a, v) ∷ trim e m
unfolding trim
insert_new-trim a e k v [] t h = refl
insert_new-trim a e k v ((j, s) ∷ []) t h = ground arith
insert_new-trim a e k v ((j, s) ∷ f ∷ r) t h =
    ground
      (arith, insert_new-trim a e (k + s.length) v (f ∷ r) t.2, Tiles-head (k + s.length) f r t.2)

insert_new-room :
    (a e k : ℕ) (v : Slice) (m : SliceMap)
    → Tiles k m
    → k ≤ a
    → a < e
    → insert_new a v (room a e m) ≡ splice a e v m
unfolding room splice
insert_new-room a e k v [] t h g = refl
insert_new-room a e k v ((j, s) ∷ r) t h g = ground (
  arith,
  Tiles-head k (j, s) r t,
  insert_new-trim a e k v ((j, s) ∷ r) t g,
  insert_new-trim a e (k + s.length) v r (Tiles-tail k (j, s) r t) g,
  insert_new-room a e (k + s.length) v r (Tiles-tail k (j, s) r t),
)

-- The block that `insert` writes.
abbrev pub written : ℕ → List BlockLocation → Slice
written n l = record { location = l; offset = 0; length = n }

-- On end-to-end blocks from address 0, with an insertion of at least one byte that leaves no gap
-- behind the last block, and no address past 64 bits, the map operations of `insert` leave exactly
-- the list that one pass over the blocks makes.
pub insert-splice :
    (a n : ℕ) (l : List BlockLocation) (m : SliceMap)
    → 0 < n
    → a + n < word
    → Tiles 0 m
    → a ≤ extent 0 m
    → extent 0 m < word
    → insert a n l m ≡ splice a (a + n) (written n l) m
unfolding insert insert_interval
insert-splice a n l m pos fits t g w =
    rw (make_room-room a n m fits t g w)
      (insert_new-room a (a + n) 0 (written n l) m t (omega arith) (omega arith))
