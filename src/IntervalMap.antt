-- ===== src/IntervalMap.antt =====
-- common/interval_map.{h,cc}
pub mod Tiles
pub mod Room
pub mod Splice
pub mod Reads
pub mod Truncate
pub mod Slices
pub mod Pack
pub mod Defects
use wtf.Prelude.{
  ℕ, suc, none, some, List, [], ◌∷◌, ltb, leb, ◌==◌, ◌&&◌, if◌then◌else◌, add64, sub64,
}
use wtf.OrdMap.{OrdMap, lower_bound, before, last?, lookup, assign, insert_new, erase, erase_above}

-- `class block_location`
pub record BlockLocation : Type 0 where
  pub si : ℕ
  pub bi : ℕ

-- `class slice`
pub record Slice : Type 0 where
  pub location : List BlockLocation
  pub offset : ℕ
  pub length : ℕ

-- `slice::slice()`
abbrev pub new_slice : Slice
new_slice = record { location = []; offset = 0; length = 0 }

-- `slice_map_t`, the only field of `class interval_map`
abbrev pub SliceMap : Type 0
SliceMap = OrdMap Slice

-- `slice_map[k]` read (a missing key gives a default slice)
at : ℕ → SliceMap → Slice
at k m = elim (lookup k m) [ none ↦ new_slice | some s ↦ s ]

pub insert_contained : ℕ → ℕ → ℕ → ℕ → SliceMap → SliceMap
insert_contained block_start_address block_length insert_address insert_length m =
    let slice_location = (at block_start_address m).location in
    let new_length = sub64 insert_address block_start_address in
    let m' =
      assign block_start_address (record (at block_start_address m) { length = new_length }) m in
    let new_block_start = add64 (add64 block_start_address new_length) insert_length in
    let new_block_length = sub64 (sub64 block_length new_length) insert_length in
    insert_new new_block_start
      (record {
        location = slice_location;
        offset = add64 new_length insert_length;
        length = new_block_length;
      })
      m'

pub insert_right : ℕ → ℕ → SliceMap → SliceMap
insert_right block_start_address insert_address m =
    let new_length = sub64 insert_address block_start_address in
    assign block_start_address (record (at block_start_address m) { length = new_length }) m

pub insert_left : ℕ → ℕ → ℕ → ℕ → SliceMap → SliceMap
insert_left block_start_address block_length insert_address insert_length m =
    let new_offset = sub64 (add64 insert_address insert_length) block_start_address in
    let new_length = sub64 block_length new_offset in
    let new_block_start = add64 block_start_address new_offset in
    let location = (at block_start_address m).location in
    insert_new new_block_start
      (record { location = location; offset = new_offset; length = new_length })
      (erase block_start_address m)

pub insert_overwrite_interval : ℕ → SliceMap → SliceMap
insert_overwrite_interval block_start_address m = erase block_start_address m

pub insert_interval : ℕ → ℕ → List BlockLocation → SliceMap → SliceMap
insert_interval insert_address insert_length insert_location m =
    insert_new insert_address
      (record { location = insert_location; offset = 0; length = insert_length }) m

-- The `while` loop of `insert`: `it` is the iterator, and the loop ends at it or at end().
pub overwrite_covered : ℕ → SliceMap → SliceMap → SliceMap × SliceMap
overwrite_covered insert_end [] m = ([], m)
overwrite_covered insert_end ((k, s) ∷ it) m =
    let rest = overwrite_covered insert_end it (insert_overwrite_interval k m) in
    if ltb (add64 k s.length) insert_end then rest else ((k, s) ∷ it, m)

-- The loop and the cut of the block that it stops at.
pub clear_ahead : ℕ → ℕ → SliceMap → SliceMap → SliceMap
unfolding overwrite_covered
clear_ahead insert_address insert_length it m =
    let (it', m') = overwrite_covered (add64 insert_address insert_length) it m in
    elim it' [ [] ↦ m' | (k, s) ∷ _ ↦ insert_left k s.length insert_address insert_length m' ]

-- `insert` into an empty map.
pub into_empty : ℕ → SliceMap → SliceMap
into_empty insert_address m =
    if ltb 0 insert_address
    then insert_new 0 (record new_slice { length = insert_address }) m
    else m

-- `it == slice_map.end()`: the last block starts before `insert_address`.
pub after_last : ℕ → Slice → ℕ → ℕ → SliceMap → SliceMap
after_last block_start s insert_address insert_length m =
    let block_end = add64 block_start s.length in
    if ltb block_end insert_address
    then insert_new block_end
        (record new_slice { length = add64 (sub64 insert_address block_start) s.length }) m
    else if ltb (add64 insert_address insert_length) block_end
    then insert_contained block_start s.length insert_address insert_length m
    else if block_end == insert_address
    then m
    else insert_right block_start insert_address m

-- `it->first != insert_address`: the block before `it` starts before `insert_address`.
pub inside : ℕ → Slice → SliceMap → ℕ → ℕ → SliceMap → SliceMap
inside block_start s it insert_address insert_length m =
    if ltb (add64 insert_address insert_length) (add64 block_start s.length)
    then insert_contained block_start s.length insert_address insert_length m
    else clear_ahead insert_address insert_length it (insert_right block_start insert_address m)

-- The branches of `insert` for a map that is not empty. Where the first key lies above
-- `insert_address`, the source decrements begin(), which is undefined; this leaves the map alone.
pub into_blocks : ℕ → ℕ → SliceMap → SliceMap
into_blocks insert_address insert_length m = elim (lower_bound insert_address m) [
  | [] ↦ elim (before insert_address m) [
    | none ↦ m
    | some (block_start, s) ↦ after_last block_start s insert_address insert_length m
  ]
  | (k, t) ∷ it ↦
      if k == insert_address
      then clear_ahead insert_address insert_length ((k, t) ∷ it) m
      else elim (before insert_address m) [
        | none ↦ m
        | some (block_start, s) ↦ inside block_start s ((k, t) ∷ it) insert_address insert_length m
      ]
]

-- The body of `insert`, up to its last statement.
pub make_room : ℕ → ℕ → SliceMap → SliceMap
make_room insert_address insert_length [] = into_empty insert_address []
make_room insert_address insert_length (e ∷ r) = into_blocks insert_address insert_length (e ∷ r)

pub insert : ℕ → ℕ → List BlockLocation → SliceMap → SliceMap
insert insert_address insert_length insert_location m =
    insert_interval insert_address insert_length insert_location
      (make_room insert_address insert_length m)

-- `truncate`. The last block that starts at or below `length` is cut, and the later ones go. (In a
-- map that has blocks and none there, the source decrements begin(); this leaves the map alone.)
pub truncate : ℕ → SliceMap → SliceMap
truncate length m = elim (before (suc length) m) [
  | none ↦ m
  | some (k, s) ↦ erase_above length (
      if ltb length (add64 k s.length)
      then assign k (record s { length = sub64 length k }) m
      else m)
]

-- `length`
pub file_length : SliceMap → ℕ
file_length m = elim (last? m) [ none ↦ 0 | some (k, s) ↦ add64 k s.length ]

-- The part of block `(block_address, s)` that one round of the loop of `get_slices` takes, where
-- the request does not lie within the block.
pub clip : ℕ → ℕ → ℕ → Slice → Slice
clip request_address request_length block_address s =
    let block_end = add64 block_address s.length in
    let request_end = add64 request_address request_length in
    if ltb block_address request_address
    then record s {
      offset = add64 (sub64 request_address block_address) s.offset;
      length = sub64 block_end request_address;
    }
    else record s {
      length = if leb block_end request_end then s.length else sub64 request_end block_address;
    }

-- The `while` loop of `get_slices`.
pub collect : ℕ → ℕ → SliceMap → List Slice
unfolding clip
collect request_address request_length [] = []
collect request_address request_length ((k, s) ∷ it) =
    let request_end = add64 request_address request_length in
    let rest = collect request_address request_length it in
    if ltb k request_end
    then if leb k request_address && leb request_end (add64 k s.length)
      then record s { offset = add64 (sub64 request_address k) s.offset; length = request_length }
        ∷ []
      else clip request_address request_length k s ∷ rest
    else []

-- `get_slices` where the last block starts below `request_address`.
pub slice_of_last : ℕ → ℕ → ℕ → Slice → List Slice
slice_of_last request_address request_length block_address s =
    if ltb (add64 block_address s.length) request_address
    then []
    else record s {
      offset = add64 (sub64 request_address block_address) s.offset;
      length = request_length;
    }
      ∷ []

-- `get_slices` in a map with blocks. `lower_bound k m` is the iterator at the entry before `it`. (Where
-- the first key lies above `request_address`, the source decrements begin(); this starts there.)
pub get_blocks : ℕ → ℕ → SliceMap → List Slice
get_blocks request_address request_length m = elim (lower_bound request_address m) [
  | [] ↦ elim (before request_address m) [
    | none ↦ []
    | some (k, s) ↦ slice_of_last request_address request_length k s
  ]
  | (j, t) ∷ it ↦
      if j == request_address
      then collect request_address request_length ((j, t) ∷ it)
      else elim (before request_address m) [
        | none ↦ collect request_address request_length ((j, t) ∷ it)
        | some (k, s) ↦ collect request_address request_length (lower_bound k m)
      ]
]

pub get_slices : ℕ → ℕ → SliceMap → List Slice
get_slices request_address request_length [] = []
get_slices request_address request_length (e ∷ r) =
    if request_length == 0 then [] else get_blocks request_address request_length (e ∷ r)
