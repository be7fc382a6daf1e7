-- ===== src/VBlock.antt =====
-- blockstore/vblock.{h,cc}: which parts of the disk hold the bytes of a block. Each key is the
-- offset that its slice had when it was put there; the code changes the offset of a slice in place
-- and leaves its key. Offsets only grow, so no slice stands before its key, and no two keys share a
-- slice when `update` returns: a slice is a value.
pub mod Places
use wtf.Prelude.{
  ℕ, zero, suc, Bool, true, false, Option, none, some, List, [], ◌∷◌, ltb, leb, ◌==◌, not,
  if◌then◌else◌, add64, sub64,
}
use wtf.OrdMap.{OrdMap, lower_bound, before, last?, assign, erase}

-- `vblock::slice`
pub record DiskSlice : Type 0 where
  pub offset : ℕ
  pub length : ℕ
  pub disk_offset : ℕ

-- `slice_map`
abbrev pub VBlock : Type 0
VBlock = OrdMap DiskSlice

-- `old_start + old_length - 1`
abbrev pub end_of : DiskSlice → ℕ
end_of s = sub64 (add64 s.offset s.length) 1

-- `length`
pub block_length : VBlock → ℕ
block_length m = elim (last? m) [ none ↦ 0 | some (k, s) ↦ add64 k s.length ]

-- "cut the beginning off the overlapping slice on the right"
abbrev pub cut_beginning : ℕ → DiskSlice → DiskSlice
cut_beginning new_end s = record {
  offset = add64 new_end 1;
  length = sub64 (end_of s) new_end;
  disk_offset = add64 s.disk_offset (sub64 (add64 new_end 1) s.offset);
}

-- "cut the end off the overlapping slice to the left"
abbrev pub cut_end : ℕ → DiskSlice → DiskSlice
cut_end new_start s = record s { length = sub64 s.length (add64 (sub64 (end_of s) new_start) 1) }

abbrev pub head_end : VBlock → ℕ
head_end [] = 0
head_end ((k, s) ∷ it) = end_of s

-- "remove completely overwritten slices": the loop from the iterator `after`, with `old_end`.
pub remove_overwritten : ℕ → VBlock → ℕ → VBlock → VBlock × VBlock
remove_overwritten new_end [] old_end m = ([], m)
remove_overwritten new_end ((k, s) ∷ after) old_end m =
    let rest = remove_overwritten new_end after (head_end after) (erase k m) in
    if leb old_end new_end then rest else ((k, s) ∷ after, m)

-- The loop, and the cut of the slice that it stops at. Where the new slice took the key of that
-- slice, the slice that is cut is in the map no more.
pub clear_right : ℕ → ℕ → VBlock → ℕ → VBlock → VBlock
unfolding remove_overwritten
clear_right new_start new_end after old_end m =
    let (after', m') = remove_overwritten new_end after old_end m in
    elim after' [
      | [] ↦ m'
      | (k, s) ∷ _ ↦ if k == new_start then m' else assign k (cut_beginning new_end s) m'
    ]

-- "beginning of the block": `after` is the first slice, `(k, old)`.
pub at_beginning : ℕ → DiskSlice → ℕ → DiskSlice → VBlock → VBlock → VBlock
unfolding clear_right
at_beginning new_end new_slice k old after m =
    if not (old.offset == new_slice.offset)
    then clear_right new_slice.offset new_end ((k, old) ∷ after) (end_of old)
        (assign new_slice.offset new_slice m)
    else if leb (end_of old) new_end
    then elim after [
      | [] ↦ assign new_slice.offset new_slice m
      | f ∷ r ↦
          clear_right new_slice.offset new_end (f ∷ r) (head_end (f ∷ r))
            (assign new_slice.offset new_slice m)
    ]
    else let cut = cut_beginning new_end old in
      assign new_slice.offset new_slice (assign cut.offset cut (assign k cut m))

-- "somewhere in the middle of the block", at another offset than the next slice `(k, old)`, behind
-- the slice `(b, prev)`.
pub between : ℕ → DiskSlice → ℕ → DiskSlice → ℕ → DiskSlice → VBlock → VBlock → VBlock
unfolding clear_right
between new_end new_slice b prev k old after m =
    let m' =
      clear_right new_slice.offset new_end ((k, old) ∷ after) (end_of old)
        (assign new_slice.offset new_slice m) in
    if leb new_slice.offset (end_of prev) then assign b (cut_end new_slice.offset prev) m' else m'

-- "starts at the same offset" as a slice `(k, old)` that is not the first; `none` where the code
-- reads behind the last slice.
pub same_start : ℕ → DiskSlice → ℕ → DiskSlice → VBlock → VBlock → Option VBlock
unfolding clear_right
same_start new_end new_slice k old after m =
    if ltb new_end (end_of old)
    then some (
        let moved = record old { offset = add64 new_end 1; length = sub64 (end_of old) new_end } in
        assign new_slice.offset new_slice (assign (add64 new_end 1) moved (assign k moved m)))
    else if ltb (end_of old) new_end
    then elim after [
      | [] ↦ none
      | f ∷ r ↦ some (
          clear_right new_slice.offset new_end (f ∷ r) (end_of old)
            (assign new_slice.offset new_slice m))
    ]
    else some (assign new_slice.offset new_slice m)

-- No slice starts at the new one's offset or later: `(b, prev)` is the last.
pub at_end : ℕ → DiskSlice → ℕ → DiskSlice → VBlock → VBlock
at_end new_end new_slice b prev m =
    let m' = assign new_slice.offset new_slice m in
    let prev' = cut_end new_slice.offset prev in
    let end_slice : DiskSlice = record {
      offset = add64 new_end 1;
      length = sub64 (end_of prev) new_end;
      disk_offset = add64 prev.disk_offset (add64 prev'.length new_slice.length);
    } in
    if ltb new_end (end_of prev)
    then assign new_slice.offset new_slice (assign (add64 new_end 1) end_slice (assign b prev' m'))
    else if leb new_slice.offset (end_of prev)
    then assign b (cut_end new_slice.offset prev) m'
    else m'

-- `update` on a block that is not empty: the branches on what `after` and the slice before it are.
unfoldable pub update_slices : ℕ → DiskSlice → VBlock → Option VBlock
unfolding at_beginning between same_start at_end
update_slices new_end new_slice [] = none
update_slices new_end new_slice ((k, old) ∷ after) =
    let m = (k, old) ∷ after in
    elim (before new_slice.offset m) [
      | none ↦ some (at_beginning new_end new_slice k old after m)
      | some (b, prev) ↦ elim (lower_bound new_slice.offset m) [
        | [] ↦ some (at_end new_end new_slice b prev m)
        | (j, next) ∷ it ↦
            if not (next.offset == new_slice.offset)
            then some (between new_end new_slice b prev j next it m)
            else same_start new_end new_slice j next it m
      ]
    ]

-- `update`
unfoldable pub update : ℕ → ℕ → ℕ → VBlock → Option VBlock
unfolding update_slices
update off len disk_off [] =
    some (assign off (record { offset = off; length = len; disk_offset = disk_off }) [])
update off len disk_off (e ∷ r) =
    update_slices (sub64 (add64 off len) 1)
      (record { offset = off; length = len; disk_offset = disk_off }) (e ∷ r)

-- `get_slices`: the iterator, or `none` for -1.
unfoldable pub get_slices : ℕ → ℕ → VBlock → Option VBlock
get_slices offset len m = elim (lower_bound offset m) [
  | [] ↦ elim (before offset m) [
    | none ↦ none
    | some (b, prev) ↦ if leb offset (end_of prev) then some ((b, prev) ∷ []) else none
  ]
  | (k, s) ∷ it ↦ if leb s.offset (sub64 (add64 offset len) 1) then some ((k, s) ∷ it) else none
]

-- `set_len`; `none` where the code steps from an erased slice or from end().
pub set_len : ℕ → VBlock → Option VBlock
set_len len [] = none
set_len len ((k, s) ∷ it) =
    let rest = set_len len it in
    if leb len (add64 k s.length)
    then elim it [ [] ↦ some ((k, record s { length = sub64 len k }) ∷ []) | _ ∷ _ ↦ none ]
    else elim rest [ none ↦ none | some it' ↦ some ((k, s) ∷ it') ]
