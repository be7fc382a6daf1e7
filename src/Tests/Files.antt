-- ===== src/Tests/Files.antt =====
-- A file of two blocks, the first on two replicas, and one whose first block is not read from its
-- start.
use wtf.Prelude.{◌≡◌, ◌≢◌, refl, some, [], ◌∷◌, ◌++◌, arith, max}
use wtf.Codec.{padded}
use wtf.IntervalMap.{BlockLocation, Slice, SliceMap, insert, truncate, get_slices}
use wtf.IntervalMap.Tiles.{Tiles, extent}
use wtf.IntervalMap.Splice.{splice, written, insert-splice}
use wtf.IntervalMap.Reads.{owner, read, insert-Tiles, owner-insert, read-insert}
use wtf.IntervalMap.Truncate.{read-truncate}
use wtf.IntervalMap.Slices.{nth_byte, get_slices-read}
use wtf.IntervalMap.Pack.{pack_map, unpack_map}
use wtf.IntervalMap.Pack.RoundTrip.{unpack-pack}
use wtf.IntervalMap.Defects.{insert_loses_offset}

abbrev here : BlockLocation
here = record { si = 1; bi = 10 }

abbrev there : BlockLocation
there = record { si = 2; bi = 11 }

abbrev four_bytes : Slice
four_bytes = record { location = here ∷ there ∷ []; offset = 0; length = 4 }

abbrev six_bytes : Slice
six_bytes = record { location = there ∷ []; offset = 0; length = 6 }

abbrev shifted_bytes : Slice
shifted_bytes = record { location = there ∷ []; offset = 3; length = 6 }

abbrev two_blocks : SliceMap
two_blocks = (0, four_bytes) ∷ (4, six_bytes) ∷ []

abbrev two_blocks-Tiles : Tiles 0 two_blocks
two_blocks-Tiles = (refl, omega arith, refl)

insert-splice_example :
    insert 2 5 (here ∷ []) two_blocks ≡ splice 2 7 (written 5 (here ∷ [])) two_blocks
insert-splice_example =
    insert-splice 2 5 (here ∷ []) two_blocks (omega arith) (omega arith) two_blocks-Tiles
      (omega arith) (omega arith)

insert-Tiles_example :
    Tiles 0 (insert 2 5 (here ∷ []) two_blocks)
    × (extent 0 (insert 2 5 (here ∷ []) two_blocks) ≡ max 7 10)
insert-Tiles_example =
    insert-Tiles 2 5 (here ∷ []) two_blocks (omega arith) (omega arith) two_blocks-Tiles
      (omega arith) (omega arith)

owner-insert_example : owner (insert 2 5 (here ∷ []) two_blocks) 6 ≡ some (here ∷ [])
owner-insert_example =
    owner-insert 2 5 (here ∷ []) two_blocks (omega arith) (omega arith) two_blocks-Tiles
      (omega arith) (omega arith) 6

read-insert_example : read (insert 2 5 (here ∷ []) two_blocks) 6 ≡ some (here ∷ [], 4)
read-insert_example =
    read-insert 2 5 (here ∷ []) two_blocks (omega arith) (omega arith) two_blocks-Tiles
      (omega arith) (omega arith) (refl, (refl, tt)) 6

read-truncate_example : read (truncate 6 two_blocks) 5 ≡ some (there ∷ [], 1)
read-truncate_example = read-truncate 6 5 two_blocks two_blocks-Tiles (omega arith)

get_slices-read_example : nth_byte (get_slices 3 4 two_blocks) 2 ≡ some (there ∷ [], 1)
get_slices-read_example =
    get_slices-read 3 4 2 two_blocks two_blocks-Tiles (omega arith, (omega arith, tt)) (omega arith)
      (omega arith) (omega arith)

unpack-pack_example :
    unpack_map padded (pack_map padded two_blocks ++ 5 ∷ []) ≡ some (two_blocks, 5 ∷ [])
unpack-pack_example =
    unpack-pack padded two_blocks (5 ∷ []) two_blocks-Tiles
      (
        (
          omega arith,
          omega arith,
          omega arith,
          ((omega arith, omega arith), ((omega arith, omega arith), tt)),
        ),
        ((omega arith, omega arith, omega arith, ((omega arith, omega arith), tt)), tt),
      )
      (omega arith) (omega arith)

insert_loses_offset_example :
    read (insert 0 2 (here ∷ []) ((0, shifted_bytes) ∷ [])) 2 ≢ read ((0, shifted_bytes) ∷ []) 2
insert_loses_offset_example =
    insert_loses_offset 2 (here ∷ []) shifted_bytes [] (omega arith) (omega arith) (omega arith)
      refl (omega arith)
