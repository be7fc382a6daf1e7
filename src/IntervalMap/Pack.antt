-- ===== src/IntervalMap/Pack.antt =====
-- The wire form of block_location (common/block_location.h), slice and interval_map
-- (common/interval_map.h), and their sizes (common/interval_map.cc).
pub mod RoundTrip
use wtf.Prelude.{ℕ, zero, suc, ◌*◌, ◌%◌, none, some, List, [], ◌∷◌, ◌++◌, length, map, add64, word}
use wtf.Codec.{Bytes, Reader, Codec, ◌>>=◌, done}
use wtf.IntervalMap.{BlockLocation, Slice, SliceMap, insert}

-- The `pack_size` functions; sums of sizes are `uint64_t`.
abbrev block_location_size : ℕ
block_location_size = 16

pub slice_size : Slice → ℕ
slice_size s = add64 24 (length s.location * block_location_size % word)

pub map_size_from : ℕ → SliceMap → ℕ
unfolding slice_size
map_size_from ret [] = ret
map_size_from ret ((k, s) ∷ r) = map_size_from (add64 ret (slice_size s)) r

pub map_size : SliceMap → ℕ
unfolding map_size_from
map_size m = map_size_from 8 m

module _ (c : Codec) where
  open c use {put64, get64}

  unfoldable pub pack_location : BlockLocation → Bytes
  pack_location b = put64 b.si ++ put64 b.bi

  unfoldable pub pack_locations : List BlockLocation → Bytes
  unfolding pack_location
  pack_locations [] = []
  pack_locations (b ∷ l) = pack_location b ++ pack_locations l

  -- `<<` on a slice
  unfoldable pub pack_slice : Slice → Bytes
  unfolding pack_locations
  pack_slice s =
      put64 s.offset ++ put64 s.length ++ put64 (length s.location) ++ pack_locations s.location

  unfoldable pub pack_slices : SliceMap → Bytes
  unfolding pack_slice
  pack_slices [] = []
  pack_slices ((k, s) ∷ r) = pack_slice s ++ pack_slices r

  -- `<<` on an interval_map: the addresses are not written.
  unfoldable pub pack_map : SliceMap → Bytes
  unfolding pack_slices
  pack_map m = put64 (length m) ++ pack_slices m

  pub unpack_location : Reader BlockLocation
  unpack_location = do si ← get64; bi ← get64; done (record { si = si; bi = bi })

  pub unpack_locations : ℕ → Reader (List BlockLocation)
  unfolding unpack_location
  unpack_locations zero = done []
  unpack_locations (suc i) = do b ← unpack_location; l ← unpack_locations i; done (b ∷ l)

  -- `>>` on a slice
  pub unpack_slice : Reader Slice
  unfolding unpack_locations
  unpack_slice = do
    offset ← get64
    length ← get64
    sz ← get64
    location ← unpack_locations sz
    done (record { location = location; offset = offset; length = length })

  -- The loop of `>>` on an interval_map. `insert(address, slice)` passes on the length and the
  -- location of the slice.
  pub unpack_slices : ℕ → ℕ → SliceMap → Reader SliceMap
  unfolding unpack_slice
  unpack_slices zero insert_address m = done m
  unpack_slices (suc i) insert_address m = do
    s ← unpack_slice
    unpack_slices i (add64 insert_address s.length) (insert insert_address s.length s.location m)

  -- `>>` on an interval_map
  pub unpack_map : Reader SliceMap
  unfolding unpack_slices
  unpack_map = do sz ← get64; unpack_slices sz 0 []
