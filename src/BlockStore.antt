-- ===== src/BlockStore.antt =====
-- blockstore/disk.{h,cc} and blockstore/blockmap.cc, with the wire form of a block
-- (blockstore/vblock.h).
pub mod Log
pub mod RoundTrip
use wtf.Prelude.{
  ℕ, zero, suc, ◌+◌, ◌-◌, Bool, true, false, Option, none, some, List, [], ◌∷◌, ◌++◌, ltb, leb,
  ◌==◌, ◌&&◌, if◌then◌else◌, length, add64, sub64,
}
use wtf.OrdMap.{assign}
use wtf.Codec.{Bytes, Reader, Codec, ◌>>=◌, done}
use wtf.VBlock.{DiskSlice, VBlock, update, block_length, get_slices, set_len}

-- `class disk`: the mapped file as its byte at each place.
pub record Disk : Type 0 where
  pub log : ℕ → ℕ
  pub log_len : ℕ
  pub log_offset : ℕ

-- The bytes `data` at `offset`, and the old ones elsewhere.
pub memmove : List ℕ → ℕ → (ℕ → ℕ) → ℕ → ℕ
memmove [] offset log i = log i
memmove (b ∷ bytes) offset log i = if i == offset then b else memmove bytes (offset + 1) log i

-- `disk::write`: the result (`none` for -1) with the offset, and the disk. The space is taken even
-- where the data does not fit.
pub disk_write : List ℕ → Disk → Option ℕ × ℕ × Disk
unfolding memmove
disk_write bytes d =
    let offset = d.log_offset in
    let d' = record d { log_offset = add64 offset (length bytes) } in
    if ltb d.log_len (add64 offset (length bytes))
    then (none, offset, d')
    else (some (length bytes), offset, record d' { log = memmove bytes offset d.log })

-- `disk::read`
pub disk_read : ℕ → ℕ → Disk → List ℕ
disk_read offset zero d = []
disk_read offset (suc len) d = d.log offset ∷ disk_read (offset + 1) len d

module _ (c : Codec) where
  open c use {put64, get64}

  -- `<<` on a vblock
  pub pack_disk_slices : VBlock → Bytes
  pack_disk_slices [] = []
  pack_disk_slices ((k, s) ∷ m) =
      (put64 s.offset ++ put64 s.length ++ put64 s.disk_offset) ++ pack_disk_slices m

  pub pack_vblock : VBlock → Bytes
  unfolding pack_disk_slices
  pack_vblock m = put64 (length m) ++ pack_disk_slices m

  -- `>>` on a vblock: a slice's key is its offset.
  pub unpack_disk_slices : ℕ → VBlock → Reader VBlock
  unpack_disk_slices zero m = done m
  unpack_disk_slices (suc i) m = do
    offset ← get64
    length ← get64
    disk_offset ← get64
    let s : DiskSlice = record { offset = offset; length = length; disk_offset = disk_offset }
    unpack_disk_slices i (assign offset s m)

  pub unpack_vblock : Reader VBlock
  unfolding unpack_disk_slices
  unpack_vblock = do size ← get64; unpack_disk_slices size []

-- LevelDB, which the source calls and does not hold: `none` for a status that is not ok.
pub record Db (St : Type 0) : Type 0 where
  pub get : ℕ → St → Option Bytes
  pub put : ℕ → Bytes → St → Option St

-- `class blockmap`
pub record BlockMap (St : Type 0) : Type 0 where
  pub db : St
  pub disk : Disk
  pub block_id : ℕ

module _ {St : Type 0} (c : Codec) (db : Db St) where
  -- `read_offset_map`: `none` for -1. Unpacking is not checked for errors; the slices that a
  -- malformed value gives are not modelled, and it reads as no value.
  pub read_offset_map : ℕ → BlockMap St → Option VBlock
  unfolding unpack_vblock
  read_offset_map bid s = elim (db.get bid s.db) [
    | none ↦ none
    | some b ↦ elim (unpack_vblock c b) [ none ↦ none | some (vb, _) ↦ some vb ]
  ]

  -- `write_offset_map`
  pub write_offset_map : ℕ → VBlock → BlockMap St → Option (BlockMap St)
  unfolding pack_vblock
  write_offset_map bid vb s = elim (db.put bid (pack_vblock c vb) s.db) [
    | none ↦ none
    | some st ↦ some (record s { db = st })
  ]

  -- The end of each operation: the block is stored, and the result stands for it; `some none` is -1.
  -- The model gives `none` where the behaviour of the operation on the block is undefined.
  pub store_block {ℓ} :
      {R : Type ℓ}
      → (VBlock → R)
      → Option VBlock
      → ℕ
      → BlockMap St
      → Option (Option R × BlockMap St)
  unfolding write_offset_map
  store_block result none bid s = none
  store_block result (some vb) bid s = elim (write_offset_map bid vb s) [
    | none ↦ some (none, s)
    | some s' ↦ some (some (result vb), s')
  ]

  -- `blockmap::write`: the number of bytes and the new block's id.
  pub write : List ℕ → BlockMap St → Option (Option (ℕ × ℕ) × BlockMap St)
  unfolding disk_write store_block
  write bytes s =
      let (status, disk_offset, d) = disk_write bytes s.disk in
      let s' = record s { disk = d } in
      elim status [
        | none ↦ some (none, s')
        | some n ↦
            store_block (λ vb. (n, s.block_id)) (update 0 (length bytes) disk_offset []) s.block_id
              (record s' { block_id = add64 s.block_id 1 })
      ]

  -- `blockmap::update`: the number of bytes, the new block's id and its length.
  pub update_block : List ℕ → ℕ → ℕ → BlockMap St → Option (Option (ℕ × ℕ × ℕ) × BlockMap St)
  unfolding disk_write read_offset_map store_block
  update_block bytes offset bid s =
      let (status, disk_offset, d) = disk_write bytes s.disk in
      let s' = record s { disk = d } in
      elim status [
        | none ↦ some (none, s')
        | some n ↦ elim (read_offset_map bid s') [
          | none ↦ some (none, s')
          | some vb ↦
              store_block (λ vb'. (n, s.block_id, block_length vb'))
                (update offset (length bytes) disk_offset vb) s.block_id
                (record s' { block_id = add64 s.block_id 1 })
        ]
      ]

  -- `blockmap::truncate`: the length and the new block's id.
  pub truncate_block : ℕ → ℕ → BlockMap St → Option (Option (ℕ × ℕ) × BlockMap St)
  unfolding read_offset_map store_block
  truncate_block bid len s = elim (read_offset_map bid s) [
    | none ↦ some (none, s)
    | some vb ↦
        store_block (λ vb'. (len, s.block_id)) (set_len len vb) s.block_id
          (record s { block_id = add64 s.block_id 1 })
  ]

-- The loop of `blockmap::read`: the bytes read from `it` on; `none` where the code reads behind the
-- last slice. `first` is true in the first round.
pub read_loop : Bool → ℕ → ℕ → VBlock → Disk → Option (List ℕ)
unfolding disk_read
read_loop first offset rem [] d = none
read_loop first offset rem ((k, s) ∷ it) d =
    let skip = (if first then sub64 offset s.offset else 0) in
    let offset' = (if first then offset else if ltb offset s.offset then s.offset else offset) in
    let disk_offset = add64 s.disk_offset skip in
    let disk_len = sub64 s.length skip in
    let n = (if ltb rem disk_len then rem else disk_len) in
    let rest = read_loop false (add64 offset' n) (sub64 rem n) it d in
    if ltb (sub64 (add64 offset rem) 1) s.offset
    then some []
    else let bytes = disk_read disk_offset n d in
      if sub64 rem n == 0
      then some bytes
      else elim rest [ none ↦ none | some more ↦ some (bytes ++ more) ]

module _ {St : Type 0} (c : Codec) (db : Db St) where
  -- `blockmap::read`: the bytes, `some none` for -1, and `none` where its behaviour is undefined.
  -- The test `status < 0` of an unsigned `status` never holds, so the code goes on without an iterator
  -- where `get_slices` gives -1.
  pub read : ℕ → ℕ → ℕ → BlockMap St → Option (Option (List ℕ))
  unfolding read_offset_map read_loop
  read bid offset len s = elim (read_offset_map c db bid s) [
    | none ↦ some none
    | some vb ↦ elim (get_slices offset len vb) [
      | none ↦ none
      | some it ↦ elim (read_loop true offset len it s.disk) [
        | none ↦ none
        | some b ↦ some (some b)
      ]
    ]
  ]
