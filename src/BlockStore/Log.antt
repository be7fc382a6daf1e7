-- ===== src/BlockStore/Log.antt =====
-- What is written to the log is read back.
use wtf.Prelude.{
  ℕ, zero, suc, ◌+◌, ◌<◌, ◌≤◌, ◌≡◌, refl, none, some, List, [], ◌∷◌, arith, length, word,
  add64_exact, add64, inl, inr, Option, Bool-cases, Option-cases, ltb,
}
use wtf.VBlock.{DiskSlice, VBlock, update}
use wtf.BlockStore.{
  write_offset_map, store_block, BlockMap, Db, write, Disk, memmove, disk_write, disk_read,
}
use wtf.Codec.{Codec}

disk_read-memmove :
    (bytes : List ℕ) (offset : ℕ) (old : ℕ → ℕ) (d : Disk)
    → ((i : ℕ) → offset ≤ i → d.log i ≡ memmove bytes offset old i)
    → disk_read offset (length bytes) d ≡ bytes
unfolding disk_read memmove
disk_read-memmove [] offset old d h = refl
disk_read-memmove (b ∷ bytes) offset old d h = ground (
  arith,
  h offset (omega arith),
  disk_read-memmove bytes (offset + 1) old d (λ i k. ground (arith, h i (omega arith))),
)

memmove-below :
    (bytes : List ℕ) (offset i : ℕ) (old : ℕ → ℕ) → i < offset → memmove bytes offset old i ≡ old i
unfolding memmove
memmove-below [] offset i old h = refl
memmove-below (b ∷ bytes) offset i old h =
    ground (arith, memmove-below bytes (offset + 1) i old (omega arith))

memmove-above :
    (bytes : List ℕ) (offset i : ℕ) (old : ℕ → ℕ)
    → offset + length bytes ≤ i
    → memmove bytes offset old i ≡ old i
unfolding memmove
memmove-above [] offset i old h = refl
memmove-above (b ∷ bytes) offset i old h =
    ground (arith, memmove-above bytes (offset + 1) i old (omega arith))

-- The disk after a write that fits.
abbrev pub with_bytes : List ℕ → Disk → Disk
with_bytes bytes d = record d {
  log = memmove bytes d.log_offset d.log;
  log_offset = d.log_offset + length bytes;
}

pub disk_write-fits :
    (bytes : List ℕ) (d : Disk)
    → d.log_offset + length bytes ≤ d.log_len
    → d.log_len < word
    → disk_write bytes d ≡ (some (length bytes), d.log_offset, with_bytes bytes d)
unfolding disk_write
disk_write-fits bytes d h w = ground (arith, add64_exact d.log_offset (length bytes))

pub disk_read-with_bytes :
    (bytes : List ℕ) (d : Disk) → disk_read d.log_offset (length bytes) (with_bytes bytes d) ≡ bytes
disk_read-with_bytes bytes d =
    disk_read-memmove bytes d.log_offset d.log (with_bytes bytes d) (λ i h. refl)

disk_read-same :
    (place n : ℕ) (d e : Disk)
    → ((i : ℕ) → place ≤ i → i < place + n → d.log i ≡ e.log i)
    → disk_read place n d ≡ disk_read place n e
unfolding disk_read
disk_read-same place zero d e h = refl
disk_read-same place (suc n) d e h = ground (
  arith,
  h place (omega arith) (omega arith),
  disk_read-same (place + 1) n d e (λ i p q. h i (omega arith) (omega arith)),
)

-- A write that fits the log (of less than 2 ^ 64 bytes) gives the number of its bytes and the place
-- where reading that many bytes gives them back; a read that ends before that place gives the same
-- bytes as before the write, and the next write goes behind this one.
pub disk_read-write :
    (bytes : List ℕ) (place n : ℕ) (d : Disk)
    → d.log_offset + length bytes ≤ d.log_len
    → d.log_len < word
    → place + n ≤ d.log_offset
    → (e : Disk) × (disk_write bytes d ≡ (some (length bytes), d.log_offset, e))
      × (disk_read d.log_offset (length bytes) e ≡ bytes)
      × (disk_read place n e ≡ disk_read place n d)
      × (e.log_offset ≡ d.log_offset + length bytes)
disk_read-write bytes place n d h w k = (
  with_bytes bytes d,
  disk_write-fits bytes d h w,
  disk_read-with_bytes bytes d,
  disk_read-same place n (with_bytes bytes d) d
      (λ i p q. memmove-below bytes d.log_offset i d.log (omega arith)),
  refl,
)

-- A write that does not fit the log fails and leaves every byte, but moves the place of the next
-- write on all the same, if that place stays below 2 ^ 64.
pub disk_write-full :
    (bytes : List ℕ) (d : Disk)
    → d.log_len < d.log_offset + length bytes
    → d.log_offset + length bytes < word
    → disk_write bytes d
      ≡ (none, d.log_offset, record d { log_offset = d.log_offset + length bytes })
unfolding disk_write
disk_write-full bytes d h w = ground (arith, add64_exact d.log_offset (length bytes))

-- `blockmap::write` of data that does not fit.
pub write-full :
    {St : Type 0} (c : Codec) (db : Db St) (bytes : List ℕ) (s : BlockMap St)
    → s.disk.log_len < s.disk.log_offset + length bytes
    → s.disk.log_offset + length bytes < word
    → write c db bytes s
      ≡ some (
        none,
        record s { disk = record s.disk { log_offset = s.disk.log_offset + length bytes } },
      )
unfolding write
write-full c db bytes s h w = ground (arith, disk_write-full bytes s.disk h w)

store_block-total :
    {St R : Type 0} (c : Codec) (db : Db St) (result : VBlock → R) (vb : VBlock) (bid : ℕ)
    (s : BlockMap St)
    → (r : Option R) × (s' : BlockMap St) × (store_block c db result (some vb) bid s ≡ some (r, s'))
unfolding store_block
store_block-total c db result vb bid s = elim (Option-cases (write_offset_map c db bid vb s)) [
  | inl h ↦ (none, s, ground (arith, h))
  | inr (s', h) ↦ (some (result vb), s', ground (arith, h))
]

-- `blockmap::write` comes to an end, with -1 or with a number of bytes and an id.
pub write-total :
    {St : Type 0} (c : Codec) (db : Db St) (bytes : List ℕ) (s : BlockMap St)
    → (r : Option (ℕ × ℕ)) × (s' : BlockMap St) × (write c db bytes s ≡ some (r, s'))
unfolding write disk_write update
write-total c db bytes s =
    elim (Bool-cases (ltb s.disk.log_len (add64 s.disk.log_offset (length bytes)))) [
      | inl h ↦ (
        none,
        record s { disk = record s.disk { log_offset = add64 s.disk.log_offset (length bytes) } },
        ground (arith, h),
      )
      | inr h ↦
          let slice : DiskSlice = record {
            offset = 0;
            length = length bytes;
            disk_offset = s.disk.log_offset;
          } in
          let d = record s.disk {
            log = memmove bytes s.disk.log_offset s.disk.log;
            log_offset = add64 s.disk.log_offset (length bytes);
          } in
          let (r, s', e) =
            store_block-total c db (λ vb. (length bytes, s.block_id)) ((0, slice) ∷ []) s.block_id
              (record s { disk = d; block_id = add64 s.block_id 1 }) in
          (r, s', ground (arith, h, e))
    ]
