-- ===== src/BlockStore/RoundTrip.antt =====
-- A block that is written through the database is read back.
use wtf.Prelude.{
  ℕ, suc, ◌+◌, ◌<◌, ◌≤◌, ◌≡◌, ◌∙◌, refl, sym, ap, true, some, List, [], ◌∷◌, ◌++◌, arith, length,
  word, add64_exact, sub64_exact, All,
}
use mathlib.Core.List.{append_assoc, append-nil}
use wtf.Codec.{Codec, Bytes, ◌>>=◌}
use wtf.OrdMap.{assign}
use wtf.OrdMap.Append.{Below, Below-mono, Below-snoc, assign-append}
use wtf.VBlock.{DiskSlice, VBlock, update, get_slices}
use wtf.VBlock.Places.{Ordered}
use wtf.BlockStore.{
  Disk, disk_read, Db, BlockMap, pack_vblock, unpack_vblock, unpack_disk_slices, pack_disk_slices,
  read_offset_map, write_offset_map, store_block, write, read, read_loop,
}
use wtf.BlockStore.Log.{with_bytes, disk_write-fits, disk_read-with_bytes}

-- The fields of each slice are words.
abbrev pub AllWords : VBlock → Type 0
AllWords = All (λ e. (e.1.offset < word) × (e.1.length < word) × (e.1.disk_offset < word))

module _ (c : Codec) where
  unpack_one :
      (i : ℕ) (p : VBlock) (k : ℕ) (s : DiskSlice) (m : VBlock) (rest : Bytes)
      → AllWords ((k, s) ∷ m)
      → unpack_disk_slices c (suc i) p (pack_disk_slices c ((k, s) ∷ m) ++ rest)
        ≡ unpack_disk_slices c i (assign s.offset s p) (pack_disk_slices c m ++ rest)
  unfolding unpack_disk_slices pack_disk_slices
  unpack_one i p k s m rest h = simp (
    append_assoc,
    ◌>>=◌,
    c.get64-put64 s.offset _ h.0.0,
    c.get64-put64 s.length _ h.0.1,
    c.get64-put64 s.disk_offset _ h.0.2,
  )

  assign-end :
      (p : VBlock) (k : ℕ) (s : DiskSlice)
      → k ≡ s.offset
      → Below s.offset p
      → assign s.offset s p ≡ p ++ (k, s) ∷ []
  assign-end p k s e b =
      ap (assign s.offset s) (sym (append-nil p))
      ∙ assign-append s.offset s p [] b
      ∙ ap (λ j. p ++ (j, s) ∷ []) (sym e)

  unpack_disk-pack :
      (n : ℕ) (p m : VBlock) (rest : Bytes)
      → Below n p
      → Ordered n m
      → AllWords m
      → unpack_disk_slices c (length m) p (pack_disk_slices c m ++ rest) ≡ some (p ++ m, rest)
  unpack_disk-pack n p [] rest b o h =
      unfold unpack_disk_slices pack_disk_slices in ap (λ q. some (q, rest)) (sym (append-nil p))
  unpack_disk-pack n p ((k, s) ∷ m) rest b o h =
      unpack_one (length m) p k s m rest h
      ∙ rw (assign-end p k s o.1 (Below-mono {j = n} p (omega (arith, o.0, o.1)) b)) (
          unpack_disk-pack (s.offset + s.length) (p ++ (k, s) ∷ []) m rest
            (Below-snoc k (s.offset + s.length) s p (omega arith) (Below-mono {j = n} p o.0 b)) o.3
            h.1
          ∙ ap (λ q. some (q, rest)) (append_assoc p ((k, s) ∷ []) m))

  -- For a block whose slices are in order, with their fields and their number below 2 ^ 64, unpacking
  -- what was packed succeeds, leaves the bytes behind it, and gives the block back.
  pub unpack_vblock-pack :
      (n : ℕ) (m : VBlock) (rest : Bytes)
      → Ordered n m
      → AllWords m
      → length m < word
      → unpack_vblock c (pack_vblock c m ++ rest) ≡ some (m, rest)
  unfolding unpack_vblock pack_vblock
  unpack_vblock-pack n m rest o h w =
      simp (append_assoc, ◌>>=◌, c.get64-put64 (length m) _ w, unpack_disk-pack n [] m rest tt o h)

-- What the block map relies on of the database: it gives back what was put last.
pub record Keeps {St : Type 0} (db : Db St) : Type 0 where
  pub get-put : (k : ℕ) (b : Bytes) (st st' : St) → db.put k b st ≡ some st' → db.get k st' ≡ some b

-- The slice of a block that is written at once.
abbrev whole : ℕ → ℕ → DiskSlice
whole n disk_off = record { offset = 0; length = n; disk_offset = disk_off }

read_loop-whole :
    (n disk_off : ℕ) (d : Disk)
    → 0 < n
    → n < word
    → disk_off < word
    → read_loop true 0 n ((0, whole n disk_off) ∷ []) d ≡ some (disk_read disk_off n d)
unfolding read_loop
read_loop-whole n disk_off d pos h g = ground (
  arith,
  add64_exact disk_off 0,
  sub64_exact 0 0,
  sub64_exact n 0,
  sub64_exact n n,
  sub64_exact n 1,
  add64_exact 0 n,
)

module _ {St : Type 0} (c : Codec) (db : Db St) (keeps : Keeps db) where
  -- If the database takes a value for the new block's id, and gives back what was put last, then
  -- writing n > 0 bytes that fit the log (of less than 2 ^ 64 bytes) gives n and that id, reading
  -- the n bytes of that block gives them back, and the next block has another id.
  pub read-write :
      (bytes : List ℕ) (s : BlockMap St)
      → 0 < length bytes
      → s.disk.log_offset + length bytes ≤ s.disk.log_len
      → s.disk.log_len < word
      → suc s.block_id < word
      → ((b : Bytes) → (st : St) × (db.put s.block_id b s.db ≡ some st))
      → (s' : BlockMap St) × (write c db bytes s ≡ some (some (length bytes, s.block_id), s'))
        × (read c db s.block_id 0 (length bytes) s' ≡ some (some bytes))
        × (s'.block_id ≡ suc s.block_id)
  unfolding write store_block write_offset_map read read_offset_map get_slices update
  read-write bytes s pos fits w next takes =
      let n = length bytes in
      let vb : VBlock = (0, whole n s.disk.log_offset) ∷ [] in
      let (st, put) = takes (pack_vblock c vb) in
      let got = keeps.get-put s.block_id (pack_vblock c vb) s.db st put in
      let back : unpack_vblock c (pack_vblock c vb) ≡ some (vb, []) =
        ap (unpack_vblock c) (sym (append-nil (pack_vblock c vb)))
        ∙ unpack_vblock-pack c 0 vb [] (omega arith, refl, pos, tt)
            ((omega arith, omega arith, omega arith), tt) (omega arith) in
      (
        record { db = st; disk = with_bytes bytes s.disk; block_id = suc s.block_id },
        ground (arith, disk_write-fits bytes s.disk fits w, add64_exact s.block_id 1, put),
        rw (got, read)
            (rw back (
              ground (
                arith,
                read_loop-whole n s.disk.log_offset (with_bytes bytes s.disk) pos (omega arith)
                    (omega arith),
                disk_read-with_bytes bytes s.disk,
              ))),
        refl,
      )
