-- ===== src/Tests/Storage.antt =====
-- A log of ten bytes, three of them taken, and a block of one or two slices.
use wtf.Prelude.{ℕ, ◌+◌, ◌-◌, ◌≡◌, refl, some, [], ◌∷◌, arith, ltb, leb, ◌&&◌, if◌then◌else◌}
use wtf.BlockStore.{Disk, disk_write, disk_read}
use wtf.BlockStore.Log.{disk_read-write}
use wtf.VBlock.{DiskSlice, VBlock, update}
use wtf.VBlock.Places.{locate, locate-update}

abbrev small_disk : Disk
small_disk = record { log = λ i. 100 + i; log_len = 10; log_offset = 3 }

disk_read-write_example :
    (e : Disk) × (disk_write (8 ∷ 9 ∷ []) small_disk ≡ (some 2, 3, e))
    × (disk_read 3 2 e ≡ 8 ∷ 9 ∷ [])
    × (disk_read 1 2 e ≡ disk_read 1 2 small_disk)
    × (e.log_offset ≡ 5)
disk_read-write_example =
    disk_read-write (8 ∷ 9 ∷ []) 1 2 small_disk (omega arith) (omega arith) (omega arith)

abbrev five_at_40 : DiskSlice
five_at_40 = record { offset = 0; length = 5; disk_offset = 40 }

locate-update_example :
    (m' : VBlock) × (update 5 4 70 ((0, five_at_40) ∷ []) ≡ some m')
    × ((x : ℕ)
        → locate x m'
          ≡ (if leb 5 x && ltb x 9 then some (70 + (x - 5)) else locate x ((0, five_at_40) ∷ [])))
locate-update_example =
    locate-update 5 4 70 0 ((0, five_at_40) ∷ []) (omega arith, refl, omega arith, tt) (omega arith)
      (omega arith) (omega arith)
