-- ===== src/VBlock/Places.antt =====
-- Where the bytes of a block stand on the disk, before and after `update`.
use wtf.Prelude.{
  ℕ, ◌+◌, ◌-◌, ◌<◌, ◌≤◌, ◌≡◌, refl, Option, none, some, [], ◌∷◌, ◌++◌, arith, ltb, leb, ◌&&◌,
  if◌then◌else◌, word, add64_exact, sub64_exact,
}
use wtf.OrdMap.{lower_bound, before, assign}
use wtf.VBlock.{
  DiskSlice, VBlock, end_of, update, update_slices, at_end, between, clear_right,
  remove_overwritten,
}

-- The place on the disk of byte `x` of the block.
abbrev pub locate : ℕ → VBlock → Option ℕ
locate x [] = none
locate x ((k, s) ∷ m) =
    if leb s.offset x && ltb x (s.offset + s.length)
    then some (s.disk_offset + (x - s.offset))
    else locate x m

-- The slices of a block as `update` makes them from the empty block, first to last: each at its own
-- key, each behind the one before it, none empty.
abbrev pub Ordered : ℕ → VBlock → Type 0
Ordered n [] = Unit {0}
Ordered n ((k, s) ∷ m) = (n ≤ k) × (k ≡ s.offset) × (0 < s.length) × Ordered (s.offset + s.length) m

-- Where the last slice ends.
abbrev pub reach : ℕ → VBlock → ℕ
reach n [] = n
reach n ((k, s) ∷ m) = reach (s.offset + s.length) m

le-reach : (n : ℕ) (m : VBlock) → Ordered n m → n ≤ reach n m
le-reach n [] o = omega arith
le-reach n ((k, s) ∷ m) o = omega (arith, o.0, o.1, le-reach (s.offset + s.length) m o.3)

append-locate :
    (n x : ℕ) (v : DiskSlice) (m : VBlock)
    → Ordered n m
    → reach n m ≤ v.offset
    → locate x (m ++ (v.offset, v) ∷ []) ≡ (
        if leb v.offset x && ltb x (v.offset + v.length)
        then some (v.disk_offset + (x - v.offset))
        else locate x m)
append-locate n x v [] o h = refl
append-locate n x v ((k, s) ∷ m) o h =
    ground
      (arith, append-locate (s.offset + s.length) x v m o.3, le-reach (s.offset + s.length) m o.3)

lower_bound-reach :
    (n off : ℕ) (m : VBlock) → Ordered n m → reach n m ≤ off → lower_bound off m ≡ []
lower_bound-reach n off [] o h = refl
lower_bound-reach n off ((k, s) ∷ m) o h =
    ground (
      arith,
      lower_bound-reach (s.offset + s.length) off m o.3,
      le-reach (s.offset + s.length) m o.3,
    )

assign-reach :
    (n off : ℕ) (v : DiskSlice) (m : VBlock)
    → Ordered n m
    → reach n m ≤ off
    → assign off v m ≡ m ++ (off, v) ∷ []
assign-reach n off v [] o h = refl
assign-reach n off v ((k, s) ∷ m) o h =
    ground
      (arith, assign-reach (s.offset + s.length) off v m o.3, le-reach (s.offset + s.length) m o.3)

before-reach :
    (n off k : ℕ) (s : DiskSlice) (m : VBlock)
    → Ordered n ((k, s) ∷ m)
    → reach n ((k, s) ∷ m) ≤ off
    → off < word
    → (b : ℕ) × (prev : DiskSlice) × (before off ((k, s) ∷ m) ≡ some (b, prev))
      × (end_of prev < off)
before-reach n off k s [] o h w = (
  k,
  s,
  ground arith,
  ground (arith, add64_exact s.offset s.length, sub64_exact (s.offset + s.length) 1),
)
before-reach n off k s ((j, t) ∷ m) o h w =
    let (b, prev, e, l) = before-reach (s.offset + s.length) off j t m o.3 h w in
    (b, prev, ground (arith, e, le-reach (t.offset + t.length) m o.3.3), l)

-- A write of len > 0 bytes at or behind the end of a block whose slices are in order appends a slice,
-- if nothing passes 2 ^ 64.
update-append :
    (off len disk_off n : ℕ) (m : VBlock)
    → Ordered n m
    → reach n m ≤ off
    → 0 < len
    → off + len < word
    → update off len disk_off m
      ≡ some (m ++ (off, record { offset = off; length = len; disk_offset = disk_off }) ∷ [])
unfolding update update_slices at_end
update-append off len disk_off n [] o h pos w = refl
update-append off len disk_off n ((k, s) ∷ m) o h pos w =
    let v : DiskSlice = record { offset = off; length = len; disk_offset = disk_off } in
    let (b, prev, e, l) = before-reach n off k s m o h (omega arith) in
    rw (e, update_slices, lower_bound-reach n off ((k, s) ∷ m) o h)
      (ground (
        arith,
        assign-reach n off v ((k, s) ∷ m) o h,
        add64_exact off len,
        sub64_exact (off + len) 1,
      ))

-- A write of len > 0 bytes at or behind the end of a block whose slices are in order (none empty, each
-- at its own key and behind the one before it) succeeds, if nothing passes 2 ^ 64. Each byte that is
-- written is then found at its place behind `disk_off`, and each other byte where it was found before.
pub locate-update :
    (off len disk_off n : ℕ) (m : VBlock)
    → Ordered n m
    → reach n m ≤ off
    → 0 < len
    → off + len < word
    → (m' : VBlock) × (update off len disk_off m ≡ some m')
      × ((x : ℕ)
          → locate x m'
            ≡ (if leb off x && ltb x (off + len) then some (disk_off + (x - off)) else locate x m))
locate-update off len disk_off n m o h pos w =
    let v : DiskSlice = record { offset = off; length = len; disk_offset = disk_off } in
    (
      m ++ (off, v) ∷ [],
      update-append off len disk_off n m o h pos w,
      λ x. append-locate n x v m o h,
    )

-- A write into the gap that an earlier write left at the key of a slice `s` (its beginning was cut
-- off, so that its offset is larger), behind one other slice that ends before the write and with
-- nothing past 2 ^ 64: the slice is dropped, though the write ends before it, and its first byte is
-- found nowhere afterwards.
pub update_drops_slice :
    (b k len disk_off : ℕ) (prev s : DiskSlice)
    → b < k
    → 0 < prev.length
    → prev.offset + prev.length ≤ k
    → 0 < len
    → k + len ≤ s.offset
    → 0 < s.length
    → s.offset + s.length < word
    → (m' : VBlock) × (update k len disk_off ((b, prev) ∷ (k, s) ∷ []) ≡ some m')
      × (locate s.offset ((b, prev) ∷ (k, s) ∷ []) ≡ some s.disk_offset)
      × (locate s.offset m' ≡ none)
unfolding update update_slices between clear_right remove_overwritten
update_drops_slice b k len disk_off prev s h pos q p g z w = (
  (b, prev) ∷ (k, record { offset = k; length = len; disk_offset = disk_off }) ∷ [],
  ground (
    arith,
    add64_exact k len,
    sub64_exact (k + len) 1,
    add64_exact s.offset s.length,
    sub64_exact (s.offset + s.length) 1,
    add64_exact prev.offset prev.length,
    sub64_exact (prev.offset + prev.length) 1,
  ),
  ground arith,
  ground arith,
)
