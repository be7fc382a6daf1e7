-- ===== src/Tests/Blocks.antt =====
-- A database that is a function, a block of two slices, and a block map whose log has room.
use wtf.Prelude.{
  ℕ, ◌≡◌, ◌∙◌, refl, sym, ap, ==_iff, Option, some, none, [], ◌∷◌, ◌++◌, arith, ◌==◌, if◌then◌else◌,
}
use mathlib.Core.Option.{some-injective}
use wtf.Codec.{Bytes, padded}
use wtf.VBlock.{VBlock}
use wtf.BlockStore.{Db, BlockMap, write, read, pack_vblock, unpack_vblock}
use wtf.BlockStore.RoundTrip.{Keeps, unpack_vblock-pack, read-write}

abbrev Values : Type 0
Values = ℕ → Option Bytes

abbrev values : Db Values
values = record { get = λ k st. st k; put = λ k b st. some (λ j. if j == k then some b else st j) }

found : (k : ℕ) (b : Bytes) (o : Option Bytes) → (if k == k then some b else o) ≡ some b
found k b o = rw ((==_iff k k).1 refl) refl

values-Keeps : Keeps values
values-Keeps = record {
  get-put = λ k b st st' e.
      ap (λ f. f k) (sym (some-injective (λ j. if j == k then some b else st j) st' e))
      ∙ found k b (st k);
}

abbrev new_map : BlockMap Values
new_map = record {
  db = λ k. none;
  disk = record { log = λ i. 0; log_len = 100; log_offset = 20 };
  block_id = 6;
}

read-write_example :
    (s' : BlockMap Values) × (write padded values (8 ∷ 9 ∷ []) new_map ≡ some (some (2, 6), s'))
    × (read padded values 6 0 2 s' ≡ some (some (8 ∷ 9 ∷ [])))
    × (s'.block_id ≡ 7)
read-write_example =
    read-write padded values values-Keeps (8 ∷ 9 ∷ []) new_map (omega arith) (omega arith)
      (omega arith) (omega arith) (λ b. (_, refl))

abbrev two_slices : VBlock
two_slices =
    (0, record { offset = 0; length = 5; disk_offset = 40 })
    ∷ (5, record { offset = 5; length = 3; disk_offset = 70 })
    ∷ []

unpack_vblock-pack_example :
    unpack_vblock padded (pack_vblock padded two_slices ++ 4 ∷ []) ≡ some (two_slices, 4 ∷ [])
unpack_vblock-pack_example =
    unpack_vblock-pack padded 0 two_slices (4 ∷ [])
      (omega arith, refl, omega arith, (omega arith, refl, omega arith, tt))
      ((omega arith, omega arith, omega arith), ((omega arith, omega arith, omega arith), tt))
      (omega arith)
