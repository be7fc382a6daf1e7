-- ===== src/Client/Write.antt =====
-- client::write of client/client.cc: the blocks that a buffer is cut into.
use wtf.Prelude.{
  ℕ, zero, suc, ◌+◌, ◌<◌, ◌≤◌, ◌≡◌, refl, subst, sym, ap, ◌∙◌, Option, none, some, List, [], ◌∷◌,
  ◌++◌, arith, length, take, drop, take-drop, length-take, length-drop, min, word, add64,
  add64_exact,
}

-- The data and the file offset of one `pending_write`.
pub record Chunk : Type 0 where
  pub file_offset : ℕ
  pub bytes : List ℕ

-- The loop of `write`: an operation for each block's worth of the bytes that remain, and the offset that
-- the file has behind them. It does not end where `fuel` runs out.
unfoldable pub write_loop : ℕ → ℕ → ℕ → List ℕ → Option (List Chunk × ℕ)
write_loop fuel block_size file_offset [] = some ([], file_offset)
write_loop zero block_size file_offset (b ∷ rem) = none
write_loop (suc fuel) block_size file_offset (b ∷ rem) =
    let len = min (length (b ∷ rem)) block_size in
    let rest = write_loop fuel block_size (add64 file_offset len) (drop len (b ∷ rem)) in
    elim rest [
      | none ↦ none
      | some (chunks, offset) ↦
          some ((record { file_offset = file_offset; bytes = take len (b ∷ rem) }) ∷ chunks, offset)
    ]

-- The chunks hold the bytes in their order, one behind the other from the offset on, and none is empty or
-- larger than a block.
abbrev pub Cover : ℕ → ℕ → List ℕ → List Chunk → Type 0
Cover block_size offset bytes [] = bytes ≡ []
Cover block_size offset bytes (c ∷ chunks) =
    (c.file_offset ≡ offset)
    × (0 < length c.bytes)
    × (length c.bytes ≤ block_size)
    × (bytes ≡ c.bytes ++ drop (length c.bytes) bytes)
    × Cover block_size (offset + length c.bytes) (drop (length c.bytes) bytes) chunks

-- If blocks hold a byte at least, and a buffer's bytes end below 2 ^ 64 from the file's offset on, the loop
-- ends, in no more rounds than bytes: its chunks hold the bytes in order, one behind the other from the
-- offset on, none empty or larger than a block, and the file's offset moves behind the last byte.
pub write_loop-Cover :
    (fuel block_size offset : ℕ) (bytes : List ℕ)
    → 0 < block_size
    → length bytes ≤ fuel
    → offset + length bytes < word
    → (chunks : List Chunk) × (write_loop fuel block_size offset bytes
        ≡ some (chunks, offset + length bytes))
      × Cover block_size offset bytes chunks
unfolding write_loop
write_loop-Cover fuel block_size offset [] pos h w = ([], ground arith, refl)
write_loop-Cover zero block_size offset (b ∷ rem) pos h w = absurd (omega (arith, h))
write_loop-Cover (suc fuel) block_size offset (b ∷ rem) pos h w =
    let len = min (length (b ∷ rem)) block_size in
    let bytes = b ∷ rem in
    let c : Chunk = record { file_offset = offset; bytes = take len bytes } in
    let fits : len ≤ length bytes = omega arith in
    let n = length-take len bytes fits in
    let d = length-drop len bytes fits in
    let (chunks, e, cover) =
      write_loop-Cover fuel block_size (offset + len) (drop len bytes) pos (omega arith)
        (omega arith) in
    let t = ap (λ k. take len bytes ++ drop k bytes) n ∙ take-drop len bytes in
    (
      c ∷ chunks,
      ground (arith, e, d, add64_exact offset len (omega arith)),
      (
        refl,
        omega (arith, n),
        omega (arith, n),
        sym t,
        subst (λ k. Cover block_size (offset + k) (drop k bytes) chunks) (sym n) cover,
      ),
    )
