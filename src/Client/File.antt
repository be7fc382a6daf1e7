-- ===== src/Client/File.antt =====
-- client/file.{h,cc} and common/block.{h,cc}: an open file, and the blocks that a write adds to it.
use wtf.Prelude.{ℕ, List, [], ◌∷◌, ◌++◌}
use wtf.OrdMap.{OrdMap}
use wtf.Codec.{Bytes, Codec}
use wtf.IntervalMap.{BlockLocation, SliceMap, insert}
use wtf.IntervalMap.Pack.{pack_map}

-- `class block`
pub record Block : Type 0 where
  pub block_list : List BlockLocation
  pub offset : ℕ
  pub length : ℕ

-- `block::add_replica`
abbrev pub add_replica : BlockLocation → Block → Block
add_replica bl b = record b { block_list = b.block_list ++ (bl ∷ []) }

-- `class file`, less what the metadata has on its mode and owner, and the operations that use it.
pub record File : Type 0 where
  pub block_map : SliceMap
  pub offset : ℕ
  pub replicas : ℕ
  pub block_size : ℕ

-- `apply_changeset`
abbrev pub apply_changeset : OrdMap Block → SliceMap → SliceMap
apply_changeset [] m = m
apply_changeset ((k, b) ∷ changeset) m =
    apply_changeset changeset (insert k b.length b.block_list m)

module _ (c : Codec) where
  open c use {put64}

  -- `serialize_blockmap`, by `<<` on a file
  abbrev pub serialize_blockmap : File → Bytes
  serialize_blockmap f = put64 f.replicas ++ (put64 f.block_size ++ pack_map c f.block_map)
