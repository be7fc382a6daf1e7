-- ===== src/Client/PendingWrite.antt =====
-- client/pending_write.cc: a write of one block's data, from the request to the storage servers to the
-- conditional put of the file's new block map.
use wtf.Prelude.{ℕ, Bool, true, false, Option, none, some, List, [], ◌∷◌, ◌++◌, ◌&&◌, if◌then◌else◌}
use wtf.OrdMap.{OrdMap, lookup, assign}
use wtf.Codec.{Bytes, Codec}
use wtf.Daemon.{UpdateReply}
use wtf.Client.{remove_wtf_message}
use wtf.Client.File.{Block, add_replica, File, apply_changeset, serialize_blockmap}

-- The HyperDex client: the request's id for a conditional put of a block map, with the one that the
-- server has to have, or `none` where it cannot be sent.
pub record Hyperdex (H : Type 0) : Type 0 where
  pub condput : (old new : Bytes) → H → Option ℕ × H

-- The fields of `pending_aggregation` and `pending_write` that the replies change.
pub record PendingWrite : Type 0 where
  pub outstanding_wtf : List ℕ
  pub outstanding_hyperdex : List ℕ
  pub old_blockmap : Bytes
  pub changeset : OrdMap Block

abbrev pub is_empty {ℓ} : {A : Type ℓ} → List A → Bool
is_empty [] = true
is_empty (x ∷ xs) = false

-- `aggregation_done`
abbrev pub aggregation_done : PendingWrite → Bool
aggregation_done op = is_empty op.outstanding_wtf && is_empty op.outstanding_hyperdex

-- The block of the reply's offset: that of the first reply has its length.
abbrev pub block_of : UpdateReply → OrdMap Block → Block
block_of r changeset = elim (lookup r.file_offset changeset) [
  | none ↦ record { block_list = []; offset = r.file_offset; length = r.block_len }
  | some b ↦ b
]

-- What a reply of the server `si` adds, whatever its code.
abbrev pub with_reply : ℕ → UpdateReply → PendingWrite → PendingWrite
with_reply si r op = record op {
  outstanding_wtf = remove_wtf_message si op.outstanding_wtf;
  changeset =
      assign r.file_offset (add_replica (record { si = si; bi = r.bid }) (block_of r op.changeset))
        op.changeset;
}

abbrev pub with_request : Option ℕ → List ℕ → List ℕ
with_request none ids = ids
with_request (some id) ids = ids ++ (id ∷ [])

module _ {H : Type 0} (c : Codec) (hyperdex : Hyperdex H) where
  -- `apply_metadata_update_locally` and `send_metadata_update`
  unfoldable pub update_metadata : PendingWrite → File → H → PendingWrite × File × H
  update_metadata op f h =
      let f' = record f { block_map = apply_changeset op.changeset f.block_map } in
      let (id, h') = hyperdex.condput op.old_blockmap (serialize_blockmap c f') h in
      (record op { outstanding_hyperdex = with_request id op.outstanding_hyperdex }, f', h')

  -- `handle_wtf_message`
  unfoldable pub handle_wtf_message :
      ℕ → UpdateReply → PendingWrite → File → H → PendingWrite × File × H
  unfolding update_metadata
  handle_wtf_message si r op f h =
      let op' = with_reply si r op in
      if aggregation_done op' then update_metadata op' f h else (op', f, h)

  -- The replies in the order in which they come.
  unfoldable pub handle_wtf_messages :
      List (ℕ × UpdateReply) → PendingWrite → File → H → PendingWrite × File × H
  unfolding handle_wtf_message
  handle_wtf_messages [] op f h = (op, f, h)
  handle_wtf_messages ((si, r) ∷ rs) op f h =
      let (op', f', h') = handle_wtf_message si r op f h in handle_wtf_messages rs op' f' h'
