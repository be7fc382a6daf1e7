-- ===== src/Daemon/Stored.antt =====
-- A block that is written by an update and read by a get; an update that could not be written.
use wtf.Prelude.{
  ℕ, suc, ◌+◌, ◌<◌, ◌≤◌, ◌≡◌, some, List, [], ◌∷◌, ◌++◌, arith, length, word, to32_exact, ◌^◌,
}
use wtf.Codec.{Bytes, Codec}
use wtf.IntervalMap.{BlockLocation}
use wtf.BlockStore.{BlockMap, Db}
use wtf.BlockStore.RoundTrip.{Keeps, read-write}
use wtf.BlockStore.Log.{write-full}
use wtf.Daemon.{
  max64, response_success, UpdateRequest, answered, own_block, reply_nonce, forwards, store_data,
  process_update, process_get,
}

module _ {St : Type 0} (c : Codec) (db : Db St) where
  -- If an update has a first location, no location of it names a block of this server, its n > 0 bytes, n
  -- below 2 ^ 32, fit the log (of less than 2 ^ 64 bytes), the id behind the next block's is below 2 ^ 64,
  -- and the database takes a value for the next block's id and gives back what was put
  -- last, the server forwards the update where it is the first location, and answers with success, the
  -- new block's id and n; a get of n bytes of that block answers with success and the bytes; and the
  -- next block has another id. This is so for every value of the variables that the handler does not set.
  pub process_get-update :
      (us : ℕ) (q : UpdateRequest) (bl : BlockLocation) (ls : List BlockLocation) (s : BlockMap St)
      (offset unset nonce : ℕ)
      → Keeps db
      → q.locations ≡ bl ∷ ls
      → own_block us q.locations max64 ≡ max64
      → 0 < length q.bytes
      → length q.bytes < 2 ^ 32
      → s.disk.log_offset + length q.bytes ≤ s.disk.log_len
      → s.disk.log_len < word
      → suc s.block_id < word
      → ((b : Bytes) → (st : St) × (db.put s.block_id b s.db ≡ some st))
      → (s' : BlockMap St) × (process_update c db us offset unset q s
          ≡ some (
            forwards us bl ls q
                ++ (answered q.sender (record {
                  nonce = reply_nonce us q.locations 0 q.nonce;
                  rc = response_success;
                  bid = s.block_id;
                  file_offset = q.file_offset;
                  block_len = length q.bytes;
                })
                    ∷ []),
            s',
          ))
        × (process_get c db us nonce s.block_id (length q.bytes) s'
            ≡ some (record {
              nonce = nonce;
              rc = response_success;
              bid = s.block_id;
              bytes = q.bytes;
            }))
        × (s'.block_id ≡ suc s.block_id)
  unfolding process_update process_get store_data
  process_get-update us q bl ls s offset unset nonce keeps e fresh pos short fits w next takes =
      let (s', wr, rd, id) = read-write c db keeps q.bytes s pos fits w next takes in
      (s', ground (arith, wr, e, fresh), ground (arith, rd, to32_exact (length q.bytes) short), id)

  -- An update of no known block, for which the log has no room (below 2 ^ 64), is answered with success,
  -- and with 2 ^ 64 - 1 for the block and for its length.
  pub process_update-full :
      (us : ℕ) (q : UpdateRequest) (bl : BlockLocation) (ls : List BlockLocation) (s : BlockMap St)
      (offset unset : ℕ)
      → q.locations ≡ bl ∷ ls
      → own_block us q.locations max64 ≡ max64
      → s.disk.log_len < s.disk.log_offset + length q.bytes
      → s.disk.log_offset + length q.bytes < word
      → process_update c db us offset unset q s
        ≡ some (
          forwards us bl ls q
              ++ (answered q.sender (record {
                nonce = reply_nonce us q.locations 0 q.nonce;
                rc = response_success;
                bid = max64;
                file_offset = q.file_offset;
                block_len = max64;
              })
                  ∷ []),
          record s { disk = record s.disk { log_offset = s.disk.log_offset + length q.bytes } },
        )
  unfolding process_update store_data
  process_update-full us q bl ls s offset unset e fresh full w =
      let h = write-full c db q.bytes s full w in ground (arith, h, e, fresh)
