-- ===== src/Daemon.antt =====
-- daemon/daemon.cc: what a storage server does with a client's read, update or truncation of a block,
-- over the calls of daemon/block_storage_manager.cc, which are those of the block map.
pub mod Stored
pub mod Answers
use wtf.Prelude.{
  ℕ, ◌-◌, Bool, true, false, Option, none, some, List, [], ◌∷◌, ◌++◌, map, ltb, ◌==◌, if◌then◌else◌,
  length, add64, to32, word,
}
use wtf.Codec.{Codec}
use wtf.IntervalMap.{BlockLocation}
use wtf.BlockStore.{BlockMap, Db, write, update_block, truncate_block, read}

-- `UINT64_MAX`, and the `ssize_t` -1 as a `size_t`
abbrev pub max64 : ℕ
max64 = word - 1

-- `response_returncode`, as far as the handlers give it.
pub data Returncode : Type 0 where
  response_success response_server_error : Returncode

pub record UpdateRequest : Type 0 where
  pub nonce : ℕ
  pub sender : ℕ
  pub locations : List BlockLocation
  pub file_offset : ℕ
  pub bytes : List ℕ

pub record UpdateReply : Type 0 where
  pub nonce : ℕ
  pub rc : Returncode
  pub bid : ℕ
  pub file_offset : ℕ
  pub block_len : ℕ

pub record TruncateRequest : Type 0 where
  pub nonce : ℕ
  pub sender : ℕ
  pub locations : List BlockLocation
  pub block_capacity : ℕ
  pub file_offset : ℕ
  pub block_len : ℕ

pub record TruncateReply : Type 0 where
  pub nonce : ℕ
  pub rc : Returncode
  pub bid : ℕ
  pub block_capacity : ℕ
  pub file_offset : ℕ
  pub block_len : ℕ

pub record GetReply : Type 0 where
  pub nonce : ℕ
  pub rc : Returncode
  pub bid : ℕ
  pub bytes : List ℕ

-- What a handler gives to BusyBee: the request itself to another server, or a reply to the client.
-- That a message does not arrive is only logged.
pub data Sent (Q R : Type 0) : Type 0 where
  forwarded : (server : ℕ) → Q → Sent Q R
  answered : (client : ℕ) → R → Sent Q R

-- The block that the request names for this server: the last location counts.
abbrev pub own_block : ℕ → List BlockLocation → ℕ → ℕ
own_block us [] bid = bid
own_block us (bl ∷ ls) bid = own_block us ls (if bl.si == us then bl.bi else bid)

-- "Nonce offset for reply": `nonce += i` for the first location on this server.
abbrev pub reply_nonce : ℕ → List BlockLocation → ℕ → ℕ → ℕ
reply_nonce us [] i nonce = nonce
reply_nonce us (bl ∷ ls) i nonce =
    if bl.si == us then add64 nonce i else reply_nonce us ls (add64 i 1) nonce

-- `forward_message`
abbrev pub forward_message : {Q R : Type 0} → List BlockLocation → Q → List (Sent Q R)
forward_message [] q = []
forward_message (bl ∷ ls) q = forwarded bl.si q ∷ forward_message ls q

-- "first server is responsible for forwarding message"
abbrev pub forwards : {Q R : Type 0} → ℕ → BlockLocation → List BlockLocation → Q → List (Sent Q R)
forwards us bl ls q = if bl.si == us then forward_message ls q else []

-- A new id is assigned to `bid` in the step that takes it from the counter.
abbrev pub assigned : {St : Type 0} → ℕ → BlockMap St → BlockMap St → ℕ
assigned bid s s' = if s'.block_id == s.block_id then bid else s.block_id

module _ {St : Type 0} (c : Codec) (db : Db St) (us : ℕ) where
  -- The two calls of the block manager: the result as a `size_t`, `bid` and `block_len` behind the
  -- call, and the block map. A block is updated at `block_offset`, a variable that is never set, and
  -- `unset` is the value of `block_len` where the update fails.
  unfoldable pub store_data :
      (block_offset unset : ℕ) → ℕ → List ℕ → BlockMap St → Option (ℕ × ℕ × ℕ × BlockMap St)
  store_data block_offset unset bid bytes s =
      if bid == max64
      then elim (write c db bytes s) [
        | none ↦ none
        | some (none, s') ↦ some (max64, assigned bid s s', max64, s')
        | some (some (n, b), s') ↦ some (n, b, n, s')
      ]
      else elim (update_block c db bytes block_offset bid s) [
        | none ↦ none
        | some (none, s') ↦ some (max64, assigned bid s s', unset, s')
        | some (some (n, b, len), s') ↦ some (n, b, len, s')
      ]

  -- `process_update`; `none` where there is no first location, or the block map's behaviour is
  -- undefined. `ret < data.size()` compares unsigned numbers.
  unfoldable pub process_update :
      (block_offset unset : ℕ)
      → UpdateRequest
      → BlockMap St
      → Option (List (Sent UpdateRequest UpdateReply) × BlockMap St)
  unfolding store_data
  process_update block_offset unset q s = elim q.locations [
    | [] ↦ none
    | bl ∷ ls ↦ elim (store_data block_offset unset (own_block us (bl ∷ ls) max64) q.bytes s) [
      | none ↦ none
      | some (ret, bid, block_len, s') ↦
          let reply : UpdateReply = record {
            nonce = reply_nonce us (bl ∷ ls) 0 q.nonce;
            rc = if ltb ret (length q.bytes) then response_server_error else response_success;
            bid = bid;
            file_offset = q.file_offset;
            block_len = block_len;
          } in
          some (forwards us bl ls q ++ (answered q.sender reply ∷ []), s')
    ]
  ]

  -- `process_truncate`: the result of the truncation is not looked at. The capacity and the length of the
  -- block are uint32_t.
  unfoldable pub process_truncate :
      TruncateRequest
      → BlockMap St
      → Option (List (Sent TruncateRequest TruncateReply) × BlockMap St)
  process_truncate q s = elim q.locations [
    | [] ↦ none
    | bl ∷ ls ↦
        let bid = own_block us (bl ∷ ls) max64 in
        let answer = λ (b : ℕ) (s' : BlockMap St).
          let reply : TruncateReply = record {
            nonce = reply_nonce us (bl ∷ ls) 0 q.nonce;
            rc = response_success;
            bid = b;
            block_capacity = to32 q.block_capacity;
            file_offset = q.file_offset;
            block_len = to32 q.block_len;
          } in
          some (forwards us bl ls q ++ (answered q.sender reply ∷ []), s') in
        elim (truncate_block c db bid (to32 q.block_len) s) [
          | none ↦ none
          | some (none, s') ↦ answer (assigned bid s s') s'
          | some (some (n, b), s') ↦ answer b s'
        ]
  ]

  -- `process_get`, of a length that is a uint32_t
  unfoldable pub process_get : ℕ → ℕ → ℕ → BlockMap St → Option GetReply
  process_get nonce bid len s = elim (read c db bid 0 (to32 len) s) [
    | none ↦ none
    | some none ↦ some (record { nonce = nonce; rc = response_server_error; bid = bid; bytes = [] })
    | some (some bytes) ↦
        if ltb (length bytes) (to32 len)
        then some (record { nonce = nonce; rc = response_server_error; bid = bid; bytes = [] })
        else some (record { nonce = nonce; rc = response_success; bid = bid; bytes = bytes })
  ]
