-- ===== src/Daemon/Answers.antt =====
-- A server's reply to an update.
use wtf.Prelude.{
  ℕ, zero, suc, ◌+◌, ◌<◌, ◌≡◌, ◌≢◌, refl, some, List, [], ◌∷◌, ◌++◌, arith, ltb, if◌then◌else◌,
  length, word, add64_exact, get_elem?, Option-cases, inl, inr,
}
use wtf.Codec.{Codec}
use wtf.IntervalMap.{BlockLocation}
use wtf.BlockStore.{BlockMap, Db}
use wtf.BlockStore.Log.{write-total}
use wtf.Daemon.{
  assigned, response_server_error, response_success, max64, UpdateRequest, UpdateReply, answered,
  own_block, reply_nonce, forwards, store_data, process_update,
}

-- The first location on the server counts.
pub reply_nonce-first :
    (i j : ℕ) (l : BlockLocation) (ls : List BlockLocation) (nonce : ℕ)
    → get_elem? i ls ≡ some l
    → ((k : ℕ) (r : BlockLocation) → k < i → get_elem? k ls ≡ some r → r.si ≢ l.si)
    → nonce + j + length ls < word
    → reply_nonce l.si ls j nonce ≡ nonce + j + i
reply_nonce-first i j l [] nonce e first w = ground arith
reply_nonce-first zero j l (x ∷ ls) nonce e first w = ground (arith, e, add64_exact nonce j)
reply_nonce-first (suc i) j l (x ∷ ls) nonce e first w = ground (
  arith,
  first 0 x,
  add64_exact j 1,
  reply_nonce-first i (j + 1) l ls nonce e (λ k r h g. first (suc k) r (omega arith) g)
      (omega arith),
)

-- The reply for what the block map gives.
abbrev reply_of : ℕ → UpdateRequest → ℕ → ℕ → ℕ → UpdateReply
reply_of us q ret bid len = record {
  nonce = reply_nonce us q.locations 0 q.nonce;
  rc = if ltb ret (length q.bytes) then response_server_error else response_success;
  bid = bid;
  file_offset = q.file_offset;
  block_len = len;
}

-- An update of no known block is answered, whatever the block map gives.
pub process_update-answers :
    {St : Type 0} (c : Codec) (db : Db St) (us : ℕ) (q : UpdateRequest) (bl : BlockLocation)
    (ls : List BlockLocation) (s : BlockMap St) (offset unset : ℕ)
    → q.locations ≡ bl ∷ ls
    → own_block us q.locations max64 ≡ max64
    → (reply : UpdateReply) × (s' : BlockMap St) × (process_update c db us offset unset q s
        ≡ some (forwards us bl ls q ++ (answered q.sender reply ∷ []), s'))
      × (reply.nonce ≡ reply_nonce us q.locations 0 q.nonce)
      × (reply.file_offset ≡ q.file_offset)
unfolding process_update store_data
process_update-answers c db us q bl ls s offset unset e fresh =
    let (r, s', w) = write-total c db q.bytes s in
    elim (Option-cases r) [
      | inl h ↦ (
        reply_of us q max64 (assigned max64 s s') max64,
        s',
        ground (arith, w, h, e, fresh),
        refl,
        refl,
      )
      | inr (a, h) ↦ (reply_of us q a.0 a.1 a.0, s', ground (arith, w, h, e, fresh), refl, refl)
    ]
