-- ===== src/Client/Replies.antt =====
-- The replies to a write, in whatever order they come.
use wtf.Prelude.{
  ℕ, ◌+◌, ◌<◌, ◌≤◌, ◌≡◌, refl, subst, sym, ap, ◌∙◌, true, false, some, List, [], ◌∷◌, ◌++◌, map,
  arith, ◌==◌, if◌then◌else◌, All, word,
}
use mathlib.Core.List.{append_assoc}
use wtf.OrdMap.{assign}
use wtf.Codec.{Codec}
use wtf.IntervalMap.{BlockLocation, insert}
use wtf.IntervalMap.Tiles.{Tiles, extent}
use wtf.IntervalMap.Reads.{owner, in_range, owner-insert}
use wtf.Daemon.{UpdateReply}
use wtf.Client.{remove_wtf_message}
use wtf.Client.File.{Block, File, add_replica, serialize_blockmap}
use wtf.Client.PendingWrite.{
  Hyperdex, PendingWrite, is_empty, aggregation_done, block_of, with_reply, with_request,
  update_metadata, handle_wtf_message, handle_wtf_messages,
}

-- How often a server stands in a list.
abbrev pub count : ℕ → List ℕ → ℕ
count x [] = 0
count x (y ∷ ys) = (if y == x then 1 else 0) + count x ys

-- The same servers, each as often, in any order.
abbrev pub SameServers : List ℕ → List ℕ → Type 0
SameServers xs ys = (x : ℕ) → count x xs ≡ count x ys

count-remove :
    (x y : ℕ) (os : List ℕ)
    → 0 < count y os
    → count x (remove_wtf_message y os) + (if y == x then 1 else 0) ≡ count x os
count-remove x y [] h = omega (arith, h)
count-remove x y (o ∷ os) h = ground (arith, count-remove x y os)

SameServers-remove :
    (y : ℕ) (xs os : List ℕ) → SameServers (y ∷ xs) os → SameServers xs (remove_wtf_message y os)
SameServers-remove y xs os h x = ground (arith, h x, h y, count-remove x y os)

SameServers-nil : (os : List ℕ) → SameServers [] os → os ≡ []
SameServers-nil [] h = refl
SameServers-nil (o ∷ os) h = ground (arith, h o)

SameServers-cons : (y : ℕ) (xs os : List ℕ) → SameServers (y ∷ xs) os → is_empty os ≡ false
SameServers-cons y xs [] h = ground (arith, h y)
SameServers-cons y xs (o ∷ os) h = refl

SameServers-rest :
    (y : ℕ) (more : List ℕ) (rs : List (ℕ × UpdateReply)) (os : List ℕ)
    → SameServers (map (λ r. r.0) rs ++ (y ∷ more)) os
    → is_empty os ≡ false
SameServers-rest y more [] os h = SameServers-cons y more os h
SameServers-rest y more (r ∷ rs) os h = SameServers-cons r.0 (map (λ q. q.0) rs ++ (y ∷ more)) os h

abbrev pub servers : List (ℕ × UpdateReply) → List ℕ
servers rs = map (λ r. r.0) rs

-- The blocks that the replies name.
abbrev pub replicas : List (ℕ × UpdateReply) → List BlockLocation
replicas [] = []
replicas ((si, r) ∷ rs) = record { si = si; bi = r.bid } ∷ replicas rs

module _ {H : Type 0} (c : Codec) (hyperdex : Hyperdex H) where
  -- The write when its last reply has come: the file has the block, and its map is put.
  abbrev written : ℕ → Block → PendingWrite → File → H → PendingWrite × File × H
  written at b op f h =
      update_metadata c hyperdex (record op { outstanding_wtf = []; changeset = (at, b) ∷ [] }) f h

  handle-last :
      (si : ℕ) (r : UpdateReply) (op op' : PendingWrite) (f : File) (h : H)
      → with_reply si r op ≡ op'
      → aggregation_done op' ≡ true
      → handle_wtf_message c hyperdex si r op f h ≡ update_metadata c hyperdex op' f h
  unfolding handle_wtf_message
  handle-last si r op op' f h e d =
      let d' = subst (λ o. aggregation_done o ≡ true) (sym e) d in
      rw d' (ap (λ o. update_metadata c hyperdex o f h) e)

  handle-more :
      (si : ℕ) (r : UpdateReply) (op : PendingWrite) (f : File) (h : H)
      → is_empty (remove_wtf_message si op.outstanding_wtf) ≡ false
      → handle_wtf_message c hyperdex si r op f h ≡ (with_reply si r op, f, h)
  unfolding handle_wtf_message
  handle-more si r op f h d = rw d refl

  with_reply-one :
      (at : ℕ) (b : Block) (x : ℕ × UpdateReply) (rest : List ℕ) (op : PendingWrite)
      → ((v : Block) → assign at v op.changeset ≡ (at, v) ∷ [])
      → block_of x.1 op.changeset ≡ b
      → x.1.file_offset ≡ at
      → remove_wtf_message x.0 op.outstanding_wtf ≡ rest
      → with_reply x.0 x.1 op ≡ record op {
        outstanding_wtf = rest;
        changeset = (at, add_replica (record { si = x.0; bi = x.1.bid }) b) ∷ [];
      }
  with_reply-one at b x rest op one e o k =
      let bl : BlockLocation = record { si = x.0; bi = x.1.bid } in
      let a : assign x.1.file_offset (add_replica bl (block_of x.1 op.changeset)) op.changeset
          ≡ (at, add_replica bl b) ∷ [] =
        ap (λ n. assign n (add_replica bl (block_of x.1 op.changeset)) op.changeset) o
        ∙ ap (λ v. assign at (add_replica bl v) op.changeset) e
        ∙ one (add_replica bl b) in
      ap
        (λ m. record op {
          outstanding_wtf = remove_wtf_message x.0 op.outstanding_wtf;
          changeset = m;
        })
        a
      ∙ ap (λ ids. record op { outstanding_wtf = ids; changeset = (at, add_replica bl b) ∷ [] }) k

  replied-rest :
      (at : ℕ) (b : Block) (x : ℕ × UpdateReply) (rs : List (ℕ × UpdateReply)) (op : PendingWrite)
      (f : File) (h : H)
      → ((v : Block) → assign at v op.changeset ≡ (at, v) ∷ [])
      → block_of x.1 op.changeset ≡ b
      → op.outstanding_hyperdex ≡ []
      → All (λ r. r.1.file_offset ≡ at) (x ∷ rs)
      → SameServers (servers (x ∷ rs)) op.outstanding_wtf
      → handle_wtf_messages c hyperdex (x ∷ rs) op f h
        ≡ written at (record b { block_list = b.block_list ++ replicas (x ∷ rs) }) op f h
  unfolding handle_wtf_messages handle_wtf_message
  replied-rest at b x [] op f h one e none_sent all same =
      let k = SameServers-nil _ (SameServers-remove x.0 [] op.outstanding_wtf same) in
      handle-last x.0 x.1 op _ f h (with_reply-one at b x [] op one e all.0 k)
        (ground (arith, none_sent))
  replied-rest at b x (y ∷ rs) op f h one e none_sent all same =
      let same' = SameServers-remove x.0 (servers (y ∷ rs)) op.outstanding_wtf same in
      let k = SameServers-cons y.0 (servers rs) _ same' in
      let bl : BlockLocation = record { si = x.0; bi = x.1.bid } in
      let rest = remove_wtf_message x.0 op.outstanding_wtf in
      let o = record op { outstanding_wtf = rest; changeset = (at, add_replica bl b) ∷ [] } in
      let step =
        handle-more x.0 x.1 op f h k
        ∙ ap (λ p. (p, f, h)) (with_reply-one at b x rest op one e all.0 refl) in
      rw step (
        replied-rest at (add_replica bl b) y rs o f h (λ v. ground arith) (ground (arith, all.1.0))
          none_sent all.1 same'
        ∙ ap (λ l. written at (record b { block_list = l }) op f h)
            (append_assoc b.block_list (bl ∷ []) (replicas (y ∷ rs))))

  -- When the replies have come from the servers that a write waits for, in whatever order (all for the
  -- same file offset, with nothing else outstanding and no block yet), the file's map is that in which a
  -- block at that offset, of the first reply's length, with all the replies' blocks in their order, is
  -- inserted; no server is waited for; and the file's new map is put under the condition of the old one.
  pub write-replied :
      (at : ℕ) (x : ℕ × UpdateReply) (rs : List (ℕ × UpdateReply)) (op : PendingWrite) (f : File)
      (h : H)
      → op.changeset ≡ []
      → op.outstanding_hyperdex ≡ []
      → All (λ r. r.1.file_offset ≡ at) (x ∷ rs)
      → SameServers (servers (x ∷ rs)) op.outstanding_wtf
      → let (op', f', h') = handle_wtf_messages c hyperdex (x ∷ rs) op f h in
        let put = hyperdex.condput op.old_blockmap (serialize_blockmap c f') h in
        (f' ≡ record f { block_map = insert at x.1.block_len (replicas (x ∷ rs)) f.block_map })
        × (op'.outstanding_wtf ≡ [])
        × (op'.outstanding_hyperdex ≡ with_request put.0 [])
        × (h' ≡ put.1)
  unfolding update_metadata
  write-replied at x rs op f h e none_sent all same =
      let b : Block = record {
        block_list = [];
        offset = x.1.file_offset;
        length = x.1.block_len;
      } in
      let d =
        replied-rest at b x rs op f h (λ v. ap (assign at v) e) (ap (block_of x.1) e) none_sent all
          same in
      let e' = ap (λ p. p.1) d in
      let f' = (handle_wtf_messages c hyperdex (x ∷ rs) op f h).1 in
      let put = λ (g : File). hyperdex.condput op.old_blockmap (serialize_blockmap c g) h in
      (
        e',
        ap (λ p. p.0.outstanding_wtf) d,
        ap (λ p. p.0.outstanding_hyperdex) d
            ∙ ap (λ g. with_request (put g).0 op.outstanding_hyperdex) (sym e')
            ∙ ap (with_request (put f').0) none_sent,
        ap (λ p. p.2) d ∙ ap (λ g. (put g).1) (sym e'),
      )

  -- While replies of servers that a write waits for have not come, the file is as it was, nothing is put,
  -- and the write waits for those servers, each as often as its replies are missing.
  pub write-waits :
      (y : ℕ) (more : List ℕ) (rs : List (ℕ × UpdateReply)) (op : PendingWrite) (f : File) (h : H)
      → SameServers (servers rs ++ (y ∷ more)) op.outstanding_wtf
      → let (op', f', h') = handle_wtf_messages c hyperdex rs op f h in
        (f' ≡ f) × (h' ≡ h) × SameServers (y ∷ more) op'.outstanding_wtf
  unfolding handle_wtf_messages
  write-waits y more [] op f h same = (refl, refl, same)
  write-waits y more (x ∷ rs) op f h same =
      let same' = SameServers-remove x.0 (servers rs ++ (y ∷ more)) op.outstanding_wtf same in
      let k = SameServers-rest y more rs (remove_wtf_message x.0 op.outstanding_wtf) same' in
      subst
        (λ (p : PendingWrite × File × H).
          ((handle_wtf_messages c hyperdex rs p.0 p.1 p.2).1 ≡ f)
          × ((handle_wtf_messages c hyperdex rs p.0 p.1 p.2).2 ≡ h)
          × SameServers (y ∷ more)
              (handle_wtf_messages c hyperdex rs p.0 p.1 p.2).0.outstanding_wtf)
        (sym (handle-more x.0 x.1 op f h k))
        (write-waits y more rs (with_reply x.0 x.1 op) f h same')

  -- When all replies to a write have come, in whatever order (all for the same offset, with nothing else
  -- outstanding and no block yet), and the file has end-to-end blocks from address 0 below 2 ^ 64, the
  -- offset is not behind its end, and the first reply's length n > 0 ends below 2 ^ 64, the n addresses from the offset
  -- on belong to the replies' blocks, and every other address keeps the replicas that it had.
  pub write-owner :
      (at : ℕ) (x : ℕ × UpdateReply) (rs : List (ℕ × UpdateReply)) (op : PendingWrite) (f : File)
      (h : H)
      → op.changeset ≡ []
      → op.outstanding_hyperdex ≡ []
      → All (λ r. r.1.file_offset ≡ at) (x ∷ rs)
      → SameServers (servers (x ∷ rs)) op.outstanding_wtf
      → Tiles 0 f.block_map
      → at ≤ extent 0 f.block_map
      → extent 0 f.block_map < word
      → 0 < x.1.block_len
      → at + x.1.block_len < word
      → (i : ℕ)
      → owner (handle_wtf_messages c hyperdex (x ∷ rs) op f h).1.block_map i ≡ (
          if in_range at (at + x.1.block_len) i
          then some (replicas (x ∷ rs))
          else owner f.block_map i)
  write-owner at x rs op f h e none_sent all same t g w pos fits i =
      ap (λ k. owner k.block_map i) (write-replied at x rs op f h e none_sent all same).0
      ∙ owner-insert at x.1.block_len (replicas (x ∷ rs)) f.block_map pos fits t g w i
