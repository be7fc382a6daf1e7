-- ===== src/Tests/Writes.antt =====
-- A client that writes two bytes to servers 7 and 4, each with room for them.
use wtf.Prelude.{
  ℕ, zero, suc, ◌<◌, get_elem?, ◌≡◌, ◌≢◌, ◌∙◌, refl, sym, ap, ==_iff, true, false, Option, some,
  none, List, [], ◌∷◌, ◌++◌, arith, ◌==◌, if◌then◌else◌, All,
}
use mathlib.Core.Option.{some-injective}
use wtf.Codec.{Bytes, padded}
use wtf.IntervalMap.{BlockLocation, insert}
use wtf.IntervalMap.Reads.{owner}
use wtf.BlockStore.{Db, BlockMap}
use wtf.BlockStore.RoundTrip.{Keeps}
use wtf.Daemon.{
  max64, response_success, UpdateRequest, UpdateReply, answered, forwards, reply_nonce,
  process_update, process_get,
}
use wtf.Daemon.Stored.{process_get-update}
use wtf.Client.{SendResult, sent, Client, Message, perform_aggregation, receive, handled}
use wtf.Client.Nonces.{reply-handled}
use wtf.Client.Write.{Chunk, write_loop, Cover, write_loop-Cover}
use wtf.Client.File.{File}
use wtf.Client.PendingWrite.{Hyperdex, PendingWrite, handle_wtf_messages}
use wtf.Client.Replies.{SameServers, replicas, write-replied, write-waits, write-owner}

abbrev Values : Type 0
Values = ℕ → Option Bytes

abbrev values : Db Values
values = record { get = λ k st. st k; put = λ k b st. some (λ j. if j == k then some b else st j) }

found : (k : ℕ) (b : Bytes) (o : Option Bytes) → (if k == k then some b else o) ≡ some b
found k b o = rw ((==_iff k k).1 refl) refl

values-Keeps : Keeps values
values-Keeps = record {
  get-put = λ k b st st' e.
      ap (λ f. f k) (sym (some-injective (λ j. if j == k then some b else st j) st' e))
      ∙ found k b (st k);
}

abbrev new_map : BlockMap Values
new_map = record {
  db = λ k. none;
  disk = record { log = λ i. 0; log_len = 100; log_offset = 20 };
  block_id = 6;
}

abbrev at_7 : BlockLocation
at_7 = record { si = 7; bi = max64 }

abbrev at_4 : BlockLocation
at_4 = record { si = 4; bi = max64 }

abbrev two_bytes : UpdateRequest
two_bytes = record {
  nonce = 30;
  sender = 1;
  locations = at_7 ∷ at_4 ∷ [];
  file_offset = 0;
  bytes = 8 ∷ 9 ∷ [];
}

process_get-update_example :
    (s' : BlockMap Values) × (process_update padded values 4 0 0 two_bytes new_map
      ≡ some (
        forwards 4 at_7 (at_4 ∷ []) two_bytes
            ++ (answered 1 (record {
              nonce = reply_nonce 4 (at_7 ∷ at_4 ∷ []) 0 30;
              rc = response_success;
              bid = 6;
              file_offset = 0;
              block_len = 2;
            })
                ∷ []),
        s',
      ))
    × (process_get padded values 4 55 6 2 s'
        ≡ some (record { nonce = 55; rc = response_success; bid = 6; bytes = 8 ∷ 9 ∷ [] }))
    × (s'.block_id ≡ 7)
process_get-update_example =
    process_get-update padded values 4 two_bytes at_7 (at_4 ∷ []) new_map 0 0 55 values-Keeps refl
      refl (omega arith) (omega arith) (omega arith) (omega arith) (omega arith) (λ b. (_, refl))

abbrev all_sent : ℕ → SendResult
all_sent to = sent

abbrev idle_client : Client
idle_client = record {
  next_server_nonce = 30;
  pending_ops = (29, record { si = 7; op = 2 }) ∷ [];
  failed = [];
  outstanding = λ op. if op == 2 then 7 ∷ [] else [];
}

before_4 : (k : ℕ) (r : BlockLocation) → k < 1 → get_elem? k (at_7 ∷ at_4 ∷ []) ≡ some r → r.si ≢ 4
before_4 zero r h e = ground (arith, e)
before_4 (suc k) r h e = omega arith

reply-handled_example :
    let (messages, s') = perform_aggregation all_sent 3 (7 ∷ 4 ∷ []) idle_client in
    (nops : List Message) × (reply : UpdateReply) × (blocks' : BlockMap Values) × (messages
      ≡ nops ++ ((record { to = 7; nonce = 30; is_data = true }) ∷ []))
    × All (λ m. m.is_data ≡ false) nops
    × (process_update padded values 4 0 0 two_bytes new_map
        ≡ some (forwards 4 at_7 (at_4 ∷ []) two_bytes ++ (answered 1 reply ∷ []), blocks'))
    × ((receive false true 4 reply.nonce s').0 ≡ handled 3)
reply-handled_example =
    reply-handled padded values all_sent 3 idle_client two_bytes new_map 0 0 1 at_7 at_4 (at_4 ∷ [])
      refl (refl, (refl, tt)) (refl, (refl, tt)) (omega arith, tt) (omega arith) refl refl before_4

-- A HyperDex client that numbers its requests.
abbrev hyperdex : Hyperdex ℕ
hyperdex = record { condput = λ old new h. (some h, suc h) }

abbrev stored : ℕ → ℕ → ℕ × UpdateReply
stored si bid =
    (si, record { nonce = 0; rc = response_success; bid = bid; file_offset = 0; block_len = 2 })

abbrev waiting : PendingWrite
waiting = record {
  outstanding_wtf = 4 ∷ 7 ∷ [];
  outstanding_hyperdex = [];
  old_blockmap = [];
  changeset = [];
}

abbrev new_file : File
new_file = record { block_map = []; offset = 2; replicas = 2; block_size = 4096 }

both : SameServers (7 ∷ 4 ∷ []) (4 ∷ 7 ∷ [])
both x = omega arith

write-replied_example :
    let (op', f', h') =
      handle_wtf_messages padded hyperdex (stored 7 6 ∷ stored 4 8 ∷ []) waiting new_file 1 in
    (f' ≡ record new_file { block_map = insert 0 2 (replicas (stored 7 6 ∷ stored 4 8 ∷ [])) [] })
    × (op'.outstanding_wtf ≡ [])
    × (op'.outstanding_hyperdex ≡ 1 ∷ [])
    × (h' ≡ 2)
write-replied_example =
    write-replied padded hyperdex 0 (stored 7 6) (stored 4 8 ∷ []) waiting new_file 1 refl refl
      (refl, (refl, tt)) both

write-waits_example :
    let (op', f', h') = handle_wtf_messages padded hyperdex (stored 7 6 ∷ []) waiting new_file 1 in
    (f' ≡ new_file) × (h' ≡ 1) × SameServers (4 ∷ []) op'.outstanding_wtf
write-waits_example = write-waits padded hyperdex 4 [] (stored 7 6 ∷ []) waiting new_file 1 both

write-owner_example :
    owner
      (handle_wtf_messages padded hyperdex
        (stored 7 6 ∷ stored 4 8 ∷ [])
        waiting
        new_file
        1).1.block_map
      1
    ≡ some (replicas (stored 7 6 ∷ stored 4 8 ∷ []))
write-owner_example =
    write-owner padded hyperdex 0 (stored 7 6) (stored 4 8 ∷ []) waiting new_file 1 refl refl
      (refl, (refl, tt)) both tt (omega arith) (omega arith) (omega arith) (omega arith) 1

abbrev five_bytes : List ℕ
five_bytes = 1 ∷ 2 ∷ 3 ∷ 4 ∷ 5 ∷ []

write_loop-Cover_example :
    (chunks : List Chunk) × (write_loop 5 2 10 five_bytes ≡ some (chunks, 15))
    × Cover 2 10 five_bytes chunks
write_loop-Cover_example =
    write_loop-Cover 5 2 10 five_bytes (omega arith) (omega arith) (omega arith)
