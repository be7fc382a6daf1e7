-- ===== src/Client/Nonces.antt =====
-- The nonces of an operation's requests, and those of the replies to an update.
use wtf.Prelude.{
  ℕ, zero, suc, ◌+◌, ◌<◌, ◌≡◌, ◌≢◌, refl, sym, ap, ◌∙◌, true, false, some, List, [], ◌∷◌, ◌++◌, map,
  arith, length, word, add64, sub64, add64_exact, sub64_exact, get_elem?, All, Bool,
}
use mathlib.Core.List.{append-nil}
use wtf.OrdMap.{OrdMap, lookup, insert_new}
use wtf.OrdMap.Append.{Below, Below-mono, lookup-append, insert_new-append}
use wtf.Codec.{Codec}
use wtf.IntervalMap.{BlockLocation}
use wtf.BlockStore.{BlockMap, Db}
use wtf.Daemon.{max64, UpdateRequest, UpdateReply, answered, own_block, forwards, process_update}
use wtf.Daemon.Answers.{reply_nonce-first, process_update-answers}
use wtf.Client.{
  Pending, SendResult, sent, Client, Message, send_or_fail, send_all, perform_aggregation, receive,
  handled,
}

-- The servers' entries, from the nonce `n` on.
abbrev numbered : ℕ → ℕ → List ℕ → OrdMap Pending
numbered op n [] = []
numbered op n (to ∷ servers) = (n, record { si = to; op = op }) ∷ numbered op (suc n) servers

lookup-numbered :
    (op n i si : ℕ) (servers : List ℕ)
    → get_elem? i servers ≡ some si
    → lookup (n + i) (numbered op n servers) ≡ some (record { si = si; op = op })
lookup-numbered op n i si [] e = ground (arith, e)
lookup-numbered op n zero si (to ∷ servers) e = ground (arith, e)
lookup-numbered op n (suc i) si (to ∷ servers) e =
    ground (arith, lookup-numbered op (suc n) i si servers e)

insert_new-numbered :
    (op n si : ℕ) (servers : List ℕ)
    → insert_new n (record { si = si; op = op }) (numbered op (suc n) servers)
      ≡ numbered op n (si ∷ servers)
insert_new-numbered op n si [] = ground arith
insert_new-numbered op n si (to ∷ servers) = ground arith

module _ (result : ℕ → SendResult) (op : ℕ) where
  -- A request that is sent.
  send_or_fail-sent :
      (to n : ℕ) (servers : List ℕ) (p : OrdMap Pending) (s : Client)
      → result to ≡ sent
      → Below n p
      → s.pending_ops ≡ p ++ numbered op (suc n) servers
      → (send_or_fail result op to n s).pending_ops ≡ p ++ numbered op n (to ∷ servers)
  send_or_fail-sent to n servers p s ok b e =
      let q : Pending = record { si = to; op = op } in
      let h =
        ap (insert_new n q) e
        ∙ insert_new-append n q p (numbered op (suc n) servers) b
        ∙ ap (λ r. p ++ r) (insert_new-numbered op n to servers) in
      ground (arith, ok, h)

  -- The loop over servers that all take their message.
  send_all-numbered :
      (first : Bool) (servers : List ℕ) (n nonce : ℕ) (s : Client)
      → All (λ to. result to ≡ sent) servers
      → Below n s.pending_ops
      → nonce ≡ n + length servers
      → nonce < word
      → ((send_all result op first servers nonce s).0 ≡ n)
        × ((send_all result op first servers nonce s).2.pending_ops
            ≡ s.pending_ops ++ numbered op n servers)
  send_all-numbered first [] n nonce s ok b e w = (omega (arith, e), sym (append-nil s.pending_ops))
  send_all-numbered first (to ∷ servers) n nonce s ok b e w =
      let (h, g) =
        send_all-numbered false servers (suc n) nonce s ok.1
          (Below-mono {j = n} s.pending_ops (omega arith) b) (omega arith) w in
      let k : sub64 (send_all result op false servers nonce s).0 1 ≡ n =
        ground (arith, h, sub64_exact (suc n) 1) in
      (
        k,
        rw k (
            send_or_fail-sent to n servers s.pending_ops
              (send_all result op false servers nonce s).2 ok.0 b g),
      )

own_block-fresh :
    (us : ℕ) (ls : List BlockLocation) → All (λ r. r.bi ≡ max64) ls → own_block us ls max64 ≡ max64
own_block-fresh us [] h = refl
own_block-fresh us (l ∷ ls) h = ground (arith, own_block-fresh us ls h.1)

length-servers : (ls : List BlockLocation) → length (map (λ r. r.si) ls) ≡ length ls
length-servers [] = refl
length-servers (l ∷ ls) = ap suc (length-servers ls)

get_elem?-servers :
    (i : ℕ) (l : BlockLocation) (ls : List BlockLocation)
    → get_elem? i ls ≡ some l
    → get_elem? i (map (λ r. r.si) ls) ≡ some l.si
get_elem?-servers i l [] e = ground (arith, e)
get_elem?-servers zero l (x ∷ ls) e = ground (arith, e)
get_elem?-servers (suc i) l (x ∷ ls) e = get_elem?-servers i l ls e

get_elem?-length :
    {A : Type 0} (i : ℕ) (a : A) (xs : List A) → get_elem? i xs ≡ some a → i < length xs
get_elem?-length i a [] e = ground (arith, e)
get_elem?-length zero a (x ∷ xs) e = omega arith
get_elem?-length (suc i) a (x ∷ xs) e = omega (arith, get_elem?-length i a xs e)

servers-sent :
    (result : ℕ → SendResult) (ls : List BlockLocation)
    → All (λ r. result r.si ≡ sent) ls
    → All (λ to. result to ≡ sent) (map (λ r. r.si) ls)
servers-sent result [] h = tt
servers-sent result (l ∷ ls) h = (h.0, servers-sent result ls h.1)

-- A reply under the nonce of the request to the server that sends it, which is in the configuration.
receive-handled :
    (op si n : ℕ) (s : Client)
    → lookup n s.pending_ops ≡ some (record { si = si; op = op })
    → (receive false true si n s).0 ≡ handled op
unfolding receive
receive-handled op si n s e = ground (arith, e)

All-snoc :
    {A : Type 0} (P : A → Type 0) (xs : List A) (a : A) → All P xs → P a → All P (xs ++ (a ∷ []))
All-snoc P [] a h p = (p, tt)
All-snoc P (x ∷ xs) a h p = (h.0, All-snoc P xs a h.1 p)

-- A message that does not go to the first server is a NOP.
send_all-nops :
    (result : ℕ → SendResult) (op : ℕ) (servers : List ℕ) (nonce : ℕ) (s : Client)
    → All (λ m. m.is_data ≡ false) (send_all result op false servers nonce s).1
send_all-nops result op [] nonce s = tt
send_all-nops result op (to ∷ servers) nonce s =
    All-snoc (λ m. m.is_data ≡ false) (send_all result op false servers nonce s).1 _
      (send_all-nops result op servers nonce s) refl

-- The operation's message goes to the first server, under the next nonce.
perform_aggregation-data :
    (result : ℕ → SendResult) (op : ℕ) (to : ℕ) (rest : List ℕ) (servers : List ℕ) (s : Client)
    → servers ≡ to ∷ rest
    → All (λ r. result r ≡ sent) servers
    → Below s.next_server_nonce s.pending_ops
    → s.next_server_nonce + length servers < word
    → (nops : List Message) × ((perform_aggregation result op servers s).0
        ≡ nops ++ ((record { to = to; nonce = s.next_server_nonce; is_data = true }) ∷ []))
      × All (λ m. m.is_data ≡ false) nops
unfolding perform_aggregation
perform_aggregation-data result op to rest [] s e ok b w = absurd (cc)
perform_aggregation-data result op to rest (x ∷ xs) s e ok b w =
    let nonce = add64 s.next_server_nonce (length (x ∷ xs)) in
    let n = add64_exact s.next_server_nonce (length (x ∷ xs)) w in
    let s' = record s { next_server_nonce = nonce } in
    let k =
      (send_all-numbered result op true (x ∷ xs) s.next_server_nonce nonce s' ok b n
        (omega (arith, n))).0 in
    (
      (send_all result op false xs nonce s').1,
      ground (arith, k, e),
      send_all-nops result op xs nonce s',
    )

perform_aggregation-numbered :
    (result : ℕ → SendResult) (op : ℕ) (servers : List ℕ) (s : Client)
    → All (λ to. result to ≡ sent) servers
    → Below s.next_server_nonce s.pending_ops
    → s.next_server_nonce + length servers < word
    → (perform_aggregation result op servers s).1.pending_ops
      ≡ s.pending_ops ++ numbered op s.next_server_nonce servers
unfolding perform_aggregation
perform_aggregation-numbered result op servers s ok b w =
    let nonce = add64 s.next_server_nonce (length servers) in
    let e = add64_exact s.next_server_nonce (length servers) w in
    (send_all-numbered result op true servers s.next_server_nonce nonce
      (record s { next_server_nonce = nonce }) ok b e (omega (arith, e))).1

-- If all servers of an update take their message, none of its locations names a block, and the pending
-- nonces are below the next one (with no nonce past 64 bits), then only the last message that the client
-- sends is no NOP, and it goes to the first server under the update's nonce. The i-th server, where no
-- server before it is the same, answers the client once, after its forwards. If that server is in the
-- client's configuration when the answer comes, and the answer is no mismatch of configurations, the
-- client hands it to the operation that it belongs to.
pub reply-handled :
    {St : Type 0} (c : Codec) (db : Db St) (result : ℕ → SendResult) (op : ℕ) (s : Client)
    (q : UpdateRequest) (blocks : BlockMap St) (offset unset i : ℕ) (bl l : BlockLocation)
    (ls : List BlockLocation)
    → q.locations ≡ bl ∷ ls
    → All (λ r. result r.si ≡ sent) q.locations
    → All (λ r. r.bi ≡ max64) q.locations
    → Below s.next_server_nonce s.pending_ops
    → s.next_server_nonce + length q.locations < word
    → q.nonce ≡ s.next_server_nonce
    → get_elem? i q.locations ≡ some l
    → ((k : ℕ) (r : BlockLocation) → k < i → get_elem? k q.locations ≡ some r → r.si ≢ l.si)
    → let (messages, s') = perform_aggregation result op (map (λ r. r.si) q.locations) s in
      (nops : List Message) × (reply : UpdateReply) × (blocks' : BlockMap St) × (messages
        ≡ nops ++ ((record { to = bl.si; nonce = q.nonce; is_data = true }) ∷ []))
      × All (λ m. m.is_data ≡ false) nops
      × (process_update c db l.si offset unset q blocks
          ≡ some (forwards l.si bl ls q ++ (answered q.sender reply ∷ []), blocks'))
      × ((receive false true l.si reply.nonce s').0 ≡ handled op)
reply-handled c db result op s q blocks offset unset i bl l ls e ok fresh b w n at first =
    let servers = map (λ (r : BlockLocation). r.si) q.locations in
    let w' : s.next_server_nonce + length servers < word =
      omega (arith, length-servers q.locations) in
    let (nops, d, only) =
      perform_aggregation-data result op bl.si (map (λ r. r.si) ls) servers s
        (ap (map (λ r. r.si)) e) (servers-sent result q.locations ok) b w' in
    let (reply, blocks', h, m, _) =
      process_update-answers c db l.si q bl ls blocks offset unset e
        (own_block-fresh l.si q.locations fresh) in
    let m' : reply.nonce ≡ s.next_server_nonce + i =
      m ∙ reply_nonce-first i 0 l q.locations q.nonce at first (omega arith) ∙ omega arith in
    let p =
      perform_aggregation-numbered result op servers s (servers-sent result q.locations ok) b w' in
    let f =
      lookup-append (s.next_server_nonce + i) s.pending_ops
        (numbered op s.next_server_nonce servers)
        (Below-mono {j = s.next_server_nonce} s.pending_ops (omega arith) b) in
    let g =
      lookup-numbered op s.next_server_nonce i l.si servers
        (get_elem?-servers i l q.locations at) in
    (
      nops,
      reply,
      blocks',
      d ∙ ap (λ k. nops ++ ((record { to = bl.si; nonce = k; is_data = true }) ∷ [])) (sym n),
      only,
      h,
      receive-handled op l.si reply.nonce _ (
          ap (λ k. lookup k (perform_aggregation result op servers s).1.pending_ops) m'
          ∙ ap (lookup (s.next_server_nonce + i)) p
          ∙ f
          ∙ g),
    )
