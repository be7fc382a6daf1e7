-- ===== src/Client.antt =====
-- client/client.cc and client/pending_aggregation.cc: the requests of an operation that are with the
-- storage servers, each under its nonce.
pub mod Nonces
pub mod File
pub mod Write
pub mod Paths
pub mod PendingWrite
pub mod Deferred
pub mod Replies
use wtf.Prelude.{
  ℕ, suc, Bool, true, false, Option, none, some, List, [], ◌∷◌, ◌++◌, ◌==◌, if◌then◌else◌, length,
  add64, sub64,
}
use wtf.OrdMap.{OrdMap, lookup, insert_new, erase}

-- `class pending_server_pair`, with the operation by its id.
pub record Pending : Type 0 where
  pub si : ℕ
  pub op : ℕ

-- What `busybee.send` gives, as far as `client::send` tells it apart.
pub data SendResult : Type 0 where
  sent disrupted refused : SendResult

-- The fields of `class client` for requests to storage servers, with each operation's
-- `m_outstanding_wtf`.
pub record Client : Type 0 where
  pub next_server_nonce : ℕ
  pub pending_ops : OrdMap Pending
  pub failed : List Pending
  pub outstanding : ℕ → List ℕ

-- A message to a server: its nonce, and whether it is the operation's or only a NOP.
pub record Message : Type 0 where
  pub to : ℕ
  pub nonce : ℕ
  pub is_data : Bool

-- `m_outstanding_wtf` of the operation `op` set to `os`.
abbrev pub with_outstanding : ℕ → List ℕ → (ℕ → List ℕ) → ℕ → List ℕ
with_outstanding op os f i = if i == op then os else f i

-- `handle_disruption`: the pending requests of a server, and the others.
abbrev pub of_server : ℕ → OrdMap Pending → List Pending
of_server si [] = []
of_server si ((k, p) ∷ m) = if p.si == si then p ∷ of_server si m else of_server si m

abbrev pub not_of_server : ℕ → OrdMap Pending → OrdMap Pending
not_of_server si [] = []
not_of_server si ((k, p) ∷ m) =
    if p.si == si then not_of_server si m else (k, p) ∷ not_of_server si m

abbrev pub handle_disruption : ℕ → Client → Client
handle_disruption si s = record s {
  failed = s.failed ++ of_server si s.pending_ops;
  pending_ops = not_of_server si s.pending_ops;
}

-- `remove_wtf_message`: the first entry of the server goes.
abbrev pub remove_wtf_message : ℕ → List ℕ → List ℕ
remove_wtf_message si [] = []
remove_wtf_message si (o ∷ os) = if o == si then os else o ∷ remove_wtf_message si os

module _ (result : ℕ → SendResult) (op : ℕ) where
  -- `send`
  abbrev pub send : ℕ → ℕ → Client → Bool × Client
  send to nonce s = elim (result to) [
    | sent ↦ (
      true,
      record s {
        outstanding = with_outstanding op (s.outstanding op ++ (to ∷ [])) s.outstanding;
        pending_ops = insert_new nonce (record { si = to; op = op }) s.pending_ops;
      },
    )
    | disrupted ↦ (false, handle_disruption to s)
    | refused ↦ (false, s)
  ]

  -- One round of the loop of `perform_aggregation`: a request that cannot be sent has failed.
  abbrev pub send_or_fail : ℕ → ℕ → Client → Client
  send_or_fail to nonce s =
      let (ok, s') = send to nonce s in
      if ok then s' else record s' { failed = s'.failed ++ ((record { si = to; op = op }) ∷ []) }

  -- The loop, from the last server to the first: the nonce it comes to, the messages in the order in
  -- which they are sent, and the client. `first` is true for the list of all servers.
  abbrev pub send_all : Bool → List ℕ → ℕ → Client → ℕ × List Message × Client
  send_all first [] nonce s = (nonce, [], s)
  send_all first (to ∷ servers) nonce s =
      let (after, messages, s') = send_all false servers nonce s in
      let n = sub64 after 1 in
      (n, messages ++ ((record { to = to; nonce = n; is_data = first }) ∷ []), send_or_fail to n s')

  -- `perform_aggregation`
  unfoldable pub perform_aggregation : List ℕ → Client → List Message × Client
  perform_aggregation servers s =
      let nonce = add64 s.next_server_nonce (length servers) in
      let (n, messages, s') =
        send_all true servers nonce (record s { next_server_nonce = nonce }) in
      (messages, s')

-- What `inner_loop` does with a message of a storage server.
pub data Received : Type 0 where
  ignored mismatched wrong_server unconfigured : Received
  handled : (op : ℕ) → Received

-- The nonce is looked up and forgotten; where the message is a reply of the right server, the operation
-- gets it, and no longer waits for that server (`pending_aggregation::handle_wtf_message`).
unfoldable pub receive :
    (is_mismatch in_config : Bool) → (id nonce : ℕ) → Client → Received × Client
receive is_mismatch in_config id nonce s = elim (lookup nonce s.pending_ops) [
  | none ↦ (ignored, s)
  | some p ↦
      let s' = record s { pending_ops = erase nonce s.pending_ops } in
      if is_mismatch
      then (mismatched, record s' { failed = s'.failed ++ (p ∷ []) })
      else if id == p.si
      then (if in_config
          then (
            handled p.op,
            record s' {
              outstanding =
                  with_outstanding p.op (remove_wtf_message id (s'.outstanding p.op))
                    s'.outstanding;
            },
          )
          else (unconfigured, s'))
      else (wrong_server, s')
]
