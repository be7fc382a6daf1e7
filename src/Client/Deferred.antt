-- ===== src/Client/Deferred.antt =====
-- client/pending_write.cc: `try_op`, `do_op` and `handle_hyperdex_message`, by which the writes of one file
-- at one offset wait for one another; and the last operations of client/file.cc.
mod Queued
pub mod Alone
pub mod Stuck
use wtf.Prelude.{
  ℕ, Bool, true, false, Option, none, some, List, [], ◌∷◌, ◌++◌, ◌==◌, ◌||◌, if◌then◌else◌, ◌%◌,
  ◌^◌, ◌≡◌,
}
use wtf.OrdMap.{OrdMap}
use wtf.Codec.{Bytes, Codec}
use wtf.Client.File.{Block, File, serialize_blockmap}

-- `class pending_write`: the fields that decide when it runs, and those that `do_op` sets. A pointer
-- that is NULL is `none`.
pub record Op : Type 0 where
  pub offset : ℕ
  pub deferred : Bool
  pub retry : Bool
  pub retried : Bool
  pub next : Option ℕ
  pub old_blockmap : Bytes
  pub changeset : OrdMap Block

-- `pending_write::pending_write`
abbrev pub new_op : ℕ → Op
new_op offset = record {
  offset = offset;
  deferred = false;
  retry = false;
  retried = false;
  next = none;
  old_blockmap = [];
  changeset = [];
}

-- A file with its writes: the objects by their addresses, and `m_last_op`. Kept for the theorems: which
-- writes have messages on their way (`do_op` was called, and the put has not succeeded since), and the
-- calls of `do_op`, oldest first, each with the write's offset.
pub record Writes : Type 0 where
  pub file : File
  pub last_op : ℕ → Option ℕ
  pub ops : ℕ → Option Op
  pub in_flight : ℕ → Bool
  pub started : List (ℕ × ℕ)

abbrev pub put {ℓ} : {A : Type ℓ} → ℕ → A → (ℕ → A) → ℕ → A
put i a f j = if i == j then a else f j

-- The key in `m_last_op`: the offset as a `uint32_t`.
abbrev pub key : ℕ → ℕ
key offset = offset % 2 ^ 32

-- A client that has opened the file.
abbrev pub no_writes : File → Writes
no_writes f = record {
  file = f;
  last_op = λ k. none;
  ops = λ i. none;
  in_flight = λ i. false;
  started = [];
}

-- `last_op->m_next = this`
abbrev pub with_next : ℕ → Option Op → Option Op
with_next i none = none
with_next i (some o) = some (record o { next = some i })

abbrev pub with_changeset : OrdMap Block → Option Op → Option Op
with_changeset m none = none
with_changeset m (some o) = some (record o { changeset = m })

module _ (c : Codec) where
  -- `do_op`. (New block locations, where the write was deferred or retried, and the messages of
  -- `send_data` are left out: whether they are sent changes an error code alone.)
  unfoldable pub do_op : ℕ → Writes → Writes
  do_op i s = elim (s.ops i) [
    | none ↦ s
    | some o ↦ record s {
      ops =
          put i (some (record o { old_blockmap = serialize_blockmap c s.file; changeset = [] }))
            s.ops;
      in_flight = put i true s.in_flight;
      started = s.started ++ ((i, o.offset) ∷ []);
    }
  ]

  -- `try_op`
  unfoldable pub try_op : ℕ → Writes → Writes
  unfolding do_op
  try_op i s = elim (s.ops i) [
    | none ↦ s
    | some o ↦ elim (s.last_op (key o.offset)) [
      | none ↦ do_op i (record s { last_op = put (key o.offset) (some i) s.last_op })
      | some l ↦
          let ops = put i (some (record o { deferred = true })) s.ops in
          record s {
            ops = put l (with_next i (ops l)) ops;
            last_op = put (key o.offset) (some i) s.last_op;
          }
    ]
  ]

  -- A new write at an offset, as `client::write` makes it.
  unfoldable pub write_at : ℕ → ℕ → Writes → Writes
  unfolding try_op
  write_at i offset s = try_op i (record s { ops = put i (some (new_op offset)) s.ops })

  -- `m_next->do_op()`, if there is one
  unfoldable pub run_next : Option ℕ → Writes → Writes
  unfolding do_op
  run_next none s = s
  run_next (some n) s = do_op n s

  -- The branches of `handle_hyperdex_message`, by `m_retry` and by whether the put succeeded. (What
  -- `handle_new_metadata` reads of the file's attributes is left out.)
  unfoldable pub answer_to : Bool → Bool → Op → ℕ → Writes → Writes
  unfolding do_op run_next
  answer_to true success o i s =
      do_op i (record s { ops = put i (some (record o { retry = false; retried = true })) s.ops })
  answer_to false false o i s = record s { ops = put i (some (record o { retry = true })) s.ops }
  answer_to false true o i s = run_next o.next (record s { in_flight = put i false s.in_flight })

  -- `handle_hyperdex_message`, for a put that succeeded or did not, or for the file's attributes that
  -- `get_new_metadata` asked for.
  unfoldable pub handle_hyperdex_message : ℕ → Bool → Writes → Writes
  unfolding answer_to
  handle_hyperdex_message i success s = elim (s.ops i) [
    | none ↦ s
    | some o ↦ answer_to o.retry success o i s
  ]

  -- What can come next: a new write, an answer of HyperDex to a write that waits for one, and the
  -- replies of storage servers, which change a write's changeset and the file's map.
  pub data Step (s : Writes) : Writes → Type 0 where
    write : (i offset : ℕ) → s.ops i ≡ none → Step s (write_at i offset s)
    answer :
        (i : ℕ) (success : Bool)
        → s.in_flight i ≡ true
        → Step s (handle_hyperdex_message i success s)
    reply :
        (i : ℕ) (m : OrdMap Block) (f : File)
        → Step s (record s { file = f; ops = put i (with_changeset m (s.ops i)) s.ops })

  pub data Steps (s : Writes) : Writes → Type 0 where
    stop : Steps s s
    step : {t u : Writes} → Steps s t → Step t u → Steps s u

-- The key of a write, and the write behind it.
abbrev pub key_in : Option Op → Option ℕ
key_in none = none
key_in (some o) = some (key o.offset)

abbrev pub next_in : Option Op → Option ℕ
next_in none = none
next_in (some o) = o.next

-- The calls of `do_op` for the writes at a key.
abbrev pub starts_at : ℕ → List (ℕ × ℕ) → List ℕ
starts_at k [] = []
starts_at k ((i, offset) ∷ l) = if key offset == k then i ∷ starts_at k l else starts_at k l
