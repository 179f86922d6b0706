-- ===== src/Upstream/Pipeline.antt =====
-- The queries in flight on one DNS over TLS connection: `DotConnection` of
-- server/src/utils/upstream-pool.js. Replies come in any order; each is matched by the id that its
-- query was sent under, and the client's own id is put back.
pub mod Matching
use cidrella.Base.{
  ℕ, zero, suc, ◌+◌, ◌*◌, ◌/◌, ◌%◌, Bool, true, false, not, ◌&&◌, ◌||◌, Option, none, some, List,
  [], ◌∷◌, ◌++◌, ltb, ◌==◌, if◌then◌else◌, ◌>>=◌, is_some,
}
use cidrella.Upstream.{frame_tcp_message}

-- A call in flight; `token` stands for its promise.
pub record Call : Type 0 where
  pub token : ℕ
  pub original_id : ℕ

-- `this.pending` by wire id, and `this.nextId`.
pub record DotState : Type 0 where
  pub pending : List (ℕ × Call)
  pub next_id : ℕ

unfoldable pub lookup : ℕ → List (ℕ × Call) → Option Call
lookup id [] = none
lookup id (entry ∷ pending) =
    let rest = lookup id pending in if entry.0 == id then some entry.1 else rest

-- `this.pending.delete(id)`
unfoldable pub remove : ℕ → List (ℕ × Call) → List (ℕ × Call)
remove id [] = []
remove id (entry ∷ pending) =
    let rest = remove id pending in if entry.0 == id then rest else entry ∷ rest

-- The loop of `allocateId`: the id, and the next one to try.
unfoldable pub allocate_from : ℕ → List (ℕ × Call) → ℕ → Option ℕ × ℕ
allocate_from zero pending next = (none, next)
allocate_from (suc left) pending next =
    let later = allocate_from left pending ((next + 1) % 65536) in
    if is_some (lookup next pending) then later else (some next, (next + 1) % 65536)

unfoldable pub allocate_id : DotState → Option ℕ × ℕ
allocate_id state = allocate_from 65536 state.pending state.next_id

-- What a send does: there is no free id, a frame is written, or it throws.
pub data SendResult : Type 0 where
  no_free_id threw : SendResult
  written : List ℕ → SendResult

abbrev pub begin_call : DotState → ℕ → ℕ → Option ℕ × ℕ → DotState
begin_call state token original (none, next) = record state { next_id = next }
begin_call state token original (some id, next) = record {
  pending = (id, record { token = token; original_id = original }) ∷ state.pending;
  next_id = next;
}

abbrev pub framed : Option (List ℕ) → SendResult
framed none = threw
framed (some frame) = written frame

-- A query that is too long for a frame makes it throw.
abbrev pub frame_for : List ℕ → Option ℕ × ℕ → SendResult
frame_for tail (none, next) = no_free_id
frame_for tail (some id, next) = framed (frame_tcp_message (id / 256 ∷ id % 256 ∷ tail))

-- A query without the two bytes of an id: the read throws, before the call is among the pending ones.
abbrev pub send_short : DotState → Option ℕ × ℕ → DotState × SendResult
send_short state (none, next) = (record state { next_id = next }, no_free_id)
send_short state (some id, next) = (record state { next_id = next }, threw)

-- A query that is too long throws when it is pending already, and stays so.
unfoldable pub dot_send : DotState → ℕ → List ℕ → DotState × SendResult
dot_send state token [] = send_short state (allocate_id state)
dot_send state token (h ∷ []) = send_short state (allocate_id state)
dot_send state token (h ∷ (l ∷ tail)) =
    let allocated = allocate_id state in
    (begin_call state token (h * 256 + l) allocated, frame_for tail allocated)

-- A response that resolves a call.
pub record Delivery : Type 0 where
  pub token : ℕ
  pub response : List ℕ

abbrev pub resolve : DotState → ℕ → List ℕ → Option Call → DotState × List Delivery
resolve state id tail none = (state, [])
resolve state id tail (some call) = (
  record state { pending = remove id state.pending },
  record { token = call.token; response = call.original_id / 256 ∷ call.original_id % 256 ∷ tail }
      ∷ [],
)

-- One message of the loop of `onData`; a late reply and a message without an id are skipped.
unfoldable pub deliver : DotState → List ℕ → DotState × List Delivery
deliver state [] = (state, [])
deliver state (h ∷ []) = (state, [])
deliver state (h ∷ (l ∷ tail)) =
    resolve state (h * 256 + l) tail (lookup (h * 256 + l) state.pending)

-- The loop over the messages.
unfoldable pub deliver_all : DotState → List (List ℕ) → DotState × List Delivery
deliver_all state [] = (state, [])
deliver_all state (message ∷ messages) =
    let first = deliver state message in
    let rest = deliver_all first.0 messages in (rest.0, first.1 ++ rest.1)

-- A call that timed out is taken off the pending ones by its cleanup.
unfoldable pub time_out : DotState → ℕ → DotState
time_out state id = record state { pending = remove id state.pending }
