-- ===== src/Upstream.antt =====
-- The encrypted connections to the upstreams, server/src/utils/upstream-pool.js, and the framing of
-- DNS messages on a stream, server/src/utils/dns-wire.js. Sockets, timers and TLS are outside of the
-- model: what a send results in is a parameter.
pub mod Framing
pub mod Failover
pub mod Policy
pub mod Pipeline
use cidrella.Base.{
  ℕ, zero, suc, ◌+◌, ◌-◌, ◌*◌, ◌/◌, ◌%◌, ◌^◌, bit_and, Bool, true, false, not, ◌&&◌, ◌||◌, Option,
  none, some, List, [], ◌∷◌, ◌++◌, length, take, drop, ltb, leb, ◌==◌, if◌then◌else◌,
}

-- `lenBuf.writeUInt16BE(payload.length, 0)`; a longer payload makes it throw.
unfoldable pub frame_tcp_message : List ℕ → Option (List ℕ)
frame_tcp_message payload =
    if ltb 65535 (length payload)
    then none
    else some (length payload / 256 ∷ length payload % 256 ∷ payload)

pub record Extracted : Type 0 where
  pub messages : List (List ℕ)
  pub rest : List ℕ

-- The loop of `extractTcpMessages` on what is left of the buffer; a round takes two bytes at least.
unfoldable pub extract_from : ℕ → List ℕ → Extracted
extract_from zero buf = record { messages = []; rest = buf }
extract_from (suc fuel) [] = record { messages = []; rest = [] }
extract_from (suc fuel) (h ∷ []) = record { messages = []; rest = h ∷ [] }
extract_from (suc fuel) (h ∷ (l ∷ tail)) =
    let size = h * 256 + l in
    let later = extract_from fuel (drop size tail) in
    if ltb (length tail) size
    then record { messages = []; rest = h ∷ l ∷ tail }
    else record { messages = take size tail ∷ later.messages; rest = later.rest }

unfoldable pub extract_tcp_messages : List ℕ → Extracted
extract_tcp_messages buf = extract_from (length buf) buf

-- `this.buf` and what `onData` takes out of it.
unfoldable pub on_data : List ℕ → List ℕ → Extracted
on_data buf chunk = extract_tcp_messages (buf ++ chunk)

-- Why a query got no answer, or its answer.
pub data Outcome : Type 0 where
  response : List ℕ → Outcome
  connect closed timeout http downgrade : Outcome

abbrev pub closed_retries : ℕ
closed_retries = 2

-- The sends so far, the answer, and the outcomes that `onError` is given.
pub record Result : Type 0 where
  pub sends : ℕ
  pub value : Option (List ℕ)
  pub errors : List Outcome

-- What follows from the last outcome on an address; `rest` is for the addresses behind it.
abbrev pub settle : ℕ → Outcome → Result → Result
settle sends (response r) rest = record { sends = sends; value = some r; errors = [] }
settle sends connect rest = record rest { errors = connect ∷ rest.errors }
settle sends closed rest = record rest { errors = closed ∷ rest.errors }
settle sends timeout rest = record { sends = sends; value = none; errors = timeout ∷ [] }
settle sends http rest = record { sends = sends; value = none; errors = http ∷ [] }
settle sends downgrade rest = record { sends = sends; value = none; errors = downgrade ∷ [] }

-- The `send`-th send, to this address, of one query; `timeout` where no time is left.
module _ (attempt : ℕ → ℕ → Outcome) where
  -- The loop over the retries of a query that was dropped: the sends so far and the last outcome.
  unfoldable pub retry_closed : ℕ → ℕ → ℕ → Outcome → ℕ × Outcome
  retry_closed zero address sends outcome = (sends, outcome)
  retry_closed (suc left) address sends closed =
      retry_closed left address (sends + 1) (attempt sends address)
  retry_closed (suc left) address sends (response r) = (sends, response r)
  retry_closed (suc left) address sends connect = (sends, connect)
  retry_closed (suc left) address sends timeout = (sends, timeout)
  retry_closed (suc left) address sends http = (sends, http)
  retry_closed (suc left) address sends downgrade = (sends, downgrade)

  -- One more send over HTTP/1.1 if the first was answered with a downgrade.
  unfoldable pub after_downgrade : ℕ → ℕ → Outcome → ℕ × Outcome
  after_downgrade address sends downgrade = (sends + 1, attempt sends address)
  after_downgrade address sends closed = (sends, closed)
  after_downgrade address sends (response r) = (sends, response r)
  after_downgrade address sends connect = (sends, connect)
  after_downgrade address sends timeout = (sends, timeout)
  after_downgrade address sends http = (sends, http)

  -- Every send to one address.
  unfoldable pub try_address : ℕ → ℕ → ℕ × Outcome
  try_address address sends =
      let first = after_downgrade address (sends + 1) (attempt sends address) in
      retry_closed closed_retries address first.0 first.1

  -- The loop over the addresses.
  unfoldable pub query_from : List ℕ → ℕ → Result
  query_from [] sends = record { sends = sends; value = none; errors = [] }
  query_from (address ∷ addresses) sends =
      let tried = try_address address sends in
      let rest = query_from addresses tried.0 in settle tried.0 tried.1 rest
