-- ===== src/Tests/Upstreams.antt =====
-- The theorems on the encrypted upstream connections, at concrete messages and outcomes.
use cidrella.Base.{
  ℕ, ◌+◌, ◌*◌, ◌/◌, ◌%◌, ◌<◌, ◌≡◌, refl, arith, some, none, List, [], ◌∷◌, ◌++◌, ltb, if◌then◌else◌,
}
use cidrella.Upstream.{
  frame_tcp_message, on_data, Outcome, response, connect, closed, timeout, query_from, try_address,
  retry_closed, after_downgrade,
}
use cidrella.Upstream.Framing.{followed_by, on_data-append}
use cidrella.Upstream.Policy.{Follows, query_from-Follows}
use cidrella.Upstream.Pipeline.{
  DotState, lookup, allocate_from, allocate_id, begin_call, deliver, deliver_all,
}
use cidrella.Upstream.Pipeline.Matching.{allocate_id-given, deliver_all-matched}

on_data-append_example :
    on_data [] ((0 ∷ 2 ∷ 7 ∷ []) ++ (8 ∷ 0 ∷ []))
    ≡ followed_by
        (on_data [] (0 ∷ 2 ∷ 7 ∷ []))
        (on_data (on_data [] (0 ∷ 2 ∷ 7 ∷ [])).rest (8 ∷ 0 ∷ []))
on_data-append_example = on_data-append [] (0 ∷ 2 ∷ 7 ∷ []) (8 ∷ 0 ∷ [])

framed_two : frame_tcp_message (7 ∷ 8 ∷ []) ≡ some (0 ∷ 2 ∷ 7 ∷ 8 ∷ [])
unfolding frame_tcp_message
framed_two = refl

abbrev two_addresses : List ℕ
two_addresses = 5 ∷ 6 ∷ []

-- The first two sends are dropped, and the third is answered.
abbrev third_time : ℕ → ℕ → Outcome
third_time i address = if ltb i 2 then closed else response (1 ∷ 2 ∷ [])

third_answered : (query_from third_time two_addresses 0).value ≡ some (1 ∷ 2 ∷ [])
unfolding query_from try_address retry_closed after_downgrade
third_answered = refl

query_from-Follows_example :
    Follows third_time two_addresses 0 (query_from third_time two_addresses 0)
query_from-Follows_example = query_from-Follows third_time two_addresses 0

-- A timeout ends the query, and the second address is not sent to.
abbrev times_out : ℕ → ℕ → Outcome
times_out i address = timeout

timed_out :
    query_from times_out two_addresses 0 ≡ record { sends = 1; value = none; errors = timeout ∷ [] }
unfolding query_from try_address retry_closed after_downgrade
timed_out = refl

abbrev never : ℕ → ℕ → Outcome
never i address = connect

abbrev one_pending : DotState
one_pending = record {
  pending = (65535, record { token = 1; original_id = 9 }) ∷ [];
  next_id = 65535;
}

wraps : (allocate_id one_pending).0 ≡ some 0
unfolding allocate_id allocate_from lookup
wraps = refl

zero_free : lookup 0 one_pending.pending ≡ none
unfolding lookup
zero_free = refl

allocate_id-given_example :
    (given : ℕ) × (((allocate_id one_pending).0 ≡ some given)
      × (lookup given one_pending.pending ≡ none)
      × (given < 65536))
allocate_id-given_example = allocate_id-given one_pending 0 (omega arith) (omega arith) zero_free

deliver_all-matched_example :
    ((deliver
        (deliver_all
          (begin_call one_pending 2 (3 * 256 + 4) (allocate_id one_pending))
          ((255 ∷ 255 ∷ 1 ∷ []) ∷ [])).0
        (0 / 256 ∷ 0 % 256 ∷ 5 ∷ [])).1
      ≡ record { token = 2; response = 3 ∷ 4 ∷ 5 ∷ [] } ∷ [])
    × (lookup 0
          (deliver
            (deliver_all
              (begin_call one_pending 2 (3 * 256 + 4) (allocate_id one_pending))
              ((255 ∷ 255 ∷ 1 ∷ []) ∷ [])).0
            (0 / 256 ∷ 0 % 256 ∷ 5 ∷ [])).0.pending
        ≡ none)
deliver_all-matched_example =
    deliver_all-matched one_pending 2 3 4 0 ((255 ∷ 255 ∷ 1 ∷ []) ∷ []) (5 ∷ []) (omega arith) wraps
      (refl, tt) (omega arith) (omega arith)
