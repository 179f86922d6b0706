-- ===== src/Upstream/Pipeline/Matching.antt =====
-- A new query gets an id that no query in flight has, and its reply reaches it whatever other
-- replies come before.
use cidrella.Base.{
  ℕ, zero, suc, ◌+◌, ◌-◌, ◌*◌, ◌/◌, ◌%◌, ◌<◌, ◌≡◌, ◌≢◌, refl, ap₂, ◌∙◌, subst, arith, inl, inr,
  Bool, true, false, Option, none, some, some-inj, is_some, List, [], ◌∷◌, All, ◌==◌, Bool-cases,
  Option-cases, ==_iff,
}
use cidrella.Upstream.Pipeline.{
  Call, DotState, lookup, remove, allocate_from, allocate_id, begin_call, resolve, deliver,
  deliver_all,
}

allocate_from-fresh :
    (left : ℕ) (pending : List (ℕ × Call)) (next id : ℕ)
    → next < 65536
    → (allocate_from left pending next).0 ≡ some id
    → (lookup id pending ≡ none) × (id < 65536)
unfolding allocate_from
allocate_from-fresh zero pending next id h e = absurd (cc)
allocate_from-fresh (suc left) pending next id h e = elim (Option-cases (lookup next pending)) [
  | inl free ↦
      let same : next ≡ id = some-inj (rw free at e) in
      (subst (λ i. lookup i pending ≡ none) same free, omega arith)
  | inr (call, taken) ↦
      allocate_from-fresh left pending ((next + 1) % 65536) id (omega arith) (rw taken at e)
]

-- An id that is given out is not in flight and fits two bytes.
pub allocate_id-fresh :
    (state : DotState) (id : ℕ)
    → state.next_id < 65536
    → (allocate_id state).0 ≡ some id
    → (lookup id state.pending ≡ none) × (id < 65536)
unfolding allocate_id
allocate_id-fresh state id h e = allocate_from-fresh 65536 state.pending state.next_id id h e

allocate_from-full :
    (left : ℕ) (pending : List (ℕ × Call)) (next i : ℕ)
    → (allocate_from left pending next).0 ≡ none
    → i < left
    → next < 65536
    → is_some (lookup ((next + i) % 65536) pending) ≡ true
unfolding allocate_from
allocate_from-full zero pending next i e h k = absurd (omega arith)
allocate_from-full (suc left) pending next zero e h k = elim (Option-cases (lookup next pending)) [
  | inl free ↦ absurd (let f = rw free at e in cc)
  | inr (call, taken) ↦
      let here : (next + 0) % 65536 ≡ next = omega arith in rw (here, taken) (refl)
]
allocate_from-full (suc left) pending next (suc i) e h k =
    elim (Option-cases (lookup next pending)) [
      | inl free ↦ absurd (let f = rw free at e in cc)
      | inr (call, taken) ↦
          let there : (next + suc i) % 65536 ≡ ((next + 1) % 65536 + i) % 65536 = omega arith in
          rw there (
            allocate_from-full left pending ((next + 1) % 65536) i (rw taken at e) (omega arith)
              (omega arith))
    ]

-- There is no free id only when all 65536 of them are in flight.
pub allocate_id-full :
    (state : DotState) (id : ℕ)
    → state.next_id < 65536
    → id < 65536
    → (allocate_id state).0 ≡ none
    → is_some (lookup id state.pending) ≡ true
unfolding allocate_id
allocate_id-full state id h k e =
    let at : (state.next_id + (id + 65536 - state.next_id) % 65536) % 65536 ≡ id = omega arith in
    subst (λ t. is_some (lookup t state.pending) ≡ true) at
      (allocate_from-full 65536 state.pending state.next_id ((id + 65536 - state.next_id) % 65536) e
        (omega arith) h)

lookup-remove :
    (id other : ℕ) (pending : List (ℕ × Call))
    → other ≢ id
    → lookup id (remove other pending) ≡ lookup id pending
unfolding lookup remove
lookup-remove id other [] h = refl
lookup-remove id other ((key, call) ∷ pending) h = elim (Bool-cases (key == other)) [
  | inl gone ↦
      let key_is : key ≡ other = (==_iff key other).0 gone in
      let apart : (key == id) ≡ false = ground arith in
      rw (gone, apart) (lookup-remove id other pending h)
  | inr kept ↦ rw (kept, lookup-remove id other pending h) (refl)
]

-- Whether a message carries the id.
abbrev pub carries : ℕ → List ℕ → Bool
carries id [] = false
carries id (h ∷ []) = false
carries id (h ∷ (l ∷ tail)) = h * 256 + l == id

abbrev pub Other : ℕ → List ℕ → Type 0
Other id message = carries id message ≡ false

resolve-other :
    (state : DotState) (other id : ℕ) (tail : List ℕ) (found : Option Call)
    → other ≢ id
    → lookup id (resolve state other tail found).0.pending ≡ lookup id state.pending
resolve-other state other id tail none h = refl
resolve-other state other id tail (some call) h = lookup-remove id other state.pending h

deliver-Other :
    (state : DotState) (message : List ℕ) (id : ℕ)
    → Other id message
    → lookup id (deliver state message).0.pending ≡ lookup id state.pending
unfolding deliver
deliver-Other state [] id h = refl
deliver-Other state (a ∷ []) id h = refl
deliver-Other state (a ∷ (b ∷ tail)) id h =
    resolve-other state (a * 256 + b) id tail (lookup (a * 256 + b) state.pending)
      (ground (arith, h))

deliver_all-Other :
    (state : DotState) (messages : List (List ℕ)) (id : ℕ)
    → All (Other id) messages
    → lookup id (deliver_all state messages).0.pending ≡ lookup id state.pending
unfolding deliver_all
deliver_all-Other state [] id h = refl
deliver_all-Other state (m ∷ messages) id (other, h) =
    deliver_all-Other (deliver state m).0 messages id h ∙ deliver-Other state m id other

deliver-own :
    (state : DotState) (id : ℕ) (tail : List ℕ) (call : Call)
    → id < 65536
    → lookup id state.pending ≡ some call
    → (deliver state (id / 256 ∷ id % 256 ∷ tail)).1
      ≡ record {
        token = call.token;
        response = call.original_id / 256 ∷ call.original_id % 256 ∷ tail;
      }
        ∷ []
unfolding deliver
deliver-own state id tail call h found =
    let whole : id / 256 * 256 + id % 256 ≡ id = omega arith in rw (whole, found) (refl)

lookup-remove_self : (id : ℕ) (pending : List (ℕ × Call)) → lookup id (remove id pending) ≡ none
unfolding lookup remove
lookup-remove_self id [] = refl
lookup-remove_self id (entry ∷ pending) = elim (Bool-cases (entry.0 == id)) [
  | inl hit ↦ rw hit (lookup-remove_self id pending)
  | inr miss ↦ rw (miss, miss) (lookup-remove_self id pending)
]

deliver-removed :
    (state : DotState) (id : ℕ) (tail : List ℕ) (call : Call)
    → id < 65536
    → lookup id state.pending ≡ some call
    → lookup id (deliver state (id / 256 ∷ id % 256 ∷ tail)).0.pending ≡ none
unfolding deliver
deliver-removed state id tail call h found =
    let whole : id / 256 * 256 + id % 256 ≡ id = omega arith in
    rw (whole, found) (lookup-remove_self id state.pending)

lookup-begin_call :
    (state : DotState) (token original id : ℕ) (allocated : Option ℕ × ℕ)
    → allocated.0 ≡ some id
    → lookup id (begin_call state token original allocated).pending
      ≡ some (record { token = token; original_id = original })
unfolding lookup
lookup-begin_call state token original id (none, next) e = absurd (cc)
lookup-begin_call state token original id (some j, next) e =
    let same : (j == id) ≡ true = (==_iff j id).1 (some-inj e) in rw same (refl)

-- A query that was sent under an id is in flight under it; after any replies with other ids, the reply
-- with its id goes to its caller, once, with the two bytes of the caller's own id in front;
-- and nothing is in flight under the id then.
pub deliver_all-matched :
    (state : DotState) (token h l id : ℕ) (messages : List (List ℕ)) (tail : List ℕ)
    → state.next_id < 65536
    → (allocate_id state).0 ≡ some id
    → All (Other id) messages
    → h < 256
    → l < 256
    → ((deliver
          (deliver_all (begin_call state token (h * 256 + l) (allocate_id state)) messages).0
          (id / 256 ∷ id % 256 ∷ tail)).1
        ≡ record { token = token; response = h ∷ l ∷ tail } ∷ [])
      × (lookup id
            (deliver
              (deliver_all (begin_call state token (h * 256 + l) (allocate_id state)) messages).0
              (id / 256 ∷ id % 256 ∷ tail)).0.pending
          ≡ none)
deliver_all-matched state token h l id messages tail next given others hh hl =
    let (_, small) = allocate_id-fresh state id next given in
    let pending : lookup id (begin_call state token (h * 256 + l) (allocate_id state)).pending
        ≡ some (record { token = token; original_id = h * 256 + l }) =
      lookup-begin_call state token (h * 256 + l) id (allocate_id state) given in
    let after =
      deliver_all-Other (begin_call state token (h * 256 + l) (allocate_id state)) messages id
        others
      ∙ pending in
    let high : (h * 256 + l) / 256 ≡ h = omega arith in
    let low : (h * 256 + l) % 256 ≡ l = omega arith in
    let arrived =
      (deliver_all (begin_call state token (h * 256 + l) (allocate_id state)) messages).0 in
    let call : Call = record { token = token; original_id = h * 256 + l } in
    (
      deliver-own arrived id tail call small after
          ∙ ap₂ (λ a b. record { token = token; response = a ∷ b ∷ tail } ∷ []) high low,
      deliver-removed arrived id tail call small after,
    )

-- As long as one of the 65536 ids is not in flight, an id is given out, and it is not in flight.
pub allocate_id-given :
    (state : DotState) (id : ℕ)
    → state.next_id < 65536
    → id < 65536
    → lookup id state.pending ≡ none
    → (given : ℕ) × (((allocate_id state).0 ≡ some given)
        × (lookup given state.pending ≡ none)
        × (given < 65536))
allocate_id-given state id next small free = elim (Option-cases (allocate_id state).0) [
  | inl full ↦
      absurd
        (let taken = allocate_id-full state id next small full in let f = rw free at taken in cc)
  | inr (given, gave) ↦
      let (fresh, fits) = allocate_id-fresh state given next gave in (given, (gave, fresh, fits))
]
