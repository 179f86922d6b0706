-- ===== src/Upstream/Failover.antt =====
-- How often a query is sent, and what is reported of it when every connection drops.
use cidrella.Base.{
  ℕ, zero, suc, ◌+◌, ◌-◌, ◌*◌, ◌≤◌, ◌<◌, ◌≡◌, ◌⊎◌, refl, ap, sym, ◌∙◌, subst, arith, inl, inr, none,
  List, [], ◌∷◌, length,
}
use cidrella.Upstream.{
  Outcome, response, connect, closed, timeout, http, downgrade, Result, settle, retry_closed,
  after_downgrade, try_address, query_from,
}

module _ (attempt : ℕ → ℕ → Outcome) where
  -- The sends so far are `base` to `sends - 1`, `most` of them at the most, and the last of them gave
  -- the outcome.
  abbrev Sent : ℕ → ℕ → ℕ → ℕ × Outcome → Type 0
  Sent address base most tried =
      (base < tried.0) × (tried.0 ≤ base + most) × (tried.1 ≡ attempt (tried.0 - 1) address)

  retry_closed-Sent :
      (left address base most sends : ℕ) (o : Outcome)
      → Sent address base most (sends, o)
      → Sent address base (most + left) (retry_closed attempt left address sends o)
  unfolding retry_closed
  retry_closed-Sent zero address base most sends o (a, b, c) = (a, omega arith, c)
  retry_closed-Sent (suc left) address base most sends closed (a, b, c) =
      let last : sends + 1 - 1 ≡ sends = omega arith in
      let (x, y, z) =
        retry_closed-Sent left address base (most + 1) (sends + 1) (attempt sends address)
          (omega arith, omega arith, ap (λ t. attempt t address) (sym last)) in
      (x, omega arith, z)
  retry_closed-Sent (suc left) address base most sends (response r) (a, b, c) = (a, omega arith, c)
  retry_closed-Sent (suc left) address base most sends connect (a, b, c) = (a, omega arith, c)
  retry_closed-Sent (suc left) address base most sends timeout (a, b, c) = (a, omega arith, c)
  retry_closed-Sent (suc left) address base most sends http (a, b, c) = (a, omega arith, c)
  retry_closed-Sent (suc left) address base most sends downgrade (a, b, c) = (a, omega arith, c)

  after_downgrade-Sent :
      (address sends : ℕ) (o : Outcome)
      → o ≡ attempt sends address
      → Sent address sends 2 (after_downgrade attempt address (sends + 1) o)
  unfolding after_downgrade
  after_downgrade-Sent address sends downgrade e =
      let last : sends + 1 + 1 - 1 ≡ sends + 1 = omega arith in
      (omega arith, omega arith, ap (λ t. attempt t address) (sym last))
  after_downgrade-Sent address sends closed e = (omega arith, omega arith, at_last e)
    where
      at_last : closed ≡ attempt sends address → closed ≡ attempt (sends + 1 - 1) address
      at_last e = e ∙ ap (λ t. attempt t address) (omega arith)
  after_downgrade-Sent address sends (response r) e =
      (omega arith, omega arith, e ∙ ap (λ t. attempt t address) (omega arith))
  after_downgrade-Sent address sends connect e =
      (omega arith, omega arith, e ∙ ap (λ t. attempt t address) (omega arith))
  after_downgrade-Sent address sends timeout e =
      (omega arith, omega arith, e ∙ ap (λ t. attempt t address) (omega arith))
  after_downgrade-Sent address sends http e =
      (omega arith, omega arith, e ∙ ap (λ t. attempt t address) (omega arith))

  try_address-Sent : (address sends : ℕ) → Sent address sends 4 (try_address attempt address sends)
  unfolding try_address
  try_address-Sent address sends =
      retry_closed-Sent 2 address sends 2 _ _
        (after_downgrade-Sent address sends (attempt sends address) refl)

  settle_bound :
      (sends most : ℕ) (o : Outcome) (rest : Result)
      → sends ≤ rest.sends
      → rest.sends ≤ most
      → (settle sends o rest).sends ≤ most
  settle_bound sends most (response r) rest h k = omega arith
  settle_bound sends most connect rest h k = omega arith
  settle_bound sends most closed rest h k = omega arith
  settle_bound sends most timeout rest h k = omega arith
  settle_bound sends most http rest h k = omega arith
  settle_bound sends most downgrade rest h k = omega arith

  settle_low :
      (sends : ℕ) (o : Outcome) (rest : Result)
      → sends ≤ rest.sends
      → sends ≤ (settle sends o rest).sends
  settle_low sends (response r) rest h = omega arith
  settle_low sends connect rest h = h
  settle_low sends closed rest h = h
  settle_low sends timeout rest h = omega arith
  settle_low sends http rest h = omega arith
  settle_low sends downgrade rest h = omega arith

  query_from-low :
      (addresses : List ℕ) (sends : ℕ) → sends ≤ (query_from attempt addresses sends).sends
  unfolding query_from
  query_from-low [] sends = omega arith
  query_from-low (a ∷ addresses) sends =
      let sent = try_address-Sent a sends in
      let low =
        settle_low (try_address attempt a sends).0 (try_address attempt a sends).1
          (query_from attempt addresses (try_address attempt a sends).0)
          (query_from-low addresses (try_address attempt a sends).0) in
      omega (arith, sent.0, low)

  query_from-high :
      (addresses : List ℕ) (sends : ℕ)
      → (query_from attempt addresses sends).sends ≤ sends + 4 * length addresses
  unfolding query_from
  query_from-high [] sends = omega arith
  query_from-high (a ∷ addresses) sends =
      let sent = try_address-Sent a sends in
      let high = query_from-high addresses (try_address attempt a sends).0 in
      settle_bound (try_address attempt a sends).0 (sends + 4 * suc (length addresses))
        (try_address attempt a sends).1
        (query_from attempt addresses (try_address attempt a sends).0)
        (query_from-low addresses (try_address attempt a sends).0) (omega (arith, sent.1, high))

  -- A query is sent four times at most to each address.
  pub query_from_bound :
      (addresses : List ℕ) (sends : ℕ)
      → (sends ≤ (query_from attempt addresses sends).sends)
        × ((query_from attempt addresses sends).sends ≤ sends + 4 * length addresses)
  query_from_bound addresses sends =
      (query_from-low addresses sends, query_from-high addresses sends)

  abbrev Drops : Outcome → Type 0
  Drops o = (o ≡ connect) ⊎ (o ≡ closed)

  settle-Drops :
      (sends : ℕ) (o : Outcome) (rest : Result)
      → Drops o
      → ((settle sends o rest).value ≡ rest.value)
        × (length (settle sends o rest).errors ≡ suc (length rest.errors))
  settle-Drops sends connect rest h = (refl, refl)
  settle-Drops sends closed rest h = (refl, refl)
  settle-Drops sends (response r) rest (inl e) = absurd (cc)
  settle-Drops sends (response r) rest (inr e) = absurd (cc)
  settle-Drops sends timeout rest (inl e) = absurd (cc)
  settle-Drops sends timeout rest (inr e) = absurd (cc)
  settle-Drops sends http rest (inl e) = absurd (cc)
  settle-Drops sends http rest (inr e) = absurd (cc)
  settle-Drops sends downgrade rest (inl e) = absurd (cc)
  settle-Drops sends downgrade rest (inr e) = absurd (cc)

  -- If no connection opens or all of them drop, every address is tried, one error is reported for each,
  -- and there is no answer.
  pub query_from-Drops :
      (addresses : List ℕ) (sends : ℕ)
      → ((i a : ℕ) → (attempt i a ≡ connect) ⊎ (attempt i a ≡ closed))
      → ((query_from attempt addresses sends).value ≡ none)
        × (length (query_from attempt addresses sends).errors ≡ length addresses)
  unfolding query_from
  query_from-Drops [] sends h = (refl, refl)
  query_from-Drops (a ∷ addresses) sends h =
      let (after, most, last) = try_address-Sent a sends in
      let drops = subst Drops (sym last) (h ((try_address attempt a sends).0 - 1) a) in
      let (same, more) =
        settle-Drops (try_address attempt a sends).0 (try_address attempt a sends).1
          (query_from attempt addresses (try_address attempt a sends).0) drops in
      let (unanswered, count) = query_from-Drops addresses (try_address attempt a sends).0 h in
      (same ∙ unanswered, more ∙ ap suc count)
