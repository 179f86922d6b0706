-- ===== src/Upstream/Policy.antt =====
-- What becomes of a query, by the outcomes of its sends: which addresses are given up on, how often each is
-- sent to, and what is final.
use cidrella.Base.{
  ℕ, zero, suc, ◌+◌, ◌≤◌, ◌<◌, ◌≡◌, ◌≢◌, ◌⊎◌, refl, ap, subst, arith, inl, inr, none, some, List,
  [], ◌∷◌, ◌++◌,
}
use cidrella.Upstream.{
  Outcome, response, connect, closed, timeout, http, downgrade, Result, settle, retry_closed,
  after_downgrade, try_address, query_from,
}

-- The address is given up on, and the next one is tried.
abbrev pub IsDropped : Outcome → Type 0
IsDropped o = (o ≡ connect) ⊎ (o ≡ closed)

-- The query has failed.
abbrev pub IsFinal : Outcome → Type 0
IsFinal o = (o ≡ timeout) ⊎ (o ≡ http) ⊎ (o ≡ downgrade)

module _ (attempt : ℕ → ℕ → Outcome) where
  -- The first send that counts: the next one, or the one behind it after a downgrade.
  abbrev pub CountsFrom : ℕ → ℕ → ℕ → Type 0
  CountsFrom address from first =
      ((attempt from address ≡ downgrade) × (first ≡ from + 1))
      ⊎ ((attempt from address ≢ downgrade) × (first ≡ from))

  -- From `first` on, `drops` sends are dropped and the next one, which has the outcome, is the last: it is
  -- not dropped, or there have been `most` retries.
  abbrev pub EndsAt : ℕ → ℕ → ℕ → ℕ → Outcome → Type 0
  EndsAt most address first to o =
      (drops : ℕ) × ((drops ≤ most)
        × (to ≡ first + drops + 1)
        × (attempt (first + drops) address ≡ o)
        × ((j : ℕ) → j < drops → attempt (first + j) address ≡ closed)
        × ((o ≢ closed) ⊎ (drops ≡ most)))

  -- The sends to one address are `from` to `to - 1`, with two retries at the most.
  abbrev pub Tried : ℕ → ℕ → ℕ → Outcome → Type 0
  Tried address from to o =
      (first : ℕ) × (CountsFrom address from first × EndsAt 2 address first to o)

  same_send :
      (i j address : ℕ) (o : Outcome) → i ≡ j → attempt i address ≡ o → attempt j address ≡ o
  same_send i j address o e h = subst (λ k. attempt k address ≡ o) e h

  -- No retry is needed, or none is left.
  EndsAt-once :
      (most address first : ℕ) (o : Outcome)
      → attempt first address ≡ o
      → (o ≢ closed) ⊎ (0 ≡ most)
      → EndsAt most address first (first + 1) o
  EndsAt-once most address first o e last = (
    0,
    (
      omega arith,
      omega arith,
      same_send first (first + 0) address o (omega arith) e,
      (λ j l. absurd (omega (arith, l))),
      last,
    ),
  )

  -- One send more that is dropped, in front.
  EndsAt-later :
      (most address first to : ℕ) (o : Outcome)
      → attempt first address ≡ closed
      → EndsAt most address (first + 1) to o
      → EndsAt (suc most) address first to o
  EndsAt-later most address first to o e (drops, (few, count, last, dropped, end)) = (
    suc drops,
    (
      omega (arith, few),
      omega (arith, count),
      same_send (first + 1 + drops) (first + suc drops) address o (omega arith) last,
      all_dropped,
      at_end end,
    ),
  )
    where
      all_dropped : (j : ℕ) → j < suc drops → attempt (first + j) address ≡ closed
      all_dropped zero l = same_send first (first + 0) address closed (omega arith) e
      all_dropped (suc j) l =
          same_send (first + 1 + j) (first + suc j) address closed (omega arith)
            (dropped j (omega (arith, l)))

      at_end : (o ≢ closed) ⊎ (drops ≡ most) → (o ≢ closed) ⊎ (suc drops ≡ suc most)
      at_end (inl n) = inl n
      at_end (inr d) = inr (ap suc d)

  retry_closed-EndsAt :
      (left address first : ℕ) (o : Outcome)
      → attempt first address ≡ o
      → EndsAt left address first
          (retry_closed attempt left address (first + 1) o).0
          (retry_closed attempt left address (first + 1) o).1
  unfolding retry_closed
  retry_closed-EndsAt zero address first o e = EndsAt-once 0 address first o e (inr refl)
  retry_closed-EndsAt (suc left) address first closed e =
      EndsAt-later left address first _ _ e
        (retry_closed-EndsAt left address (first + 1) (attempt (first + 1) address) refl)
  retry_closed-EndsAt (suc left) address first (response r) e =
      EndsAt-once (suc left) address first (response r) e (inl (λ c. absurd (cc)))
  retry_closed-EndsAt (suc left) address first connect e =
      EndsAt-once (suc left) address first connect e (inl (λ c. absurd (cc)))
  retry_closed-EndsAt (suc left) address first timeout e =
      EndsAt-once (suc left) address first timeout e (inl (λ c. absurd (cc)))
  retry_closed-EndsAt (suc left) address first http e =
      EndsAt-once (suc left) address first http e (inl (λ c. absurd (cc)))
  retry_closed-EndsAt (suc left) address first downgrade e =
      EndsAt-once (suc left) address first downgrade e (inl (λ c. absurd (cc)))

  -- After the first send, which had the outcome `o`.
  after_downgrade-Tried :
      (address from : ℕ) (o : Outcome)
      → attempt from address ≡ o
      → let counted = after_downgrade attempt address (from + 1) o in
        Tried address from
          (retry_closed attempt 2 address counted.0 counted.1).0
          (retry_closed attempt 2 address counted.0 counted.1).1
  unfolding after_downgrade
  after_downgrade-Tried address from downgrade e =
      (from + 1, (inl (e, refl), retry_closed-EndsAt 2 address (from + 1) _ refl))
  after_downgrade-Tried address from closed e =
      (from, (inr ((λ d. absurd (cc)), refl), retry_closed-EndsAt 2 address from closed e))
  after_downgrade-Tried address from (response r) e =
      (from, (inr ((λ d. absurd (cc)), refl), retry_closed-EndsAt 2 address from (response r) e))
  after_downgrade-Tried address from connect e =
      (from, (inr ((λ d. absurd (cc)), refl), retry_closed-EndsAt 2 address from connect e))
  after_downgrade-Tried address from timeout e =
      (from, (inr ((λ d. absurd (cc)), refl), retry_closed-EndsAt 2 address from timeout e))
  after_downgrade-Tried address from http e =
      (from, (inr ((λ d. absurd (cc)), refl), retry_closed-EndsAt 2 address from http e))

  try_address-Tried :
      (address from : ℕ)
      → Tried address from (try_address attempt address from).0 (try_address attempt address from).1
  unfolding try_address
  try_address-Tried address from = after_downgrade-Tried address from (attempt from address) refl

  -- Each of the addresses is given up on, with one error for each.
  abbrev pub GivenUp : List ℕ → ℕ → ℕ → List Outcome → Type 0
  GivenUp [] from to errors = (from ≡ to) × (errors ≡ [])
  GivenUp (address ∷ addresses) from to errors =
      (mid : ℕ) × (o : Outcome) × (rest : List Outcome) × (Tried address from mid o
        × IsDropped o
        × (errors ≡ o ∷ rest)
        × GivenUp addresses mid to rest)

  -- The last outcome on an address that is not given up on: the answer, or the failure of the query.
  abbrev pub Decides : Outcome → List Outcome → Result → Type 0
  Decides o errors result =
      ((r : List ℕ) × ((o ≡ response r) × (result.value ≡ some r) × (result.errors ≡ errors)))
      ⊎ (IsFinal o × (result.value ≡ none) × (result.errors ≡ errors ++ o ∷ []))

  -- All addresses are given up on, or one behind those that are decides, and none behind it is tried.
  abbrev pub Follows : List ℕ → ℕ → Result → Type 0
  Follows addresses from result =
      ((result.value ≡ none) × GivenUp addresses from result.sends result.errors)
      ⊎ ((before : List ℕ) × (address : ℕ) × (after : List ℕ) × (mid : ℕ) × (o : Outcome)
          × (errors : List Outcome) × ((addresses ≡ before ++ address ∷ after)
              × GivenUp before from mid errors
              × Tried address mid result.sends o
              × Decides o errors result))

  follow_dropped :
      (address : ℕ) (addresses : List ℕ) (from mid : ℕ) (o : Outcome) (rest : Result)
      → Tried address from mid o
      → IsDropped o
      → Follows addresses mid rest
      → Follows (address ∷ addresses) from (record rest { errors = o ∷ rest.errors })
  follow_dropped address addresses from mid o rest t d (inl (n, g)) =
      inl (n, (mid, o, rest.errors, (t, d, refl, g)))
  follow_dropped address addresses from mid o rest t d
        (inr (before, a, after, mid', last, errors, (e, g, t', decides))) =
      inr (
        address ∷ before,
        a,
        after,
        mid',
        last,
        o ∷ errors,
        (ap (λ xs. address ∷ xs) e, (mid, o, errors, (t, d, refl, g)), t', behind decides),
      )
    where
      behind :
          Decides last errors rest
          → Decides last (o ∷ errors) (record rest { errors = o ∷ rest.errors })
      behind (inl (r, (x, y, z))) = inl (r, (x, y, ap (λ es. o ∷ es) z))
      behind (inr (x, y, z)) = inr (x, y, ap (λ es. o ∷ es) z)

  follow_decided :
      (address : ℕ) (addresses : List ℕ) (from : ℕ) (o : Outcome) (result : Result)
      → Tried address from result.sends o
      → Decides o [] result
      → Follows (address ∷ addresses) from result
  follow_decided address addresses from o result t d =
      inr ([], address, addresses, from, o, [], (refl, (refl, refl), t, d))

  settle-Follows :
      (address : ℕ) (addresses : List ℕ) (from mid : ℕ) (o : Outcome) (rest : Result)
      → Tried address from mid o
      → Follows addresses mid rest
      → Follows (address ∷ addresses) from (settle mid o rest)
  settle-Follows address addresses from mid connect rest t f =
      follow_dropped address addresses from mid connect rest t (inl refl) f
  settle-Follows address addresses from mid closed rest t f =
      follow_dropped address addresses from mid closed rest t (inr refl) f
  settle-Follows address addresses from mid (response r) rest t f =
      follow_decided address addresses from (response r) (settle mid (response r) rest) t
        (inl (r, (refl, refl, refl)))
  settle-Follows address addresses from mid timeout rest t f =
      follow_decided address addresses from timeout (settle mid timeout rest) t
        (inr (inl refl, refl, refl))
  settle-Follows address addresses from mid http rest t f =
      follow_decided address addresses from http (settle mid http rest) t
        (inr (inr (inl refl), refl, refl))
  settle-Follows address addresses from mid downgrade rest t f =
      follow_decided address addresses from downgrade (settle mid downgrade rest) t
        (inr (inr (inr refl), refl, refl))

  -- The addresses are tried in their order. One counts from the next send on, or from the one behind it if
  -- that is answered with a downgrade; it is sent to again, twice at the most, as long as the query is
  -- dropped, and is given up on, with an error, only if the last send is dropped or opens no connection.
  -- The first address that is not given up on decides: its answer is the result, and a timeout, an error
  -- status or another downgrade is an error and ends the query without one. No address behind it is tried.
  pub query_from-Follows :
      (addresses : List ℕ) (from : ℕ) → Follows addresses from (query_from attempt addresses from)
  unfolding query_from
  query_from-Follows [] from = inl (refl, (refl, refl))
  query_from-Follows (address ∷ addresses) from =
      settle-Follows address addresses from (try_address attempt address from).0
        (try_address attempt address from).1
        (query_from attempt addresses (try_address attempt address from).0)
        (try_address-Tried address from)
        (query_from-Follows addresses (try_address attempt address from).0)
