-- ===== src/DhcpPool/V4.antt =====
-- The automatic IPv4 pool lies among the usable addresses, and the gateway is not at its ends.
use cidrella.Base.{
  ℕ, zero, suc, ◌+◌, ◌-◌, ◌^◌, min, max, ◌≤◌, ◌<◌, ◌≡◌, ◌≢◌, refl, ap, sym, ◌∙◌, arith, inl, inr,
  Bool, true, false, ◌&&◌, ◌||◌, Option, none, some, ltb, leb, ◌==◌, Bool-cases, ==_iff,
}
use cidrella.Cidr.{Network}
use cidrella.Cidr.Wellformed.{IsNetwork}
use cidrella.DhcpPool.{
  Pool, pool_shape, step_past, default_dhcp_pool_for_subnet, non_empty, pool_runs,
}

-- A pool of two addresses at least, that ends before the broadcast address.
shape_fits : ℕ → Bool
shape_fits prefix =
    let shape = pool_shape prefix (2 ^ (32 - prefix)) in
    leb 2 shape.0
    && leb 2 shape.1
    && leb (shape.0 + 4) (2 ^ (32 - prefix) + shape.1)
    && leb 8 (2 ^ (32 - prefix))

all_from : (ℕ → Bool) → ℕ → ℕ → Bool
all_from p start zero = true
all_from p start (suc n) = p start && all_from p (start + 1) n

all_from-at :
    (p : ℕ → Bool) (start n i : ℕ)
    → all_from p start n ≡ true
    → start ≤ i
    → i < start + n
    → p i ≡ true
unfolding all_from
all_from-at p start zero i h low high = absurd (omega arith)
all_from-at p start (suc n) i h low high = elim (Bool-cases (start == i)) [
  | inl here ↦ ap p (sym ((==_iff start i).0 here)) ∙ and_left (p start) _ h
  | inr later ↦
      all_from-at p (start + 1) n i (and_right (p start) _ h) (ground (arith, later)) (omega arith)
]
  where
    and_left : (a b : Bool) → (a && b) ≡ true → a ≡ true
    and_left a b e = ground arith

    and_right : (a b : Bool) → (a && b) ≡ true → b ≡ true
    and_right a b e = ground arith

-- Every prefix length that gets a pool.
shapes : all_from shape_fits 16 14 ≡ true
unfolding pool_runs shape_fits all_from
shapes = refl

shape_bounds :
    (prefix size : ℕ)
    → 16 ≤ prefix
    → prefix ≤ 29
    → size ≡ 2 ^ (32 - prefix)
    → (2 ≤ (pool_shape prefix size).0)
      × (2 ≤ (pool_shape prefix size).1)
      × ((pool_shape prefix size).0 + 4 ≤ size + (pool_shape prefix size).1)
      × (8 ≤ size)
unfolding shape_fits
shape_bounds prefix size low high e =
    let h = all_from-at shape_fits 16 14 prefix shapes low (omega arith) in rw e (ground (arith, h))

-- The gateway is neither the first nor the last of the pool.
abbrev pub Avoids : Option ℕ → Pool → Type 0
Avoids none p = Unit
Avoids (some gateway) p = (gateway ≢ p.start) × (gateway ≢ p.end)

-- The pool lies among the usable addresses of the network, and the gateway is not at its ends.
abbrev pub Serves : Network → Option ℕ → Pool → Type 0
Serves n gateway p =
    (n.network_big < p.start) × (p.start ≤ p.end) × (p.end < n.last_big) × Avoids gateway p

step_past-Serves :
    (n : Network) (gateway : Option ℕ) (start end : ℕ)
    → n.network_big < start
    → start < end
    → end < n.last_big
    → Serves n gateway (step_past gateway (record { start = start; end = end }))
unfolding step_past
step_past-Serves n none start end low order high = (low, omega arith, high, tt)
step_past-Serves n (some gateway) start end low order high = elim (Bool-cases (gateway == start)) [
  | inl first ↦
      rw first (omega arith, omega arith, high, (ground (arith, first), ground (arith, first)))
  | inr inside ↦ elim (Bool-cases (gateway == end)) [
    | inl last ↦
        rw (inside, last)
          (low, omega arith, omega arith, (ground (arith, last), ground (arith, last)))
    | inr apart ↦
        rw (inside, apart) (low, omega arith, high, (ground (arith, inside), ground (arith, apart)))
  ]
]

non_empty-le : (p : Pool) → p.start ≤ p.end → non_empty p ≡ some p
non_empty-le p h = ground arith

in_range : (prefix : ℕ) → 16 ≤ prefix → prefix ≤ 29 → (ltb prefix 16 || ltb 29 prefix) ≡ false
in_range prefix low high = ground arith

-- Every IPv4 network with a prefix length from 16 to 29 gets a pool: it lies among the usable
-- addresses, holds one address at least, and the gateway, if there is one, is not at its ends.
pub default_dhcp_pool_for_subnet-Serves :
    (n : Network) (gateway : Option ℕ)
    → IsNetwork n
    → n.family ≡ 4
    → 16 ≤ n.prefix
    → n.prefix ≤ 29
    → (p : Pool) × ((default_dhcp_pool_for_subnet n gateway ≡ some p) × Serves n gateway p)
unfolding default_dhcp_pool_for_subnet
default_dhcp_pool_for_subnet-Serves n gateway h four low high = (pool, (value, serves))
  where
    size : n.size_big ≡ 2 ^ (32 - n.prefix)
    size =
        let f = h.families in
        let bits : n.bits ≡ 32 = ground arith in h.size ∙ ap (λ b. 2 ^ (b - n.prefix)) bits

    bounds :
        (2 ≤ (pool_shape n.prefix n.size_big).0)
        × (2 ≤ (pool_shape n.prefix n.size_big).1)
        × ((pool_shape n.prefix n.size_big).0 + 4 ≤ n.size_big + (pool_shape n.prefix n.size_big).1)
        × (8 ≤ n.size_big)
    bounds = shape_bounds n.prefix n.size_big low high size

    start : ℕ
    start =
        max
          (n.network_big
            + (pool_shape n.prefix n.size_big).0
            + 1
            - (pool_shape n.prefix n.size_big).1)
          (n.network_big + 1)

    end : ℕ
    end = min (n.network_big + (pool_shape n.prefix n.size_big).0) (n.last_big - 1)

    pool : Pool
    pool = step_past gateway (record { start = start; end = end })

    serves : Serves n gateway pool
    serves =
        step_past-Serves n gateway start end (omega arith) (omega (arith, bounds, h.last, h.size))
          (omega (arith, bounds, h.last, h.size))

    value : default_dhcp_pool_for_subnet n gateway ≡ some pool
    value = let full = serves.1 in rw (four, in_range n.prefix low high) (non_empty-le pool full)
