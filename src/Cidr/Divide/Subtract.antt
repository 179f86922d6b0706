-- ===== src/Cidr/Divide/Subtract.antt =====
-- `subtractNetwork` partitions the parent: each address is in the child or in one remaining block.
use cidrella.Base.{
  ℕ, zero, suc, ◌+◌, ◌-◌, ◌*◌, ◌^◌, ◌≤◌, ◌<◌, ◌≡◌, refl, ap, sym, ◌∙◌, arith, inl, inr, true, false,
  ◌&&◌, ltb, leb, if◌then◌else◌, some, none, List, [], ◌∷◌, length, map, ◌>>=◌, some-inj,
  Bool-cases, leb→le,
}
use cidrella.Base.Bits.{pow_add, pow_double}
use cidrella.Base.Text.{Text}
use cidrella.Cidr.{Network, parse_network, sits_within, is_network_within, network_text}
use cidrella.Cidr.Numbers.{aligned_before}
use cidrella.Cidr.Wellformed.{IsNetwork, parse_network-IsNetwork}
use cidrella.Cidr.Divide.{Block, halve, subtract_parsed, subtract_network}

-- 1 for an address of the block of `size` addresses from `start` on, and 0 for any other.
pub inside : ℕ → ℕ → ℕ → ℕ
inside start size x = if leb start x && ltb x (start + size) then 1 else 0

-- In how many of the blocks the address lies.
pub covered : ℕ → List Block → ℕ → ℕ
covered bits [] x = 0
covered bits (b ∷ bs) x = inside b.start (2 ^ (bits - b.prefix)) x + covered bits bs x

inside_halves : (s h x : ℕ) → inside s h x + inside (s + h) h x ≡ inside s (2 * h) x
unfolding inside
inside_halves s h x = ground arith

pub inside_append : (s m n x : ℕ) → inside s m x + inside (s + m) n x ≡ inside s (m + n) x
unfolding inside
inside_append s m n x = ground arith

pub inside-zero : (s x : ℕ) → inside s 0 x ≡ 0
unfolding inside
inside-zero s x = ground arith

pub inside_eq : (s t m n x : ℕ) → s ≡ t → m ≡ n → inside s m x ≡ inside t n x
inside_eq s t m n x e f = rw (e, f)

-- One round: half of `2 * h` addresses from `current` on, whose bits are `r + k`.
module _ (r bits prefix k child current q u : ℕ) (b : bits ≡ prefix + (suc r + k))
    (cq : child ≡ q * 2 ^ k) (cu : current ≡ u * 2 ^ (suc r + k))
    (high : child + 2 ^ k ≤ current + 2 ^ (suc r + k)) where
  half : ℕ
  half = 2 ^ (r + k)

  host : bits - (prefix + 1) ≡ r + k
  host = omega arith

  double : 2 ^ (suc r + k) ≡ 2 * 2 ^ (r + k)
  double = ap (λ t. 2 ^ t) {x = suc r + k} {y = suc (r + k)} (omega arith) ∙ pow_double (r + k)

  left_index : current ≡ 2 * u * 2 ^ (r + k)
  left_index = omega (arith, ap (λ t. u * t) double)

  right_index : current + 2 ^ (r + k) ≡ (2 * u + 1) * 2 ^ (r + k)
  right_index = omega (arith, left_index)

  right_high : child + 2 ^ k ≤ current + 2 ^ (r + k) + 2 ^ (r + k)
  right_high = omega (arith, double)

  left_high : child < current + 2 ^ (r + k) → child + 2 ^ k ≤ current + 2 ^ (r + k)
  left_high lt =
      let bound : (2 * u + 1) * 2 ^ (r + k) ≡ (2 * u + 1) * 2 ^ r * 2 ^ k =
        omega (arith, ap (λ t. (2 * u + 1) * t) (pow_add r k)) in
      let before =
        aligned_before q ((2 * u + 1) * 2 ^ r) (2 ^ k) (omega (arith, bound, right_index)) in
      omega (arith, before, bound, right_index)

  whole :
      (x : ℕ)
      → inside current (2 ^ (r + k)) x + inside (current + 2 ^ (r + k)) (2 ^ (r + k)) x
        ≡ inside current (2 ^ (suc r + k)) x
  whole x = inside_halves current (2 ^ (r + k)) x ∙ ap (λ t. inside current t x) (sym double)

-- `k` host bits of the child, and `rounds` prefix bits between it and the current block.
halve_partition :
    (rounds bits prefix k child current q u x : ℕ)
    → bits ≡ prefix + (rounds + k)
    → child ≡ q * 2 ^ k
    → current ≡ u * 2 ^ (rounds + k)
    → current ≤ child
    → child + 2 ^ k ≤ current + 2 ^ (rounds + k)
    → inside child (2 ^ k) x + covered bits (halve rounds bits child current prefix) x
      ≡ inside current (2 ^ (rounds + k)) x
unfolding halve covered
halve_partition zero bits prefix k child current q u x b cq cu low high =
    let size : 2 ^ (0 + k) ≡ 2 ^ k = ap (λ t. 2 ^ t) {x = 0 + k} {y = k} (omega arith) in
    omega (arith, inside_eq child current (2 ^ k) (2 ^ (0 + k)) x (omega (arith, size)) (sym size))
halve_partition (suc r) bits prefix k child current q u x b cq cu low high =
    elim (Bool-cases (leb (current + 2 ^ (r + k)) child)) [
      | inl right ↦
          rw (host r bits prefix k child current q u b cq cu high, right)
            (omega (
              arith,
              whole r bits prefix k child current q u b cq cu high x,
              halve_partition r bits (prefix + 1) k child (current + 2 ^ (r + k)) q (2 * u + 1) x
                  (omega arith) cq (right_index r bits prefix k child current q u b cq cu high)
                  (leb→le _ _ right) (right_high r bits prefix k child current q u b cq cu high),
            ))
      | inr left ↦
          rw (host r bits prefix k child current q u b cq cu high, left)
            (omega (
              arith,
              whole r bits prefix k child current q u b cq cu high x,
              halve_partition r bits (prefix + 1) k child current q (2 * u) x (omega arith) cq
                  (left_index r bits prefix k child current q u b cq cu high) low
                  (left_high r bits prefix k child current q u b cq cu high (ground arith)),
            ))
    ]

length-halve :
    (rounds bits child current prefix : ℕ)
    → length (halve rounds bits child current prefix) ≡ rounds
unfolding halve
length-halve zero bits child current prefix = refl
length-halve (suc r) bits child current prefix = ap suc (length-halve r bits child _ (prefix + 1))

-- The addresses of a network.
abbrev pub in_network : Network → ℕ → ℕ
in_network n = inside n.network_big (2 ^ (n.bits - n.prefix))

-- A network inside a larger one, taken out of it, leaves blocks such that every number lies in the
-- parent as often (once or not at all) as in the child and the blocks together; there are as many
-- blocks as the prefixes differ by.
pub subtract_parsed_partition :
    (parent child : Network)
    → IsNetwork parent
    → IsNetwork child
    → parent.family ≡ child.family
    → parent.network_big ≤ child.network_big
    → child.last_big ≤ parent.last_big
    → parent.prefix < child.prefix
    → (blocks : List Block) × (subtract_parsed parent child ≡ some blocks)
      × (length blocks ≡ child.prefix - parent.prefix)
      × ((x : ℕ) → in_network child x + covered parent.bits blocks x ≡ in_network parent x)
unfolding subtract_parsed
subtract_parsed_partition parent child hp hc fam low high lt = (
  blocks,
  ground arith,
  length-halve rounds parent.bits child.network_big parent.network_big parent.prefix,
  partition,
)
  where
    rounds : ℕ
    rounds = child.prefix - parent.prefix

    blocks : List Block
    blocks = halve rounds parent.bits child.network_big parent.network_big parent.prefix

    bits : parent.bits ≡ child.bits
    bits = ground arith

    host : parent.bits - parent.prefix ≡ rounds + (child.bits - child.prefix)
    host = omega (arith, hc.fits)

    size : 2 ^ (parent.bits - parent.prefix) ≡ 2 ^ (rounds + (child.bits - child.prefix))
    size = ap (λ t. 2 ^ t) host

    partition : (x : ℕ) → in_network child x + covered parent.bits blocks x ≡ in_network parent x
    partition x =
        halve_partition rounds parent.bits parent.prefix (child.bits - child.prefix)
          child.network_big parent.network_big hc.index hp.index x (omega (arith, hp.fits, hc.fits))
          hc.aligned (hp.aligned ∙ ap (λ t. hp.index * t) size) low
          (omega (arith, hc.last, hp.last, size))
        ∙ ap (λ t. inside parent.network_big t x) (sym size)

-- What `subtract_parsed` tests is that the child sits within the parent.
subtract_parsed-within :
    (parent child : Network)
    → sits_within child parent ≡ true
    → (parent.family ≡ child.family)
      × (parent.network_big ≤ child.network_big)
      × (child.last_big ≤ parent.last_big)
      × (parent.prefix < child.prefix)
unfolding sits_within
subtract_parsed-within parent child h = ground arith

subtract_parsed_refused :
    (parent child : Network)
    → sits_within child parent ≡ false
    → subtract_parsed parent child ≡ none
unfolding sits_within subtract_parsed
subtract_parsed_refused parent child h = ground arith

abbrev pub texts_of : Network → List Block → List Text
texts_of parent = map (λ (b : Block). network_text b.start parent.family b.prefix)

module _ (s t : Text) (parent child : Network) (hp : parse_network s ≡ some parent)
    (hc : parse_network t ≡ some child) where
  subtract_network_of :
      subtract_network s t
      ≡ (subtract_parsed parent child >>= λ blocks. some (texts_of parent blocks))
  unfolding subtract_network
  subtract_network_of = rw (hp, hc)

  within_of : is_network_within t s ≡ some (sits_within child parent)
  unfolding is_network_within
  within_of = rw (hp, hc)

  -- Subtracting a network within another gives texts of blocks such that every number lies in the
  -- parent as often (once or not at all) as in the child and the blocks together, and as many blocks
  -- as the prefixes differ by.
  pub subtract_network_partition :
      is_network_within t s ≡ some true
      → (blocks : List Block) × (subtract_network s t ≡ some (texts_of parent blocks))
        × (length blocks ≡ child.prefix - parent.prefix)
        × ((x : ℕ) → in_network child x + covered parent.bits blocks x ≡ in_network parent x)
  subtract_network_partition h =
      let (fam, low, high, lt) =
        subtract_parsed-within parent child (some-inj (sym within_of ∙ h)) in
      let (blocks, value, count, partition) =
        subtract_parsed_partition parent child (parse_network-IsNetwork s parent hp)
          (parse_network-IsNetwork t child hc) fam low high lt in
      (
        blocks,
        subtract_network_of ∙ ap (λ m. m >>= λ bs. some (texts_of parent bs)) value,
        count,
        partition,
      )

  -- Subtracting a network that is not within the other throws.
  pub subtract_network_refused : is_network_within t s ≡ some false → subtract_network s t ≡ none
  subtract_network_refused h =
      subtract_network_of
      ∙ ap (λ m. m >>= λ bs. some (texts_of parent bs))
          (subtract_parsed_refused parent child (some-inj (sym within_of ∙ h)))
