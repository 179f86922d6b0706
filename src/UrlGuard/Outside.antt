-- ===== src/UrlGuard/Outside.antt =====
-- What the guard lets a request connect to.
use cidrella.Base.{
  ℕ, ◌≡◌, ◌≢◌, ◌⊎◌, inl, inr, refl, sym, ap, ◌∙◌, subst, arith, Bool, true, false, Option, none,
  some, List, [], ◌∷◌, ◌==◌, if◌then◌else◌, >>=-eq-some, some-inj, All, Bool-cases,
}
use cidrella.Base.Text.{Text, is_empty}
use cidrella.Cidr.{
  Network, BigAddress, address_to_big, parse_network, holds_address, network_contains,
}
use cidrella.UrlGuard.{
  blocked_ipv4_ranges, some_contains, Url, Answer, Refusal, Verdict, refused, accepted,
  without_brackets, refuse_ranges, is_blocked_ipv6, check_address, check_chosen, chosen_of,
  chosen_address, check_host, check_url, validate_outbound_url,
}

-- The range is a network, and the address is not in it.
abbrev pub Outside : BigAddress → Text → Type 0
Outside a range =
    (net : Network) × ((parse_network range ≡ some net) × (holds_address net a ≡ false))

-- The text is of an address that is in none of the ranges.
abbrev pub IsOutside : List Text → Text → Type 0
IsOutside ranges ip = (a : BigAddress) × ((address_to_big ip ≡ some a) × All (Outside a) ranges)

contains-Outside :
    (range ip : Text) (a : BigAddress)
    → address_to_big ip ≡ some a
    → network_contains range ip ≡ some false
    → Outside a range
unfolding network_contains
contains-Outside range ip a e h =
    let (net, read, h1) = >>=-eq-some (parse_network range) _ h in
    let (b, same, h2) = >>=-eq-some (address_to_big ip) _ h1 in
    (net, (read, subst (λ c. holds_address net c ≡ false) (some-inj (sym same ∙ e)) (some-inj h2)))

contains-address :
    (range ip : Text)
    → network_contains range ip ≡ some false
    → (a : BigAddress) × (address_to_big ip ≡ some a)
unfolding network_contains
contains-address range ip h =
    let (net, read, h1) = >>=-eq-some (parse_network range) _ h in
    let (b, same, h2) = >>=-eq-some (address_to_big ip) _ h1 in (b, same)

abbrev pub Misses : Text → Text → Type 0
Misses ip range = network_contains range ip ≡ some false

pub Misses-Outside :
    (ranges : List Text) (ip : Text) (a : BigAddress)
    → address_to_big ip ≡ some a
    → All (Misses ip) ranges
    → All (Outside a) ranges
Misses-Outside [] ip a e h = tt
Misses-Outside (r ∷ ranges) ip a e (m, h) =
    (contains-Outside r ip a e m, Misses-Outside ranges ip a e h)

Misses-IsOutside :
    (ranges : List Text) (ip : Text) → ranges ≢ [] → All (Misses ip) ranges → IsOutside ranges ip
Misses-IsOutside [] ip ne h = absurd (ne refl)
Misses-IsOutside (r ∷ ranges) ip ne (m, h) =
    let (a, e) = contains-address r ip m in (a, (e, Misses-Outside (r ∷ ranges) ip a e (m, h)))

ipv4-ne-nil : blocked_ipv4_ranges ≢ []
unfolding blocked_ipv4_ranges
ipv4-ne-nil e = cc

pub some_contains-Misses :
    (ranges : List Text) (ip : Text) → some_contains ranges ip ≡ some false → All (Misses ip) ranges
unfolding some_contains
some_contains-Misses [] ip h = tt
some_contains-Misses (r ∷ ranges) ip h =
    let (hit, contains, h1) = >>=-eq-some (network_contains r ip) _ h in
    elim (Bool-cases hit) [
      | inl e ↦ absurd (let z = rw e at h1 in cc)
      | inr e ↦ (contains ∙ ap some e, some_contains-Misses ranges ip (rw e at h1))
    ]

refuse_ranges-Misses :
    (ranges : List Text) (ip href hostname to : Text) (after : Verdict)
    → refuse_ranges ranges ip after ≡ some (accepted href hostname to)
    → (after ≡ accepted href hostname to) × All (Misses ip) ranges
unfolding refuse_ranges
refuse_ranges-Misses [] ip href hostname to after h = (some-inj h, tt)
refuse_ranges-Misses (r ∷ ranges) ip href hostname to after h =
    let (hit, contains, h1) = >>=-eq-some (network_contains r ip) _ h in
    elim (Bool-cases hit) [
      | inl e ↦ absurd (let z = rw e at h1 in cc)
      | inr e ↦
          let (same, misses) = refuse_ranges-Misses ranges ip href hostname to after (rw e at h1) in
          (same, (contains ∙ ap some e, misses))
    ]

-- An IPv6 address that `isBlockedIpv6` lets pass, or the text of an address in no IPv4 range.
abbrev pub IsAllowed : (Text → ℕ) → Text → Type 0
IsAllowed is_ip ip =
    ((is_ip ip ≡ 6) × (is_blocked_ipv6 is_ip ip ≡ some false))
    ⊎ ((is_ip ip ≢ 6) × IsOutside blocked_ipv4_ranges ip)

accepted_ip : Verdict → Text
accepted_ip (refused r) = []
accepted_ip (accepted href hostname ip) = ip

module _ (is_ip : Text → ℕ) where
  -- The address that passed the check is the one that is connected to.
  pub check_address-IsAllowed :
      (url : Url) (ip href hostname to : Text)
      → check_address is_ip url ip ≡ some (accepted href hostname to)
      → (ip ≡ to) × IsAllowed is_ip ip
  unfolding check_address accepted_ip
  check_address-IsAllowed url ip href hostname to h = elim (Bool-cases (is_ip ip == 6)) [
    | inl e ↦
        let (hit, blocked, h1) = >>=-eq-some (is_blocked_ipv6 is_ip ip) _ (rw e at h) in
        elim (Bool-cases hit) [
          | inl b ↦ absurd (let z = rw b at h1 in cc)
          | inr b ↦
              let passed : accepted url.href url.hostname ip ≡ accepted href hostname to =
                some-inj (rw b at h1) in
              (ap accepted_ip passed, inl (ground (arith, e), blocked ∙ ap some b))
        ]
    | inr e ↦
        let (passed, misses) =
          refuse_ranges-Misses blocked_ipv4_ranges ip href hostname to _ (rw e at h) in
        (
          ap accepted_ip passed,
          inr (
            λ f. ground (arith, e, f),
            Misses-IsOutside blocked_ipv4_ranges ip ipv4-ne-nil misses,
          ),
        )
  ]

  -- Where an address that is checked comes from: it stands in the URL, or the lookup of a name gave it.
  module _ (lookup : Text → ℕ → Option (List Answer)) (ipv6 : Bool) where
    abbrev pub Comes : Text → Type 0
    Comes ip =
        ((is_ip ip ≡ 4) ⊎ (is_ip ip ≡ 6))
        ⊎ ((host : Text) × (family : ℕ) × (answers : List Answer) × ((lookup host family
                ≡ some answers)
              × (chosen_address answers ≡ some ip)))

    -- An accepted URL is one whose address passed the check.
    abbrev pub Checked : Option Verdict → Text → Text → Text → Type 0
    Checked o href hostname to =
        o ≡ some (accepted href hostname to)
        → (url : Url) × (ip : Text) × ((check_address is_ip url ip
              ≡ some (accepted href hostname to))
            × Comes ip)

    check_name-Checked :
        (url : Url) (host : Text) (family : ℕ) (o : Option (List Answer)) (href hostname to : Text)
        → lookup host family ≡ o
        → Checked (check_chosen is_ip url (chosen_of is_ip o)) href hostname to
    check_name-Checked url host family none href hostname to e h = absurd (cc)
    check_name-Checked url host family (some answers) href hostname to e h =
        at (chosen_address answers) refl h
      where
        at :
            (o : Option Text)
            → chosen_address answers ≡ o
            → Checked (check_chosen is_ip url o) href hostname to
        at none c h = absurd (cc)
        at (some ip) c h = (url, ip, (h, inr (host, family, answers, (e, c))))

    check_host-Checked :
        (url : Url) (host href hostname to : Text)
        → Checked (check_host is_ip lookup ipv6 url host) href hostname to
    unfolding check_host
    check_host-Checked url host href hostname to h = elim (Bool-cases (is_ip host == 4)) [
      | inl four ↦ (url, host, (rw four at h, inl (inl (ground (arith, four)))))
      | inr e ↦ elim (Bool-cases (is_ip host == 6)) [
        | inl six ↦ elim (Bool-cases ipv6) [
          | inl on ↦ (url, host, (rw (e, six, on) at h, inl (inr (ground (arith, six)))))
          | inr off ↦ absurd (let z = rw (e, six, off) at h in cc)
        ]
        | inr named ↦
            check_name-Checked url host (if ipv6 then 0 else 4)
              (lookup host (if ipv6 then 0 else 4)) href hostname to refl (rw (e, named) at h)
      ]
    ]

    past :
        (b d : Bool) (r q : Refusal) (o : Option Verdict) (href hostname to : Text)
        → (if b then some (refused r) else if d then some (refused q) else o)
          ≡ some (accepted href hostname to)
        → o ≡ some (accepted href hostname to)
    past true d r q o href hostname to h = absurd (cc)
    past false true r q o href hostname to h = absurd (cc)
    past false false r q o href hostname to h = h

    check_url-Checked :
        (o : Option Url) (href hostname to : Text)
        → Checked (check_url is_ip lookup ipv6 o) href hostname to
    check_url-Checked none href hostname to h = absurd (cc)
    check_url-Checked (some url) href hostname to h =
        check_host-Checked url (without_brackets url.hostname) href hostname to
          (past _ (is_empty url.hostname) _ _ _ href hostname to h)

    pub validate_outbound_url-Checked :
        (parse_url : Text → Option Url) (raw_url href hostname to : Text)
        → Checked (validate_outbound_url is_ip lookup ipv6 parse_url raw_url) href hostname to
    unfolding validate_outbound_url
    validate_outbound_url-Checked parse_url raw_url href hostname to h =
        elim (Bool-cases (is_empty raw_url)) [
          | inl e ↦ absurd (let z = rw e at h in cc)
          | inr e ↦ check_url-Checked (parse_url raw_url) href hostname to (rw e at h)
        ]
