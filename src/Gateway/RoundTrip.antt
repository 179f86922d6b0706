-- ===== src/Gateway/RoundTrip.antt =====
-- A gateway address, its policy and the address that the policy resolves to.
use cidrella.Base.{
  ◌≡◌, refl, ap, sym, inl, inr, false, none, some, Option-cases, Bool-cases, [], ◌∷◌,
}
use cidrella.Base.Text.{Text, text_eq, is_empty}
use cidrella.Address.Format.{canonicalize_ip, format_runs}
use cidrella.Address.Format.Runs.{text_eq_sound}
use cidrella.Address.Canonical.{canonicalize_ip_idem}
use cidrella.Cidr.{Network}
use cidrella.Gateway.{
  canonical_or, gateway_policy_for_address, custom_gateway, resolve_gateway_address,
}

canonical_or_idem : (s : Text) → canonical_or (canonical_or s) ≡ canonical_or s
unfolding canonical_or
canonical_or_idem s = elim (Option-cases (canonicalize_ip s)) [
  | inl bad ↦ rw (bad, bad) (refl)
  | inr (t, good) ↦ rw (good, canonicalize_ip_idem s t good) (refl)
]

-- The policy of a gateway address that is not empty resolves to its canonical spelling, or to the text
-- itself where it is no address.
pub resolve_gateway_address-policy :
    (n : Network) (gateway : Text)
    → is_empty gateway ≡ false
    → resolve_gateway_address n (gateway_policy_for_address n (some gateway)) (some gateway)
      ≡ some (canonical_or gateway)
unfolding gateway_policy_for_address resolve_gateway_address custom_gateway
resolve_gateway_address-policy n gateway h =
    elim (Bool-cases (text_eq (canonical_or gateway) n.first_usable)) [
      | inl is_first ↦ rw (h, is_first) (ap some (sym (text_eq_sound _ _ is_first)))
      | inr not_first ↦ elim (Bool-cases (text_eq (canonical_or gateway) n.last_usable)) [
        | inl is_last ↦ rw (h, not_first, is_last) (ap some (sym (text_eq_sound _ _ is_last)))
        | inr not_last ↦ rw (h, not_first, not_last, h) (refl)
      ]
    ]

no_canonical_nil : canonicalize_ip [] ≡ none
unfolding format_runs
no_canonical_nil = refl

canonical-ne_empty : (s t : Text) → canonicalize_ip s ≡ some t → is_empty t ≡ false
canonical-ne_empty s [] h =
    absurd (let again = canonicalize_ip_idem s [] h in let never = no_canonical_nil in cc)
canonical-ne_empty s (c ∷ t) h = refl

is_empty-canonical_or : (s : Text) → is_empty s ≡ false → is_empty (canonical_or s) ≡ false
unfolding canonical_or
is_empty-canonical_or s h = elim (Option-cases (canonicalize_ip s)) [
  | inl bad ↦ rw bad h
  | inr (t, good) ↦ rw good (canonical-ne_empty s t good)
]

-- The canonical spelling of a gateway address, which is what is stored, has the policy of the address.
pub gateway_policy_for_address-canonical_or :
    (n : Network) (gateway : Text)
    → is_empty gateway ≡ false
    → gateway_policy_for_address n (some (canonical_or gateway))
      ≡ gateway_policy_for_address n (some gateway)
unfolding gateway_policy_for_address
gateway_policy_for_address-canonical_or n gateway h =
    rw (is_empty-canonical_or gateway h, h, canonical_or_idem gateway) (refl)
