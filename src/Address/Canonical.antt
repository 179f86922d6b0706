-- ===== src/Address/Canonical.antt =====
-- `canonicalizeIp`: one spelling for each address.
use cidrella.Base.{◌≡◌, ◌↔◌, ap, ap₂, sym, ◌∙◌, inl, inr, none, some, some-inj, >>=-eq-some, subst}
use cidrella.Base.Text.{Text}
use cidrella.Address.{ParsedIp, IpOptions, default_options, parse_ip}
use cidrella.Address.Format.{format_ip, canonicalize_ip}
use cidrella.Address.V4.{parse_ip-format_v4}
use cidrella.Address.RoundTrip.{parse_ip-format_v6}
use cidrella.Address.Bounds.{IsAddress, parse_ip-IsAddress}

abbrev pub without_zone : ParsedIp → ParsedIp
without_zone p = record p { zone_id = none }

-- An address in range is read back from its text.
pub parse_ip-format_ip :
    (o : IpOptions) (p : ParsedIp)
    → IsAddress o p
    → parse_ip o (format_ip p.value p.bits) ≡ some (without_zone p)
parse_ip-format_ip o p (inl (four, low)) =
    ap (λ b. parse_ip o (format_ip p.value b)) four
    ∙ parse_ip-format_v4 o p.value low
    ∙ ap (λ b. some (record { value = p.value; bits = b; zone_id = none })) (sym four)
parse_ip-format_ip o p (inr (six, low, apart)) =
    ap (λ b. parse_ip o (format_ip p.value b)) six
    ∙ parse_ip-format_v6 o p.value low apart
    ∙ ap (λ b. some (record { value = p.value; bits = b; zone_id = none })) (sym six)

-- What is parsed from any text and printed is parsed to the same value and family again.
pub parse_ip-reparse :
    (o : IpOptions) (s : Text) (p : ParsedIp)
    → parse_ip o s ≡ some p
    → parse_ip o (format_ip p.value p.bits) ≡ some (without_zone p)
parse_ip-reparse o s p h = parse_ip-format_ip o p (parse_ip-IsAddress o s p h)

canonicalize_of :
    (s : Text) (p : ParsedIp)
    → parse_ip default_options s ≡ some p
    → canonicalize_ip s ≡ some (format_ip p.value p.bits)
unfolding canonicalize_ip
canonicalize_of s p h = rw h

canonicalize_inv :
    (s t : Text)
    → canonicalize_ip s ≡ some t
    → (p : ParsedIp) × (parse_ip default_options s ≡ some p)
      × (some (format_ip p.value p.bits) ≡ some t)
unfolding canonicalize_ip
canonicalize_inv s t h = >>=-eq-some (parse_ip default_options s) _ h

-- A canonical spelling is its own canonical spelling.
pub canonicalize_ip_idem : (s t : Text) → canonicalize_ip s ≡ some t → canonicalize_ip t ≡ some t
canonicalize_ip_idem s t h =
    let (p, parsed, same) = canonicalize_inv s t h in
    let again =
      canonicalize_of (format_ip p.value p.bits) (without_zone p)
        (parse_ip-reparse default_options s p parsed) in
    subst (λ u. canonicalize_ip u ≡ some u) (some-inj same) again

-- Two texts that are addresses have one canonical spelling exactly when they are the same number of
-- the same family; a zone id does not count.
pub canonicalize_ip-eq_iff :
    (s t : Text) (p q : ParsedIp)
    → parse_ip default_options s ≡ some p
    → parse_ip default_options t ≡ some q
    → (canonicalize_ip s ≡ canonicalize_ip t) ↔ ((p.value ≡ q.value) × (p.bits ≡ q.bits))
canonicalize_ip-eq_iff s t p q hp hq = (to, from)
  where
    to : canonicalize_ip s ≡ canonicalize_ip t → (p.value ≡ q.value) × (p.bits ≡ q.bits)
    to e =
        let texts : format_ip p.value p.bits ≡ format_ip q.value q.bits =
          some-inj (sym (canonicalize_of s p hp) ∙ e ∙ canonicalize_of t q hq) in
        let reads : without_zone p ≡ without_zone q = some-inj (
          sym (parse_ip-reparse default_options s p hp)
          ∙ ap (parse_ip default_options) texts
          ∙ parse_ip-reparse default_options t q hq) in
        (ap (λ (r : ParsedIp). r.value) reads, ap (λ (r : ParsedIp). r.bits) reads)

    from : (p.value ≡ q.value) × (p.bits ≡ q.bits) → canonicalize_ip s ≡ canonicalize_ip t
    from (v, b) =
        canonicalize_of s p hp
        ∙ ap₂ (λ x y. some (format_ip x y)) v b
        ∙ sym (canonicalize_of t q hq)
