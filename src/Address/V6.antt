-- ===== src/Address/V6.antt =====
-- IPv6: the canonical text of eight groups is parsed to those groups.
use cidrella.Base.{
  ℕ, zero, suc, ◌+◌, ◌-◌, ◌≤◌, ◌≡◌, ◌≢◌, refl, Bool, true, false, Option, none, some, List, [], ◌∷◌,
  ◌++◌, length, length-append, length-replicate, replicate, take, drop, take-append, drop-append,
  All, All-append, All-left, All-right, leb→le, drop-append_add, last_or, leb, ltb, ==_iff, ◌>>=◌,
  append-ne-nil, Bool-cases, inl, inr, arith,
}
use cidrella.Base.Text.{Text, join}
use cidrella.Base.Text.Splitting.{
  Lacks, NoPair, NoPair-prefix, NoPair-tail, split-join, includes-Lacks, index_of-NoPair,
  last_index_of-NoPair,
}
use cidrella.Base.Text.Pairs.{
  IsGroup, index_of_pair, last_index_of_pair, split_pair_at, join-NoPair,
}
use cidrella.Address.{
  colon, dot, zero_text, colon_parts, take_trailing, fill_zeros, read_groups, parse_parts, parse_v6,
}
use cidrella.Address.Plain.{is_empty_of_ne}
use cidrella.Address.Format.{Run, best_run, no_run, compress}
use cidrella.Address.Format.Runs.{IsRun, found-IsRun}

-- A group of hexadecimal digits, as the parser needs it.
abbrev pub IsHextet : Text → Type 0
IsHextet g = IsGroup colon g × Lacks dot g

All-IsGroup : (gs : List Text) → All IsHextet gs → All (IsGroup colon) gs
All-IsGroup [] h = tt
All-IsGroup (g ∷ gs) (k, h) = (k.0, All-IsGroup gs h)

All-Lacks-colon : (gs : List Text) → All IsHextet gs → All (Lacks colon) gs
All-Lacks-colon [] h = tt
All-Lacks-colon (g ∷ gs) (k, h) = (k.0.1, All-Lacks-colon gs h)

last_or-Lacks-dot :
    (d : Text) (gs : List Text) → Lacks dot d → All IsHextet gs → Lacks dot (last_or d gs)
last_or-Lacks-dot d [] h k = h
last_or-Lacks-dot d (g ∷ gs) h (k, ks) = last_or-Lacks-dot g gs k.1 ks

join-ne-nil : (g : Text) (gs : List Text) → All IsHextet (g ∷ gs) → join colon (g ∷ gs) ≢ []
unfolding join
join-ne-nil g [] h = h.0.0.0
join-ne-nil g (k ∷ gs) h = append-ne-nil g _ h.0.0.0

-- The parts of one side of `::`, none when it is empty.
colon_parts-join : (gs : List Text) → All IsHextet gs → colon_parts (join colon gs) ≡ gs
unfolding colon_parts join
colon_parts-join [] h = refl
colon_parts-join (g ∷ gs) h =
    unfold colon_parts in
    rw (is_empty_of_ne _ (join-ne-nil g gs h))
      (split-join colon (g ∷ gs) (cc) (All-Lacks-colon (g ∷ gs) h))

join-NoPair_right : (gs : List Text) → All IsHextet gs → NoPair colon (join colon gs ++ colon ∷ [])
unfolding join
join-NoPair_right [] h = tt
join-NoPair_right (g ∷ gs) h =
    NoPair-tail colon colon _ (join-NoPair colon g gs (All-IsGroup (g ∷ gs) h))

join-NoPair_left : (gs : List Text) → All IsHextet gs → NoPair colon (colon ∷ join colon gs)
unfolding join
join-NoPair_left [] h = tt
join-NoPair_left (g ∷ gs) h =
    NoPair-prefix colon (colon ∷ join colon (g ∷ gs)) (colon ∷ [])
      (join-NoPair colon g gs (All-IsGroup (g ∷ gs) h))

take_trailing-hextets :
    (b : Bool) (tail gs : List Text) (e : Bool)
    → All IsHextet gs
    → take_trailing b tail gs e ≡ some (none, gs)
unfolding take_trailing
take_trailing-hextets b tail gs e h = rw (includes-Lacks dot _ (last_or-Lacks-dot [] gs tt h))

read_groups_bind : (v : Option ℕ) → (v >>= λ n. some n) ≡ v
read_groups_bind none = refl
read_groups_bind (some v) = refl

parse_parts_plain :
    (gs tail : List Text) (e : Bool)
    → length gs ≡ 8
    → All IsHextet gs
    → parse_parts false gs tail e ≡ read_groups 0 gs
unfolding parse_parts fill_zeros
parse_parts_plain gs tail e len h =
    rw (take_trailing-hextets false tail gs e h, len) (read_groups_bind (read_groups 0 gs))

parse_parts_pair :
    (h t : List Text) (n : ℕ) (e : Bool)
    → length h + (suc n + length t) ≡ 8
    → All IsHextet (h ++ t)
    → parse_parts true h t e ≡ read_groups 0 (h ++ (replicate (suc n) zero_text ++ t))
unfolding parse_parts fill_zeros
parse_parts_pair h t n e len ht =
    rw
      (
        take_trailing-hextets true t (h ++ t) e ht,
        fill,
        not_small,
        take-append h t,
        drop-append h t,
        all_eight,
      )
      (read_groups_bind _)
  where
    fill : 8 - length (h ++ t) ≡ suc n
    fill = omega (arith, length-append h t)

    not_small : ltb (suc n) 1 ≡ false
    not_small = ground arith

    all_eight : length (h ++ (replicate (suc n) zero_text ++ t)) ≡ 8
    all_eight = omega (
      arith,
      length-append h (replicate (suc n) zero_text ++ t),
      length-append (replicate (suc n) zero_text) t,
      length-replicate n zero_text,
    )

-- Eight groups with no `::`.
parse_v6-join :
    (gs : List Text) (e : Bool)
    → length gs ≡ 8
    → All IsHextet gs
    → parse_v6 (join colon gs) e ≡ read_groups 0 gs
unfolding parse_v6
parse_v6-join gs e len h =
    rw
      (
        index_of-NoPair colon (join colon gs) no_pair,
        last_index_of-NoPair colon (join colon gs) no_pair,
        colon_parts-join gs h,
      )
      (parse_parts_plain gs _ e len h)
  where
    no_pair : NoPair colon (join colon gs)
    no_pair = NoPair-tail colon colon _ (join-NoPair_left gs h)

-- A run of zero groups left out.
parse_v6-pair :
    (h t : List Text) (n : ℕ) (e : Bool)
    → length h + (suc n + length t) ≡ 8
    → All IsHextet h
    → All IsHextet t
    → parse_v6 (join colon h ++ colon ∷ colon ∷ join colon t) e
      ≡ read_groups 0 (h ++ (replicate (suc n) zero_text ++ t))
unfolding parse_v6
parse_v6-pair h t n e len hh ht =
    rw
      (
        index_of_pair colon (join colon h) (join colon t) (join-NoPair_right h hh),
        last_index_of_pair colon (join colon h) (join colon t) (join-NoPair_left t ht),
        split_pair_at colon (join colon h) (join colon t) (join-NoPair_right h hh)
            (NoPair-tail colon colon _ (join-NoPair_left t ht)),
        colon_parts-join h hh,
        colon_parts-join t ht,
        (==_iff (length (join colon h)) _).1 refl,
      )
      (parse_parts_pair h t n e len (All-append IsHextet h t hh ht))

left_out :
    (h t : List Text) (n s : ℕ) (e : Bool)
    → 2 ≤ n
    → length h ≡ s
    → length (h ++ (replicate n zero_text ++ t)) ≡ 8
    → All IsHextet (h ++ (replicate n zero_text ++ t))
    → parse_v6
        (join colon (take s (h ++ (replicate n zero_text ++ t)))
          ++ colon ∷ colon ∷ join colon (drop (s + n) (h ++ (replicate n zero_text ++ t))))
        e
      ≡ read_groups 0 (h ++ (replicate n zero_text ++ t))
left_out h t zero s e two start len k = absurd (omega arith)
left_out h t (suc n) s e two start len k =
    rw
      (
        ← start,
        take-append h (replicate (suc n) zero_text ++ t),
        drop-append_add h (replicate (suc n) zero_text ++ t) (suc n) (length h + suc n) refl,
        drop_zeros,
      )
      (parse_v6-pair h t n e eight (All-left IsHextet h _ k)
        (All-right IsHextet (replicate (suc n) zero_text) t (All-right IsHextet h _ k)))
  where
    drop_zeros : drop (suc n) (replicate (suc n) zero_text ++ t) ≡ t
    drop_zeros =
        drop-append_add (replicate (suc n) zero_text) t 0 (suc n)
          (omega (arith, length-replicate n zero_text))

    eight : length h + (suc n + length t) ≡ 8
    eight = omega (
      arith,
      len,
      length-append h (replicate (suc n) zero_text ++ t),
      length-append (replicate (suc n) zero_text) t,
      length-replicate n zero_text,
    )

left_out_run :
    (gs : List Text) (r : Run) (e : Bool)
    → IsRun gs r
    → 2 ≤ r.len
    → length gs ≡ 8
    → All IsHextet gs
    → parse_v6
        (join colon (take r.start gs) ++ colon ∷ colon ∷ join colon (drop (r.start + r.len) gs))
        e
      ≡ read_groups 0 gs
left_out_run gs r e run two len h = rw run.whole (
    left_out run.before run.behind r.len r.start e two run.start (rw run.whole at len)
      (rw run.whole at h))

-- The canonical text of eight groups is parsed to the value of those groups.
pub parse_v6-compress :
    (gs : List Text) (e : Bool)
    → length gs ≡ 8
    → All IsHextet gs
    → parse_v6 (compress gs) e ≡ read_groups 0 gs
unfolding compress
parse_v6-compress gs e len h = elim (Bool-cases (leb 2 (best_run 8 gs 0 no_run).len)) [
  | inl long ↦ rw long (left_out_run gs _ e (found-IsRun gs) (leb→le _ _ long) len h)
  | inr short ↦ rw short (parse_v6-join gs e len h)
]
