-- ===== src/Semver/Order.antt =====
-- The comparison of versions is an order.
use Prim.Native.Nat.{compare, Ordering}
use Prim.Native.Nat.Ordering.{lt, eq, gt}
use cidrella.Base.{ℕ, ◌≡◌, refl, sym, ap, ap₂, ◌∙◌, arith, Bool, true, false, List, [], ◌∷◌}
use cidrella.Base.Text.{Text, parse_int}
use cidrella.Semver.{
  then_by, compare_lists, compare_text, is_numeric, pick, compare_ids, compare_pre, Version,
  parse_version, compare_tags, compare_versions, compare_semver,
}

abbrev pub flip : Ordering → Ordering
flip lt = gt
flip eq = eq
flip gt = lt

-- A comparison that is an order: swapping its arguments turns it round, what it takes for the same
-- compares the same with all else, and less than less is less.
pub record IsOrder {ℓ} (A : Type ℓ) (cmp : A → A → Ordering) : Type ℓ where
  pub flips : (a b : A) → cmp b a ≡ flip (cmp a b)
  pub same : (a b c : A) → cmp a b ≡ eq → cmp a c ≡ cmp b c
  pub less : (a b c : A) → cmp a b ≡ lt → cmp b c ≡ lt → cmp a c ≡ lt

compare-IsOrder : IsOrder ℕ compare
compare-IsOrder = record {
  flips = λ a b. ground arith;
  same = λ a b c h. ground arith;
  less = λ a b c h k. ground arith;
}

flip-then_by : (o p : Ordering) → flip (then_by o p) ≡ then_by (flip o) (flip p)
flip-then_by lt p = refl
flip-then_by eq p = refl
flip-then_by gt p = refl

flip-lt : (o : Ordering) → flip o ≡ gt → o ≡ lt
flip-lt lt h = refl
flip-lt eq h = cc
flip-lt gt h = cc

module _ {ℓ} {A : Type ℓ} (cmp : A → A → Ordering) (h : IsOrder A cmp) where
  less_same : (a b c : A) → cmp a b ≡ lt → cmp b c ≡ eq → cmp a c ≡ lt
  less_same a b c l s =
      let back : cmp c b ≡ eq = h.flips b c ∙ ap flip s in
      h.flips c a ∙ ap flip (h.same c b a back ∙ h.flips a b ∙ ap flip l)

  IsOrder-by {κ} : {B : Type κ} (f : B → A) → IsOrder B (λ x y. cmp (f x) (f y))
  IsOrder-by f = record {
    flips = λ x y. h.flips (f x) (f y);
    same = λ x y z. h.same (f x) (f y) (f z);
    less = λ x y z. h.less (f x) (f y) (f z);
  }

then_by-eq : (o p : Ordering) → then_by o p ≡ eq → (o ≡ eq) × (p ≡ eq)
then_by-eq lt p h = absurd (cc)
then_by-eq eq p h = (refl, h)
then_by-eq gt p h = absurd (cc)

-- What makes the first of two comparisons decide, or leave it to the second.
data IsLess (o p : Ordering) : Type 0 where
  first : o ≡ lt → IsLess o p
  second : o ≡ eq → p ≡ lt → IsLess o p

then_by-lt : (o p : Ordering) → then_by o p ≡ lt → IsLess o p
then_by-lt lt p h = first refl
then_by-lt eq p h = second refl h
then_by-lt gt p h = absurd (cc)

-- The step of a lexicographic comparison: less in the first, or the same there and less in the rest.
module _ {ℓ} {A : Type ℓ} (cmp : A → A → Ordering) (h : IsOrder A cmp) where
  then_by-less :
      (a b c : A) (p q r : Ordering)
      → (p ≡ lt → q ≡ lt → r ≡ lt)
      → then_by (cmp a b) p ≡ lt
      → then_by (cmp b c) q ≡ lt
      → then_by (cmp a c) r ≡ lt
  then_by-less a b c p q r rest l m = go (then_by-lt _ _ l) (then_by-lt _ _ m)
    where
      go : IsLess (cmp a b) p → IsLess (cmp b c) q → then_by (cmp a c) r ≡ lt
      go (first x) (first y) = ap (λ o. then_by o r) (h.less a b c x y)
      go (first x) (second y k) = ap (λ o. then_by o r) (less_same cmp h a b c x y)
      go (second x k) (first y) = ap (λ o. then_by o r) (h.same a b c x ∙ y)
      go (second x k) (second y j) = ap (λ o. then_by o r) (h.same a b c x ∙ y) ∙ rest k j

  then_by-same :
      (a b c : A) (p q r : Ordering)
      → (p ≡ eq → q ≡ r)
      → then_by (cmp a b) p ≡ eq
      → then_by (cmp a c) q ≡ then_by (cmp b c) r
  then_by-same a b c p q r rest e =
      let (x, k) = then_by-eq (cmp a b) p e in ap₂ then_by (h.same a b c x) (rest k)

  IsOrder-then_by :
      (cmp' : A → A → Ordering) → IsOrder A cmp' → IsOrder A (λ a b. then_by (cmp a b) (cmp' a b))
  IsOrder-then_by cmp' h' = record {
    flips =
        λ a b. ap₂ then_by (h.flips a b) (h'.flips a b) ∙ sym (flip-then_by (cmp a b) (cmp' a b));
    same = λ a b c. then_by-same a b c _ _ _ (h'.same a b c);
    less = λ a b c. then_by-less a b c _ _ _ (h'.less a b c);
  }

module _ {ℓ} {A : Type ℓ} (cmp : A → A → Ordering) (h : IsOrder A cmp) where
  compare_lists-flip : (xs ys : List A) → compare_lists cmp ys xs ≡ flip (compare_lists cmp xs ys)
  unfolding compare_lists
  compare_lists-flip [] [] = refl
  compare_lists-flip [] (y ∷ ys) = refl
  compare_lists-flip (x ∷ xs) [] = refl
  compare_lists-flip (x ∷ xs) (y ∷ ys) =
      ap₂ then_by (h.flips x y) (compare_lists-flip xs ys)
      ∙ sym (flip-then_by (cmp x y) (compare_lists cmp xs ys))

  compare_lists-same :
      (xs ys zs : List A)
      → compare_lists cmp xs ys ≡ eq
      → compare_lists cmp xs zs ≡ compare_lists cmp ys zs
  unfolding compare_lists
  compare_lists-same [] [] zs e = refl
  compare_lists-same [] (y ∷ ys) zs e = absurd (cc)
  compare_lists-same (x ∷ xs) [] zs e = absurd (cc)
  compare_lists-same (x ∷ xs) (y ∷ ys) [] e = refl
  compare_lists-same (x ∷ xs) (y ∷ ys) (z ∷ zs) e =
      then_by-same cmp h x y z _ _ _ (compare_lists-same xs ys zs) e

  compare_lists-less :
      (xs ys zs : List A)
      → compare_lists cmp xs ys ≡ lt
      → compare_lists cmp ys zs ≡ lt
      → compare_lists cmp xs zs ≡ lt
  unfolding compare_lists
  compare_lists-less [] [] zs e f = absurd (cc)
  compare_lists-less [] (y ∷ ys) [] e f = absurd (cc)
  compare_lists-less [] (y ∷ ys) (z ∷ zs) e f = refl
  compare_lists-less (x ∷ xs) [] zs e f = absurd (cc)
  compare_lists-less (x ∷ xs) (y ∷ ys) [] e f = absurd (cc)
  compare_lists-less (x ∷ xs) (y ∷ ys) (z ∷ zs) e f =
      then_by-less cmp h x y z _ _ _ (compare_lists-less xs ys zs) e f

  compare_lists-IsOrder : IsOrder (List A) (compare_lists cmp)
  compare_lists-IsOrder = record {
    flips = compare_lists-flip;
    same = compare_lists-same;
    less = compare_lists-less;
  }

compare_text-IsOrder : IsOrder Text compare_text
unfolding compare_text
compare_text-IsOrder = compare_lists-IsOrder compare compare-IsOrder

pick-same :
    (x y z : Bool) (n m k s t u : Ordering)
    → (n ≡ eq → m ≡ k)
    → (s ≡ eq → t ≡ u)
    → pick x y n s ≡ eq
    → pick x z m t ≡ pick y z k u
pick-same true true true n m k s t u f g e = f e
pick-same true true false n m k s t u f g e = refl
pick-same true false z n m k s t u f g e = absurd (cc)
pick-same false true z n m k s t u f g e = absurd (cc)
pick-same false false true n m k s t u f g e = refl
pick-same false false false n m k s t u f g e = g e

pick-less :
    (x y z : Bool) (n m k s t u : Ordering)
    → (n ≡ lt → m ≡ lt → k ≡ lt)
    → (s ≡ lt → t ≡ lt → u ≡ lt)
    → pick x y n s ≡ lt
    → pick y z m t ≡ lt
    → pick x z k u ≡ lt
pick-less true true true n m k s t u f g e h = f e h
pick-less true true false n m k s t u f g e h = refl
pick-less true false true n m k s t u f g e h = absurd (cc)
pick-less true false false n m k s t u f g e h = refl
pick-less false true z n m k s t u f g e h = absurd (cc)
pick-less false false true n m k s t u f g e h = absurd (cc)
pick-less false false false n m k s t u f g e h = g e h

pick-flip : (x y : Bool) (n s : Ordering) → pick y x (flip n) (flip s) ≡ flip (pick x y n s)
pick-flip true true n s = refl
pick-flip true false n s = refl
pick-flip false true n s = refl
pick-flip false false n s = refl

compare_ids-IsOrder : IsOrder Text compare_ids
unfolding compare_ids
compare_ids-IsOrder =
    let numbers = IsOrder-by compare compare-IsOrder (parse_int 10) in
    let texts = compare_text-IsOrder in
    record {
      flips = λ x y.
          ap₂ (pick (is_numeric y) (is_numeric x)) (numbers.flips x y) (texts.flips x y)
          ∙ pick-flip (is_numeric x) (is_numeric y) _ _;
      same = λ x y z.
          pick-same (is_numeric x) (is_numeric y) (is_numeric z) _ _ _ _ _ _ (numbers.same x y z)
            (texts.same x y z);
      less = λ x y z.
          pick-less (is_numeric x) (is_numeric y) (is_numeric z) _ _ _ _ _ _ (numbers.less x y z)
            (texts.less x y z);
    }

compare_pre-IsOrder : IsOrder (List Text) compare_pre
unfolding compare_pre
compare_pre-IsOrder = compare_lists-IsOrder compare_ids compare_ids-IsOrder

compare_tags-IsOrder : IsOrder (List Text) compare_tags
unfolding compare_tags
compare_tags-IsOrder = record { flips = flips; same = same; less = less }
  where
    flips : (s t : List Text) → compare_tags t s ≡ flip (compare_tags s t)
    flips [] [] = refl
    flips [] (d ∷ t) = refl
    flips (c ∷ s) [] = refl
    flips (c ∷ s) (d ∷ t) = compare_pre-IsOrder.flips (c ∷ s) (d ∷ t)

    same : (s t u : List Text) → compare_tags s t ≡ eq → compare_tags s u ≡ compare_tags t u
    same [] [] u e = refl
    same [] (d ∷ t) u e = absurd (cc)
    same (c ∷ s) [] u e = absurd (cc)
    same (c ∷ s) (d ∷ t) [] e = refl
    same (c ∷ s) (d ∷ t) (b ∷ u) e = compare_pre-IsOrder.same (c ∷ s) (d ∷ t) (b ∷ u) e

    less :
        (s t u : List Text) → compare_tags s t ≡ lt → compare_tags t u ≡ lt → compare_tags s u ≡ lt
    less [] [] u e f = absurd (cc)
    less [] (d ∷ t) u e f = absurd (cc)
    less (c ∷ s) [] [] e f = absurd (cc)
    less (c ∷ s) [] (b ∷ u) e f = absurd (cc)
    less (c ∷ s) (d ∷ t) [] e f = refl
    less (c ∷ s) (d ∷ t) (b ∷ u) e f = compare_pre-IsOrder.less (c ∷ s) (d ∷ t) (b ∷ u) e f

compare_versions-IsOrder : IsOrder Version compare_versions
unfolding compare_versions
compare_versions-IsOrder =
    let by = λ (f : Version → ℕ). IsOrder-by compare compare-IsOrder f in
    IsOrder-then_by _ (by (λ v. v.major)) _ (
      IsOrder-then_by _ (by (λ v. v.minor)) _ (
        IsOrder-then_by _ (by (λ v. v.patch)) _
          (IsOrder-by compare_tags compare_tags-IsOrder (λ v. v.pre))))

-- Comparing the texts of versions is an order: swapping them turns the result round, versions that
-- compare as the same compare the same with every other, and `less` carries on.
pub compare_semver-IsOrder : IsOrder Text compare_semver
unfolding compare_semver
compare_semver-IsOrder = IsOrder-by compare_versions compare_versions-IsOrder parse_version

compare_refl : (n : ℕ) → compare n n ≡ eq
compare_refl n = ground arith

-- Of two texts that are read to the same numbers, one with identifiers is a version less than one
-- without.
pub compare_semver-pre :
    (a b x : Text) (xs : List Text)
    → (parse_version a).major ≡ (parse_version b).major
    → (parse_version a).minor ≡ (parse_version b).minor
    → (parse_version a).patch ≡ (parse_version b).patch
    → (parse_version a).pre ≡ x ∷ xs
    → (parse_version b).pre ≡ []
    → compare_semver a b ≡ lt
unfolding compare_semver compare_versions compare_tags
compare_semver-pre a b x xs e f g p q =
    rw
      (
        e,
        f,
        g,
        p,
        q,
        compare_refl (parse_version b).major,
        compare_refl (parse_version b).minor,
        compare_refl (parse_version b).patch,
      )
      refl
