-- ===== src/DhcpEffective/Maps.antt =====
-- What a map holds after it is written to, and when it is sorted.
use cidrella.Base.{
  ℕ, ◌≡◌, ◌≢◌, refl, sym, ap, ◌∙◌, subst, arith, Bool, true, false, inl, inr, Option, none, some,
  List, [], ◌∷◌, leb, ◌==◌, ==_iff, Bool-cases, if◌then◌else◌,
}
use cidrella.Base.Text.{Text}
use cidrella.DhcpScope.{Entry, get, set, delete, set_all, insert_entry, sort_entries}
use cidrella.DhcpScope.Codes.{AllCodes, delete-AllCodes}
use cidrella.DhcpScope.Ordering.{IsDistinct, insert_entry-AllCodes, sort_entries-AllCodes}

pub get-set_same : (es : List Entry) (c : ℕ) (v : Text) → get (set es c v) c ≡ some v
unfolding get set
get-set_same [] c v = ground arith
get-set_same (e ∷ es) c v = elim (Bool-cases (e.code == c)) [
  | inl hit ↦ rw hit (ground arith)
  | inr miss ↦ rw (miss, miss) (get-set_same es c v)
]

pub get-set_other :
    (es : List Entry) (c d : ℕ) (v : Text) → (c == d) ≡ false → get (set es c v) d ≡ get es d
unfolding get set
get-set_other [] c d v n = rw n refl
get-set_other (e ∷ es) c d v n = elim (Bool-cases (e.code == c)) [
  | inl hit ↦ let apart : (e.code == d) ≡ false = ground (arith, hit, n) in rw (hit, n, apart) refl
  | inr miss ↦
      rw miss (ap (λ o. if e.code == d then some e.value else o) (get-set_other es c d v n))
]

pub get-delete_same : (es : List Entry) (c : ℕ) → get (delete es c) c ≡ none
unfolding get delete
get-delete_same [] c = refl
get-delete_same (e ∷ es) c = elim (Bool-cases (e.code == c)) [
  | inl hit ↦ rw hit (get-delete_same es c)
  | inr miss ↦ rw (miss, miss) (get-delete_same es c)
]

pub get-delete_other :
    (es : List Entry) (c d : ℕ) → (c == d) ≡ false → get (delete es c) d ≡ get es d
unfolding get delete
get-delete_other [] c d n = refl
get-delete_other (e ∷ es) c d n = elim (Bool-cases (e.code == c)) [
  | inl hit ↦
      let apart : (e.code == d) ≡ false = ground (arith, hit, n) in
      rw (hit, apart) (get-delete_other es c d n)
  | inr miss ↦
      rw miss (ap (λ o. if e.code == d then some e.value else o) (get-delete_other es c d n))
]

pub delete-IsDistinct : (es : List Entry) (c : ℕ) → IsDistinct es → IsDistinct (delete es c)
unfolding delete
delete-IsDistinct [] c h = tt
delete-IsDistinct (e ∷ es) c (p, h) = elim (Bool-cases (e.code == c)) [
  | inl hit ↦ rw hit (delete-IsDistinct es c h)
  | inr miss ↦ rw miss (delete-AllCodes (λ d. d ≢ e.code) es c p, delete-IsDistinct es c h)
]

get-absent : (es : List Entry) (c : ℕ) → AllCodes (λ d. d ≢ c) es → get es c ≡ none
unfolding get
get-absent [] c h = refl
get-absent (e ∷ es) c (p, h) =
    let miss : (e.code == c) ≡ false = ground (arith, p) in rw miss (get-absent es c h)

get-insert_entry :
    (e : Entry) (es : List Entry) (c : ℕ)
    → AllCodes (λ d. d ≢ e.code) es
    → get (insert_entry e es) c ≡ (if e.code == c then some e.value else get es c)
unfolding get insert_entry
get-insert_entry e [] c h = refl
get-insert_entry e (f ∷ es) c (p, h) = elim (Bool-cases (leb e.code f.code)) [
  | inl before ↦ rw before refl
  | inr after ↦ rw after (rw (get-insert_entry e es c h) (swap (f.code == c) (e.code == c) apart))
]
  where
    apart : (f.code == c) ≡ true → (e.code == c) ≡ false
    apart x = ground (arith, p, x)

    swap :
        (x y : Bool)
        → (x ≡ true → y ≡ false)
        → (if x then some f.value else if y then some e.value else get es c)
          ≡ (if y then some e.value else if x then some f.value else get es c)
    swap true true k = absurd (let z = k refl in cc)
    swap true false k = refl
    swap false y k = refl

pub get-sort_entries :
    (es : List Entry) (c : ℕ) → IsDistinct es → get (sort_entries es) c ≡ get es c
unfolding get sort_entries
get-sort_entries [] c h = refl
get-sort_entries (e ∷ es) c (p, h) =
    get-insert_entry e (sort_entries es) c (sort_entries-AllCodes (λ d. d ≢ e.code) es p)
    ∙ ap (λ o. if e.code == c then some e.value else o) (get-sort_entries es c h)

insert_entry-IsDistinct :
    (e : Entry) (es : List Entry)
    → AllCodes (λ c. c ≢ e.code) es
    → IsDistinct es
    → IsDistinct (insert_entry e es)
unfolding insert_entry
insert_entry-IsDistinct e [] d h = (tt, tt)
insert_entry-IsDistinct e (f ∷ es) (n, d) (p, h) = elim (Bool-cases (leb e.code f.code)) [
  | inl before ↦ rw before ((n, d), (p, h))
  | inr after ↦ rw after (
    insert_entry-AllCodes (λ c. c ≢ f.code) e es (λ x. n (sym x)) p,
    insert_entry-IsDistinct e es d h,
  )
]

pub sort_entries-IsDistinct : (es : List Entry) → IsDistinct es → IsDistinct (sort_entries es)
unfolding sort_entries
sort_entries-IsDistinct [] h = tt
sort_entries-IsDistinct (e ∷ es) (p, h) =
    insert_entry-IsDistinct e (sort_entries es) (sort_entries-AllCodes (λ c. c ≢ e.code) es p)
      (sort_entries-IsDistinct es h)

abbrev pub first_of : Option Text → Option Text → Option Text
first_of none o = o
first_of (some v) o = some v

-- Of entries set in turn, the one of the code counts, or else what was there.
pub get-set_all :
    (opts m : List Entry) (c : ℕ)
    → IsDistinct opts
    → get (set_all opts m) c ≡ first_of (get opts c) (get m c)
unfolding get set_all
get-set_all [] m c h = refl
get-set_all (opt ∷ opts) m c (p, h) =
    get-set_all opts (set m opt.code opt.value) c h ∙ elim (Bool-cases (opt.code == c)) [
      | inl hit ↦
          let same = (==_iff opt.code c).0 hit in
          let gone = get-absent opts c (subst (λ n. AllCodes (λ d. d ≢ n) opts) same p) in
          rw (gone, hit)
            (subst (λ n. get (set m n opt.value) c ≡ some opt.value) (sym same)
              (get-set_same m c opt.value))
      | inr miss ↦ rw miss (ap (first_of (get opts c)) (get-set_other m opt.code c opt.value miss))
    ]
