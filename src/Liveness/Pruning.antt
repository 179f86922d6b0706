-- ===== src/Liveness/Pruning.antt =====
-- Pruning old entries changes nothing that is observed.
use cidrella.Base.{
  ℕ, ◌+◌, ◌<◌, ◌≡◌, ◌⊎◌, refl, sym, subst, arith, true, false, inl, inr, List, [], ◌∷◌, ltb, All,
  Bool-cases, if◌then◌else◌,
}
use cidrella.Base.Text.{Text, text_eq}
use cidrella.Address.Format.Runs.{text_eq_sound}
use cidrella.Liveness.{Write, last_write, set_write, without_older}

abbrev pub Lacks : Text → List Write → Type 0
Lacks ip = All (λ w. text_eq w.ip ip ≡ false)

-- One entry for each address.
abbrev pub IsUnique : List Write → Type 0
IsUnique [] = Unit
IsUnique (w ∷ ws) = Lacks w.ip ws × IsUnique ws

last_write-Lacks : (ws : List Write) (ip : Text) → Lacks ip ws → last_write ws ip ≡ 0
unfolding last_write
last_write-Lacks [] ip h = refl
last_write-Lacks (w ∷ ws) ip (p, h) = rw p (last_write-Lacks ws ip h)

without_older-Lacks :
    (now double : ℕ) (ws : List Write) (ip : Text)
    → Lacks ip ws
    → Lacks ip (without_older now double ws)
unfolding without_older
without_older-Lacks now double [] ip h = tt
without_older-Lacks now double (w ∷ ws) ip (p, h) = elim (Bool-cases (ltb (w.at + double) now)) [
  | inl e ↦ rw e (without_older-Lacks now double ws ip h)
  | inr e ↦ rw e (p, without_older-Lacks now double ws ip h)
]

pub without_older-IsUnique :
    (now double : ℕ) (ws : List Write) → IsUnique ws → IsUnique (without_older now double ws)
unfolding without_older
without_older-IsUnique now double [] h = tt
without_older-IsUnique now double (w ∷ ws) (p, h) = elim (Bool-cases (ltb (w.at + double) now)) [
  | inl e ↦ rw e (without_older-IsUnique now double ws h)
  | inr e ↦ rw e (without_older-Lacks now double ws w.ip p, without_older-IsUnique now double ws h)
]

-- An entry is kept, or it is older than `double`.
pub last_write-without_older :
    (now double : ℕ) (ws : List Write) (ip : Text)
    → IsUnique ws
    → (last_write (without_older now double ws) ip ≡ last_write ws ip)
      ⊎ ((last_write (without_older now double ws) ip ≡ 0) × (last_write ws ip + double < now))
unfolding last_write without_older
last_write-without_older now double [] ip h = inl refl
last_write-without_older now double (w ∷ ws) ip (p, h) =
    elim (Bool-cases (ltb (w.at + double) now)) [
      | inl old ↦ elim (Bool-cases (text_eq w.ip ip)) [
        | inl hit ↦
            let gone = last_write-Lacks (without_older now double ws) ip (
              subst (λ s. Lacks s (without_older now double ws)) (text_eq_sound w.ip ip hit)
                (without_older-Lacks now double ws w.ip p)) in
            rw (old, hit) (inr (gone, ground (arith, old)))
        | inr miss ↦ rw (old, miss) (last_write-without_older now double ws ip h)
      ]
      | inr young ↦ elim (Bool-cases (text_eq w.ip ip)) [
        | inl hit ↦ rw (young, hit) (inl refl)
        | inr miss ↦ rw (young, miss) (last_write-without_older now double ws ip h)
      ]
    ]

set_write-Lacks :
    (ws : List Write) (ip other : Text) (now : ℕ)
    → text_eq ip other ≡ false
    → Lacks other ws
    → Lacks other (set_write ws ip now)
unfolding set_write
set_write-Lacks [] ip other now n h = (n, tt)
set_write-Lacks (w ∷ ws) ip other now n (p, h) = elim (Bool-cases (text_eq w.ip ip)) [
  | inl hit ↦ rw hit (n, h)
  | inr miss ↦ rw miss (p, set_write-Lacks ws ip other now n h)
]

pub text_eq_refl : (s : Text) → text_eq s s ≡ true
text_eq_refl [] = refl
text_eq_refl (c ∷ s) = ground (arith, text_eq_refl s)

text_ne-sym : (s t : Text) → text_eq s t ≡ false → text_eq t s ≡ false
text_ne-sym s t n = elim (Bool-cases (text_eq t s)) [
  | inl e ↦ absurd (
      let z = subst (λ u. text_eq s u ≡ false) (text_eq_sound t s e) n in
      let y = text_eq_refl s in cc)
  | inr e ↦ e
]

pub set_write-IsUnique :
    (ws : List Write) (ip : Text) (now : ℕ) → IsUnique ws → IsUnique (set_write ws ip now)
unfolding set_write
set_write-IsUnique [] ip now h = (tt, tt)
set_write-IsUnique (w ∷ ws) ip now (p, h) = elim (Bool-cases (text_eq w.ip ip)) [
  | inl hit ↦ rw hit (subst (λ s. Lacks s ws) (text_eq_sound w.ip ip hit) p, h)
  | inr miss ↦
      rw miss (
        set_write-Lacks ws ip w.ip now (text_ne-sym w.ip ip miss) p,
        set_write-IsUnique ws ip now h,
      )
]

pub last_write-set_write :
    (ws : List Write) (ip other : Text) (now : ℕ)
    → last_write (set_write ws ip now) other
      ≡ (if text_eq ip other then now else last_write ws other)
unfolding last_write set_write
last_write-set_write [] ip other now = refl
last_write-set_write (w ∷ ws) ip other now = elim (Bool-cases (text_eq w.ip ip)) [
  | inl hit ↦ rw hit (same (text_eq_sound w.ip ip hit))
  | inr miss ↦ rw (miss, last_write-set_write ws ip other now) (apart miss)
]
  where
    same :
        w.ip ≡ ip
        → (if text_eq ip other then now else last_write ws other) ≡ (
            if text_eq ip other
            then now
            else if text_eq w.ip other
            then w.at
            else last_write ws other)
    same e =
        subst
          (λ s. (if text_eq ip other then now else last_write ws other) ≡ (
            if text_eq ip other
            then now
            else if text_eq s other
            then w.at
            else last_write ws other))
          (sym e) (ground arith)

    apart :
        text_eq w.ip ip ≡ false
        → (if text_eq w.ip other
            then w.at
            else if text_eq ip other
            then now
            else last_write ws other)
          ≡ (if text_eq ip other
              then now
              else if text_eq w.ip other
              then w.at
              else last_write ws other)
    apart miss = elim (Bool-cases (text_eq ip other)) [
      | inl e ↦
          let n : text_eq w.ip other ≡ false =
            subst (λ s. text_eq w.ip s ≡ false) (text_eq_sound ip other e) miss in
          rw (e, n) refl
      | inr e ↦ rw e refl
    ]
