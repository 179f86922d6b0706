-- ===== src/PasswordPolicy/Applied.antt =====
-- A patch of the password policy that was accepted and stored is in the policy that is read.
use cidrella.Base.{ℕ, ◌≡◌, refl, ap, ap₂, ◌∙◌, Bool, true, false, some, List, ◌++◌}
use cidrella.PasswordPolicy.{
  build, min_length_key, mixed_case_key, number_key, symbol_key, Settings, read_bool, read_int,
  effective_password_policy, PolicyBody, Setting, patched, length_step, flag_step,
  validate_policy_patch, store_all,
}
use cidrella.PasswordPolicy.Stored.{
  flag_or, changed, length_settings, flag_settings, IsShort, length_step-patched, flag_step-patched,
  not_empty-patched, store_all-append, store_all-other, store_all-length-other, read_bool-own,
  read_int-own,
}

-- The settings of all fields, in the order of the code.
abbrev all_settings : PolicyBody → List Setting
all_settings b =
    ((length_settings b.min_length ++ flag_settings mixed_case_key b.mixed_case)
      ++ flag_settings number_key b.number)
    ++ flag_settings symbol_key b.symbol

validate_policy_patch-patched :
    (b : PolicyBody) (p : List Setting)
    → validate_policy_patch (some b) ≡ patched p
    → (p ≡ all_settings b) × IsShort b.min_length
unfolding validate_policy_patch
validate_policy_patch-patched b p e =
    let third =
      flag_step number_key b.number
        (flag_step mixed_case_key b.mixed_case (length_step b.min_length)) in
    let (q3, (e3, s3)) = flag_step-patched symbol_key b.symbol third p (not_empty-patched _ p e) in
    let (q2, (e2, s2)) =
      flag_step-patched number_key b.number
        (flag_step mixed_case_key b.mixed_case (length_step b.min_length)) q3 e3 in
    let (q1, (e1, s1)) =
      flag_step-patched mixed_case_key b.mixed_case (length_step b.min_length) q2 e2 in
    let (s0, short) = length_step-patched b.min_length q1 e1 in
    (
      s3
          ∙ ap (λ q. q ++ flag_settings symbol_key b.symbol)
              (s2
                ∙ ap (λ q. q ++ flag_settings number_key b.number)
                    (s1 ∙ ap (λ q. q ++ flag_settings mixed_case_key b.mixed_case) s0)),
      short,
    )

build_eq :
    {m m' : ℕ} {a a' b b' c c' : Bool}
    → m ≡ m'
    → a ≡ a'
    → b ≡ b'
    → c ≡ c'
    → build m a b c ≡ build m' a' b' c'
build_eq em ea eb ec = ap₂ (λ f x. f x) (ap₂ (λ f x. f x) (ap₂ (λ x y. build x y) em ea) eb) ec

module _ (settings : Settings) (b : PolicyBody) where
  abbrev first : Settings
  first = store_all settings (length_settings b.min_length)

  abbrev second : Settings
  second = store_all first (flag_settings mixed_case_key b.mixed_case)

  abbrev third : Settings
  third = store_all second (flag_settings number_key b.number)

  abbrev applied : Settings
  applied = store_all third (flag_settings symbol_key b.symbol)

  store_all-all_settings : store_all settings (all_settings b) ≡ applied
  store_all-all_settings =
      rw
        (
          store_all-append
              ((length_settings b.min_length ++ flag_settings mixed_case_key b.mixed_case)
                ++ flag_settings number_key b.number)
              (flag_settings symbol_key b.symbol) settings,
          store_all-append
              (length_settings b.min_length ++ flag_settings mixed_case_key b.mixed_case)
              (flag_settings number_key b.number) settings,
          store_all-append (length_settings b.min_length)
              (flag_settings mixed_case_key b.mixed_case) settings,
        )
        refl

  length_row : applied min_length_key ≡ first min_length_key
  length_row =
      store_all-other third symbol_key min_length_key b.symbol refl
      ∙ store_all-other second number_key min_length_key b.number refl
      ∙ store_all-other first mixed_case_key min_length_key b.mixed_case refl

  mixed_row : applied mixed_case_key ≡ second mixed_case_key
  mixed_row =
      store_all-other third symbol_key mixed_case_key b.symbol refl
      ∙ store_all-other second number_key mixed_case_key b.number refl

  number_row : second number_key ≡ settings number_key
  number_row =
      store_all-other first mixed_case_key number_key b.mixed_case refl
      ∙ store_all-length-other settings number_key b.min_length refl

  symbol_row : third symbol_key ≡ settings symbol_key
  symbol_row =
      store_all-other second number_key symbol_key b.number refl
      ∙ store_all-other first mixed_case_key symbol_key b.mixed_case refl
      ∙ store_all-length-other settings symbol_key b.min_length refl

  applied-changed :
      IsShort b.min_length
      → effective_password_policy applied ≡ changed b (effective_password_policy settings)
  unfolding effective_password_policy
  applied-changed short =
      build_eq (ap (λ r. read_int r 8) length_row ∙ read_int-own settings b.min_length 8 short)
        (ap (λ r. read_bool r true) mixed_row
          ∙ read_bool-own first mixed_case_key b.mixed_case true refl
          ∙ ap (λ r. flag_or b.mixed_case (read_bool r true))
              (store_all-length-other settings mixed_case_key b.min_length refl))
        (ap (λ r. read_bool r true) (store_all-other third symbol_key number_key b.symbol refl)
          ∙ read_bool-own second number_key b.number true refl
          ∙ ap (λ r. flag_or b.number (read_bool r true)) number_row)
        (read_bool-own third symbol_key b.symbol false refl
          ∙ ap (λ r. flag_or b.symbol (read_bool r false)) symbol_row)

-- When a patch is accepted and its settings are stored, the policy that is in force afterwards has the values
-- that the request gives, and is as before in the fields that it leaves out.
pub effective-validate_policy_patch :
    (settings : Settings) (b : PolicyBody) (p : List Setting)
    → validate_policy_patch (some b) ≡ patched p
    → effective_password_policy (store_all settings p)
      ≡ changed b (effective_password_policy settings)
effective-validate_policy_patch settings b p e =
    let (same, short) = validate_policy_patch-patched b p e in
    ap (λ q. effective_password_policy (store_all settings q)) same
    ∙ ap effective_password_policy (store_all-all_settings settings b)
    ∙ applied-changed settings b short
