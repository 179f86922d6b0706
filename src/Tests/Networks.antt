-- ===== src/Tests/Networks.antt =====
-- The theorems on networks, at concrete texts.
use cidrella.Base.{
  ℕ, ◌+◌, ◌-◌, ◌*◌, ◌^◌, ◌≤◌, ◌≡◌, refl, arith, inl, inr, true, false, some, List, [], ◌∷◌, length,
  All,
}
use cidrella.Base.Text.{Text, codes}
use cidrella.Cidr.{
  BigAddress, Network, build_network, parse_network, is_network_within, normalize_network,
  cidr_runs,
}
use cidrella.Cidr.Wellformed.{IsBig, IsNetwork, parse_network-IsNetwork}
use cidrella.Cidr.Normal.{parse_network-cidr}
use cidrella.Cidr.Divide.{Block, subtract_network, split_network, divide_runs}
use cidrella.Cidr.Divide.Subtract.{in_network, covered, texts_of, subtract_network_partition}
use cidrella.Cidr.Divide.Split.{in_networks, IsChild, split_network_partition}
use cidrella.Cidr.Merge.{valid, parse_networks, merge_networks, merge_runs}
use cidrella.Cidr.Merge.Union.{IsUnion, merge_networks-IsUnion}

abbrev ten_8 : Text
ten_8 = codes "10.1.2.3/8"

abbrev ten_10 : Text
ten_10 = codes "10.64.0.0/10"

abbrev ten : BigAddress
ten = record { value = 167772160; bits = 32; family = 4 }

abbrev ten_64 : BigAddress
ten_64 = record { value = 171966464; bits = 32; family = 4 }

abbrev ten_64_32 : BigAddress
ten_64_32 = record { value = 174063616; bits = 32; family = 4 }

abbrev lan : BigAddress
lan = record { value = 0xfd00 * 2 ^ 112 + 1; bits = 128; family = 6 }

ten-IsBig : IsBig ten
ten-IsBig = record { in_range = omega arith; families = inl (refl, refl) }

lan-IsBig : IsBig lan
lan-IsBig = record { in_range = omega arith; families = inr (refl, refl, inr (omega arith)) }

parsed_8 : parse_network ten_8 ≡ some (build_network ten 8)
unfolding cidr_runs
parsed_8 = refl

parsed_10 : parse_network ten_10 ≡ some (build_network ten_64 10)
unfolding cidr_runs
parsed_10 = refl

normal_8 : normalize_network ten_8 ≡ some (codes "10.0.0.0/8")
unfolding cidr_runs
normal_8 = refl

within_10 : is_network_within ten_10 ten_8 ≡ some true
unfolding cidr_runs
within_10 = refl

not_within_8 : is_network_within ten_8 ten_10 ≡ some false
unfolding cidr_runs
not_within_8 = refl

subtract_two :
    subtract_network ten_8 ten_10 ≡ some (codes "10.128.0.0/9" ∷ codes "10.0.0.0/10" ∷ [])
unfolding divide_runs
subtract_two = refl

parse_network-IsNetwork_example : IsNetwork (build_network ten 8)
parse_network-IsNetwork_example = parse_network-IsNetwork ten_8 (build_network ten 8) parsed_8

parse_network-cidr_example : parse_network (build_network ten 8).cidr ≡ some (build_network ten 8)
parse_network-cidr_example = parse_network-cidr ten_8 (build_network ten 8) parsed_8

subtract_network_partition_example :
    (blocks : List Block) × (subtract_network ten_8 ten_10
      ≡ some (texts_of (build_network ten 8) blocks))
    × (length blocks ≡ (build_network ten_64 10).prefix - (build_network ten 8).prefix)
    × ((x : ℕ)
        → in_network (build_network ten_64 10) x + covered (build_network ten 8).bits blocks x
          ≡ in_network (build_network ten 8) x)
subtract_network_partition_example =
    subtract_network_partition ten_8 ten_10 (build_network ten 8) (build_network ten_64 10) parsed_8
      parsed_10 within_10

prefix_8 : (build_network ten 8).prefix ≡ 8
unfolding cidr_runs
prefix_8 = refl

bits_8 : (build_network ten 8).bits ≡ 32
unfolding cidr_runs
bits_8 = refl

family_8 : (build_network ten 8).family ≡ 4
unfolding cidr_runs
family_8 = refl

few_8 : 2 ^ (10 - (build_network ten 8).prefix) ≤ 1024
unfolding cidr_runs
few_8 = omega arith

split_network_partition_example :
    (cs : List Network) × (split_network ten_8 10 1024 ≡ some cs)
    × (length cs ≡ 2 ^ (10 - (build_network ten 8).prefix))
    × All (IsChild (build_network ten 8) 10) cs
    × ((x : ℕ) → in_networks cs x ≡ in_network (build_network ten 8) x)
split_network_partition_example =
    split_network_partition ten_8 (build_network ten 8) 10 1024 parsed_8 (inl family_8)
      (omega (arith, prefix_8)) (omega (arith, bits_8)) few_8

abbrev halves : List Text
halves = codes "10.96.0.0/11" ∷ codes "10.64.0.0/11" ∷ []

abbrev half_networks : List Network
half_networks = build_network ten_64_32 11 ∷ build_network ten_64 11 ∷ []

parsed_halves : parse_networks halves ≡ some half_networks
unfolding merge_runs
parsed_halves = refl

merged_halves : merge_networks halves ≡ some (valid ten_10)
unfolding merge_runs
merged_halves = refl

merge_networks-IsUnion_example :
    (f : ℕ) × (All (λ n. n.family ≡ f) half_networks × IsUnion half_networks f ten_10)
merge_networks-IsUnion_example =
    merge_networks-IsUnion halves half_networks ten_10 parsed_halves merged_halves
