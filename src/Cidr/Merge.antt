-- ===== src/Cidr/Merge.antt =====
-- Merging networks into one (`mergeNetworks` of server/src/utils/cidr.js).
pub mod Sorting
pub mod Named
pub mod Union
use cidrella.Base.{
  ℕ, zero, suc, ◌+◌, ◌-◌, ◌*◌, ◌%◌, ◌^◌, bit_and, Bool, true, false, not, ◌&&◌, ◌||◌, Option, none,
  some, List, [], ◌∷◌, ◌++◌, map, length, any, last_or, ltb, leb, ◌==◌, if◌then◌else◌, ◌>>=◌,
}
use cidrella.Base.Text.{Text, to_string}
use cidrella.Cidr.{Network, parse_network, slash, cidr_runs}

pub data MergeError : Type 0 where
  too_few mixed_families overlapping gap not_power_of_two misaligned : MergeError

pub data MergeResult : Type 0 where
  valid : Text → MergeResult
  invalid : MergeError → MergeResult

unfoldable pub parse_networks : List Text → Option (List Network)
parse_networks [] = some []
parse_networks (c ∷ cs) = parse_network c >>= λ net. parse_networks cs >>= λ rest. some (net ∷ rest)

-- `parsed.sort(...)` by the network address, which keeps equal elements in order.
unfoldable pub insert_sorted : Network → List Network → List Network
insert_sorted a [] = a ∷ []
insert_sorted a (b ∷ bs) =
    if leb a.network_big b.network_big then a ∷ (b ∷ bs) else b ∷ insert_sorted a bs

unfoldable pub sort_networks : List Network → List Network
sort_networks [] = []
sort_networks (a ∷ nets) = insert_sorted a (sort_networks nets)

-- The loop that compares each network with the one before it.
unfoldable pub check_adjacent : Network → List Network → Option MergeError
check_adjacent a [] = none
check_adjacent a (b ∷ bs) =
    let rest = check_adjacent b bs in
    if leb b.network_big a.last_big
    then some overlapping
    else if not (b.network_big == a.last_big + 1)
    then some gap
    else rest

unfoldable pub total_size : List Network → ℕ
total_size [] = 0
total_size (a ∷ nets) = a.size_big + total_size nets

-- From the sorted networks on; the first is given apart.
unfoldable pub merge_total : Network → List Network → ℕ → MergeResult
merge_total first rest total =
    if not (bit_and total (total - 1) == 0)
    then invalid not_power_of_two
    else (let exponent = length (to_string 2 total) - 1 in
        let last_net = last_or first rest in
        if not (first.network_big % total == 0)
          || not (last_net.last_big == first.network_big + total - 1)
        then invalid misaligned
        else valid (first.network ++ slash ∷ to_string 10 (first.bits - exponent)))

abbrev pub merge_checked : Option MergeError → Network → List Network → MergeResult
merge_checked (some e) first rest = invalid e
merge_checked none first rest = merge_total first rest (total_size (first ∷ rest))

unfoldable pub merge_sorted : List Network → MergeResult
merge_sorted [] = invalid too_few
merge_sorted (first ∷ rest) = merge_checked (check_adjacent first rest) first rest

unfoldable pub merge_parsed : List Network → MergeResult
merge_parsed [] = invalid too_few
merge_parsed (a ∷ nets) =
    if any (λ net. not (net.family == a.family)) (a ∷ nets)
    then invalid mixed_families
    else merge_sorted (sort_networks (a ∷ nets))

unfoldable pub merge_networks : List Text → Option MergeResult
merge_networks cidrs =
    if ltb (length cidrs) 2
    then some (invalid too_few)
    else (parse_networks cidrs >>= λ parsed. some (merge_parsed parsed))

unfoldable pub merge_runs : Unit {0}
unfolding cidr_runs parse_networks insert_sorted sort_networks check_adjacent total_size merge_total
    merge_sorted merge_parsed merge_networks
merge_runs = tt
