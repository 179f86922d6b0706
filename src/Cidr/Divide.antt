-- ===== src/Cidr/Divide.antt =====
-- Taking a network out of a larger one, and splitting a network into equal children
-- (`subtractNetwork` and `splitNetwork` of server/src/utils/cidr.js).
pub mod Subtract
pub mod Split
use cidrella.Base.{
  ℕ, zero, suc, ◌+◌, ◌-◌, ◌*◌, ◌^◌, Bool, true, false, not, ◌&&◌, ◌||◌, Option, none, some, List,
  [], ◌∷◌, map, ltb, leb, ◌==◌, if◌then◌else◌, ◌>>=◌, ◌>>◌, check,
}
use cidrella.Base.Text.{Text}
use cidrella.Cidr.{Network, parse_network, network_text, cidr_runs}

pub record Block : Type 0 where
  pub start : ℕ
  pub prefix : ℕ

-- The `while` loop of `subtractNetwork`; `rounds` is `child.prefix - currentPrefix`.
unfoldable pub halve : ℕ → ℕ → ℕ → ℕ → ℕ → List Block
halve zero bits child current prefix = []
halve (suc rounds) bits child current prefix =
    let next = prefix + 1 in
    let midpoint = current + 2 ^ (bits - next) in
    let right = leb midpoint child in
    record { start = (if right then current else midpoint); prefix = next }
    ∷ halve rounds bits child (if right then midpoint else current) next

unfoldable pub subtract_parsed : Network → Network → Option (List Block)
subtract_parsed parent child =
    check (child.family == parent.family)
    >> (check (not (ltb child.network_big parent.network_big || ltb parent.last_big child.last_big))
        >> (check (not (leb child.prefix parent.prefix))
            >> some (
                halve (child.prefix - parent.prefix) parent.bits child.network_big
                  parent.network_big parent.prefix)))

unfoldable pub subtract_network : Text → Text → Option (List Text)
subtract_network parent_cidr child_cidr = parse_network parent_cidr >>= λ parent.
    parse_network child_cidr >>= λ child. subtract_parsed parent child >>= λ blocks.
    some (map (λ b. network_text b.start parent.family b.prefix) blocks)

-- The `for` loop of `splitNetwork`, with the children left to make and the index of the next.
unfoldable pub children_from : Network → ℕ → ℕ → ℕ → Option (List Network)
children_from parent new_prefix zero i = some []
children_from parent new_prefix (suc left) i =
    parse_network (
      network_text (parent.network_big + i * 2 ^ (parent.bits - new_prefix)) parent.family
        new_prefix)
    >>= λ child. children_from parent new_prefix left (i + 1) >>= λ rest. some (child ∷ rest)

unfoldable pub split_network : Text → ℕ → ℕ → Option (List Network)
split_network cidr new_prefix max_count = parse_network cidr >>= λ parent.
    check (not (leb new_prefix parent.prefix || ltb parent.bits new_prefix))
    >> (check (not (ltb max_count (2 ^ (new_prefix - parent.prefix))))
        >> children_from parent new_prefix (2 ^ (new_prefix - parent.prefix)) 0)

unfoldable pub divide_runs : Unit {0}
unfolding cidr_runs halve subtract_parsed subtract_network children_from split_network
divide_runs = tt
