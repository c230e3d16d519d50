-- ===== src/Hub/Failover.antt =====
-- Failover orders of the hub: hub/ha_pure.{h,cpp}. Seconds are `long`s; the JSON writer is not
-- modelled.
pub mod Orders
use crate.Base.{
  Bool, List, Option, Result, Text, [], all, any, codes, fail_if, false, if◌then◌else◌, is_alnum,
  is_empty, leb, leb_ℤ, length, none, not, ok, print_int, some, text_eq, ℕ, ℤ, ◌&&◌, ◌++◌, ◌+◌,
  ◌==◌, ◌>>◌, ◌||◌, ◌∷◌,
}
use crate.Net.LeaseLine.{k_jail_name}

pub record HaSpec : Type 0 where
  pub container_name : Text
  pub primary_node : Text
  pub partner_nodes : List Text

pub record NodeView : Type 0 where
  pub name : Text
  pub reachable : Bool
  pub unreachable_seconds : ℤ

pub record MigrationOrder : Type 0 where
  pub container : Text
  pub from_node : Text
  pub to_node : Text
  pub reason : Text

unfoldable pub find_node : List NodeView → Text → Option NodeView
find_node [] name = none
find_node (n ∷ ns) name =
    let rest = find_node ns name in if text_eq n.name name then some n else rest

abbrev pub is_up : Option NodeView → Bool
is_up none = false
is_up (some n) = n.reachable

-- The loop over the partners, up to its `break`.
unfoldable pub first_partner : List NodeView → List Text → Option Text
first_partner nodes [] = none
first_partner nodes (p ∷ ps) =
    let rest = first_partner nodes ps in if is_up (find_node nodes p) then some p else rest

abbrev pub order_reason : HaSpec → NodeView → ℤ → Text
order_reason s primary threshold =
    codes "primary node '"
    ++ (s.primary_node
        ++ (codes "' down for "
            ++ (print_int primary.unreachable_seconds
                ++ (codes "s (>= threshold " ++ (print_int threshold ++ codes "s)")))))

abbrev pub new_order : HaSpec → NodeView → ℤ → Text → MigrationOrder
new_order s primary threshold partner = record {
  container = s.container_name;
  from_node = s.primary_node;
  to_node = partner;
  reason = order_reason s primary threshold;
}

abbrev pub order_to : HaSpec → NodeView → ℤ → Option Text → List MigrationOrder
order_to s primary threshold none = []
order_to s primary threshold (some p) = new_order s primary threshold p ∷ []

-- One turn of the loop over the specs.
unfoldable pub orders_of : List NodeView → ℤ → HaSpec → List MigrationOrder
orders_of nodes threshold s = elim (find_node nodes s.primary_node) [
  | none ↦ []
  | some primary ↦
      if primary.reachable
      then []
      else if not (leb_ℤ threshold primary.unreachable_seconds)
      then []
      else order_to s primary threshold (first_partner nodes s.partner_nodes)
]

unfoldable pub evaluate_failover_orders : List HaSpec → List NodeView → ℤ → List MigrationOrder
evaluate_failover_orders [] nodes threshold = []
evaluate_failover_orders (s ∷ ss) nodes threshold =
    orders_of nodes threshold s ++ evaluate_failover_orders ss nodes threshold

abbrev pub is_valid_name : Text → Bool
is_valid_name s =
    not (is_empty s)
    && (leb (length s) k_jail_name
        && all (λ c. is_alnum c || (c == b'.' || (c == b'_' || c == b'-'))) s)

-- The number is that of the spec.
pub data SpecError : Type 0 where
  bad_container bad_primary no_partners : ℕ → SpecError
  bad_partner duplicate_partner : ℕ → Text → SpecError

unfoldable pub check_partners : ℕ → List Text → List Text → Result SpecError (Unit {0})
check_partners i seen [] = ok tt
check_partners i seen (p ∷ ps) =
    fail_if (not (is_valid_name p)) (bad_partner i p)
    >> fail_if (any (λ q. text_eq q p) seen) (duplicate_partner i p)
    >> check_partners i (p ∷ seen) ps

unfoldable pub validate_spec : ℕ → HaSpec → Result SpecError (Unit {0})
validate_spec i s =
    fail_if (not (is_valid_name s.container_name)) (bad_container i)
    >> fail_if (not (is_valid_name s.primary_node)) (bad_primary i)
    >> fail_if (is_empty s.partner_nodes) (no_partners i)
    >> check_partners i (s.primary_node ∷ []) s.partner_nodes

unfoldable pub validate_from : ℕ → List HaSpec → Result SpecError (Unit {0})
validate_from i [] = ok tt
validate_from i (s ∷ ss) = validate_spec i s >> validate_from (i + 1) ss

unfoldable pub validate_specs : List HaSpec → Result SpecError (Unit {0})
validate_specs specs = validate_from 0 specs
