-- ===== src/Tests/Hub.antt =====
-- The theorems on the hub at concrete nodes.
use crate.Base.{List, [], codes, false, insert_sorted, pos, refl, true, ◌↔◌, ◌∷◌, ◌≡◌}
use crate.Hub.Failover.{HaSpec, NodeView, MigrationOrder, evaluate_failover_orders, new_order}
use crate.Hub.Scheduling
use crate.Hub.Scheduling.{pick_least_loaded}
use crate.Hub.Scheduling.Picks.{IsPick, pick_least_loaded-IsPick}
use crate.Hub.Failover.Orders.{IsOrderOf, IsDueOf, failover_orders_iff}

abbrev alpha : NodeView
alpha = record { name = codes "alpha"; reachable = false; unreachable_seconds = pos 90 }

abbrev beta : NodeView
beta = record { name = codes "beta"; reachable = true; unreachable_seconds = pos 0 }

abbrev web_spec : HaSpec
web_spec = record {
  container_name = codes "web";
  primary_node = codes "alpha";
  partner_nodes = codes "gamma" ∷ codes "beta" ∷ [];
}

abbrev web_order : MigrationOrder
web_order = new_order web_spec alpha (pos 60) (codes "beta")

failover_orders_iff_example :
    IsOrderOf web_order (evaluate_failover_orders (web_spec ∷ []) (alpha ∷ beta ∷ []) (pos 60))
    ↔ IsDueOf (alpha ∷ beta ∷ []) (pos 60) (web_spec ∷ []) web_order
failover_orders_iff_example =
    failover_orders_iff (alpha ∷ beta ∷ []) (pos 60) (web_spec ∷ []) web_order

abbrev fleet : List Scheduling.NodeView
fleet =
    (record { name = codes "a"; host = codes "a:1"; reachable = true; container_count = 11 })
    ∷ (record { name = codes "b"; host = codes "b:1"; reachable = true; container_count = 10 })
    ∷ (record { name = codes "c"; host = codes "c:1"; reachable = false; container_count = 0 })
    ∷ []

pick_least_loaded-IsPick_example : IsPick fleet (codes "a") (pick_least_loaded fleet (codes "a"))
pick_least_loaded-IsPick_example = pick_least_loaded-IsPick fleet (codes "a") refl refl

stays_on_a : (pick_least_loaded fleet (codes "a")).target_name ≡ codes "a"
unfolding pick_least_loaded insert_sorted
stays_on_a = refl
