-- ===== src/Tests/Stack.antt =====
-- The theorems on stacks at a stack of three containers.
use crate.Base.{
  Bool, List, Text, [], arith, codes, err, false, has, if◌then◌else◌, not, ok, refl, text_eq, true,
  ℕ, ◌∷◌, ◌≡◌, ◌≢◌,
}
use crate.Stack.Topo.{StackEntry, TopoError, circular, topo_sort}
use crate.Stack.Topo.Finished.{IsStartOrder}
use crate.Stack.Topo.Order.{
  Explains, distinct_names, topo_sort_terminates, topo_sort-IsStartOrder, topo_sort-Explains,
  topo_sort_starts,
}
use crate.Stack.Inject.{hosts_command}
use crate.Stack.Inject.Hosts.{IsInertScript, hosts_command-IsInertScript}
use crate.Stack.Policy.{free_policy_slot}
use crate.Stack.Policy.Slots.{FirstFree, free_policy_slot-FirstFree}

abbrev web : StackEntry
web = record { name = codes "web"; depends = codes "db" ∷ codes "cache" ∷ [] }

abbrev cache : StackEntry
cache = record { name = codes "cache"; depends = codes "db" ∷ [] }

abbrev db : StackEntry
db = record { name = codes "db"; depends = [] }

abbrev three : List StackEntry
three = web ∷ cache ∷ db ∷ []

abbrev tied : List StackEntry
tied = web ∷ (record { name = codes "db"; depends = codes "cache" ∷ [] }) ∷ cache ∷ []

abbrev rank_of : Text → ℕ
rank_of t = if text_eq t (codes "db") then 0 else if text_eq t (codes "cache") then 1 else 2

three_sorted : topo_sort three ≡ ok (db ∷ cache ∷ web ∷ [])
unfolding topo_sort
three_sorted = refl

tied_fails : topo_sort tied ≡ err circular
unfolding topo_sort
tied_fails = refl

topo_sort_terminates_example : topo_sort three ≢ err TopoError.out_of_fuel
topo_sort_terminates_example = topo_sort_terminates three

topo_sort-IsStartOrder_example : IsStartOrder three (db ∷ cache ∷ web ∷ [])
topo_sort-IsStartOrder_example = topo_sort-IsStartOrder three (db ∷ cache ∷ web ∷ []) three_sorted

topo_sort-Explains_example : Explains tied circular
topo_sort-Explains_example = topo_sort-Explains tied circular tied_fails

distinct_three : distinct_names three ≡ true
unfolding distinct_names
distinct_three = refl

topo_sort_starts_example :
    (out : List StackEntry) × (topo_sort three ≡ ok out) × IsStartOrder three out
topo_sort_starts_example = topo_sort_starts three rank_of distinct_three refl refl

-- A stand-in for `inet_pton` that takes whatever has no colon.
abbrev no_colon : Text → Bool
no_colon t = not (has b':' t)

abbrev never : Text → Bool
never t = false

abbrev hosts : List (Text × Text)
hosts = (codes "db", codes "10.0.0.3/24") ∷ (codes "web", codes "10.0.0.4") ∷ []

abbrev hosts_script : Text
hosts_script =
    codes "printf '\\n# crate stack containers\\n10.0.0.3/24 db\\n10.0.0.4 web\\n' >> /etc/hosts"

hosts_scripted : hosts_command no_colon never hosts ≡ ok hosts_script
unfolding hosts_command
hosts_scripted = refl

hosts_command-IsInertScript_example : IsInertScript hosts hosts_script
hosts_command-IsInertScript_example =
    hosts_command-IsInertScript no_colon never (codes "db", codes "10.0.0.3/24")
      ((codes "web", codes "10.0.0.4") ∷ []) hosts_script hosts_scripted

free_policy_slot-FirstFree_example :
    FirstFree
      (30150 ∷ 30000 ∷ [])
      39999
      100
      30000
      (free_policy_slot (30150 ∷ 30000 ∷ []) 30000 39999 100)
free_policy_slot-FirstFree_example =
    free_policy_slot-FirstFree (30150 ∷ 30000 ∷ []) 30000 39999 100 (omega arith) (omega arith)
      (omega arith)
