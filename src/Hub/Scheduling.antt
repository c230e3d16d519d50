-- ===== src/Hub/Scheduling.antt =====
-- The least loaded node for a container: hub/scheduling_pure.{h,cpp}. Counts are `unsigned`s of 32
-- bits; the regular expressions that read an answer back are not modelled.
pub mod Picks
use crate.Base.{
  Bool, List, Option, Text, [], codes, decimal, drop_last, if◌then◌else◌, is_alnum, is_empty,
  keep_if, last_or, leb, ltb, none, not, some, sort_by, text_before, text_eq, ℕ, ◌%◌, ◌&&◌, ◌*◌,
  ◌++◌, ◌+◌, ◌-◌, ◌/◌, ◌==◌, ◌^◌, ◌||◌, ◌∷◌,
}

pub record NodeView : Type 0 where
  pub name : Text
  pub host : Text
  pub reachable : Bool
  pub container_count : ℕ

pub record Recommendation : Type 0 where
  pub target_name : Text
  pub target_host : Text
  pub target_count : ℕ
  pub runner_up_count : ℕ
  pub confidence : ℕ
  pub rationale : Text

abbrev pub k_anti_flap_percent : ℕ
k_anti_flap_percent = 10

-- The comparison of the sort.
unfoldable pub node_before : NodeView → NodeView → Bool
node_before a b =
    if not (a.container_count == b.container_count)
    then ltb a.container_count b.container_count
    else text_before a.name b.name

abbrev pub no_pick : Recommendation
no_pick = record {
  target_name = [];
  target_host = [];
  target_count = 0;
  runner_up_count = 0;
  confidence = 0;
  rationale = codes "no reachable nodes";
}

unfoldable pub tolerance_of : ℕ → ℕ
tolerance_of best = (best + best * k_anti_flap_percent % 2 ^ 32 / 100) % 2 ^ 32

-- `std::find_if` with `n.name == currentNodeHint`.
unfoldable pub find_named : Text → List NodeView → Option NodeView
find_named hint [] = none
find_named hint (n ∷ ns) =
    let rest = find_named hint ns in if text_eq n.name hint then some n else rest

abbrev pub keep_rationale : NodeView → NodeView → Text
keep_rationale cur best =
    codes "keep on '"
    ++ (cur.name
        ++ (codes "' (count "
            ++ (decimal cur.container_count
                ++ (codes " within "
                    ++ (decimal k_anti_flap_percent
                        ++ (codes "% of least-loaded '"
                            ++ (best.name
                                ++ (codes "' count "
                                    ++ (decimal best.container_count ++ codes ")")))))))))

abbrev pub keep_on : NodeView → NodeView → Recommendation
keep_on cur best = record {
  target_name = cur.name;
  target_host = cur.host;
  target_count = cur.container_count;
  runner_up_count = best.container_count;
  confidence = 100;
  rationale = keep_rationale cur best;
}

abbrev pub runner_up : NodeView → List NodeView → ℕ
runner_up best [] = best.container_count
runner_up best (second ∷ _) = second.container_count

abbrev pub confidence_of : NodeView → List NodeView → ℕ
confidence_of best [] = 100
confidence_of best (second ∷ _) =
    let pct = (second.container_count - best.container_count) * 100 / second.container_count in
    if second.container_count == 0
    then 50
    else if leb second.container_count best.container_count
    then 0
    else if ltb 100 pct
    then 100
    else pct

abbrev pub compared_with : List NodeView → Text
compared_with [] = codes ", sole reachable node"
compared_with (second ∷ _) =
    codes " vs runner-up '" ++ (second.name ++ (codes "' count " ++ decimal second.container_count))

abbrev pub place_rationale : NodeView → List NodeView → Text
place_rationale best others =
    codes "place on '"
    ++ (best.name
        ++ (codes "' (count "
            ++ (decimal best.container_count ++ (compared_with others ++ codes ")"))))

abbrev pub place_on : NodeView → List NodeView → Recommendation
place_on best others = record {
  target_name = best.name;
  target_host = best.host;
  target_count = best.container_count;
  runner_up_count = runner_up best others;
  confidence = confidence_of best others;
  rationale = place_rationale best others;
}

abbrev pub current_node : Text → List NodeView → Option NodeView
current_node hint ns = if is_empty hint then none else find_named hint ns

abbrev pub pick_for : NodeView → List NodeView → Option NodeView → Recommendation
pick_for best others none = place_on best others
pick_for best others (some cur) =
    if leb cur.container_count (tolerance_of best.container_count)
    then keep_on cur best
    else place_on best others

-- The choice among the reachable nodes, sorted.
unfoldable pub pick_sorted : List NodeView → Text → Recommendation
unfolding find_named tolerance_of
pick_sorted [] hint = no_pick
pick_sorted (best ∷ others) hint = pick_for best others (current_node hint (best ∷ others))

unfoldable pub pick_least_loaded : List NodeView → Text → Recommendation
unfolding pick_sorted sort_by node_before
pick_least_loaded nodes hint =
    pick_sorted (sort_by node_before (keep_if (λ n. n.reachable) nodes)) hint

abbrev pub is_unreserved : ℕ → Bool
is_unreserved c = is_alnum c || (c == b'.' || (c == b'_' || (c == b'~' || c == b'-')))

-- A digit of `%02X`.
abbrev pub hex_upper : ℕ → ℕ
hex_upper d = if ltb d 10 then 48 + d else 55 + d

unfoldable pub url_encode : Text → Text
url_encode [] = []
url_encode (c ∷ s) =
    let rest = url_encode s in
    if is_unreserved c then c ∷ rest else b'%' ∷ hex_upper (c / 16) ∷ hex_upper (c % 16) ∷ rest

unfoldable pub build_least_loaded_url : Text → Text → Text
unfolding url_encode
build_least_loaded_url hub_url hint =
    let base =
      if not (is_empty hub_url) && last_or 0 hub_url == b'/' then drop_last hub_url else hub_url in
    let out = base ++ codes "/api/v1/scheduling/least-loaded" in
    if is_empty hint then out else out ++ (codes "?current=" ++ url_encode hint)
