-- ===== src/Hub/Scheduling/Picks.antt =====
-- The node that `pickLeastLoaded` recommends.
use crate.Base.{
  &&_elim, Bool, Bool-cases, List, Option-cases, Text, [], all, all-keep_if_of, all-sort_by,
  all_mono, any, any-keep_if, any-sort_by, ap, arith, false, inl, inr, is_empty, is_rising, keep_if,
  keep_if-all, leb, ltb, ltb→lt, not, refl, some, sort_by, sort_by-is_rising, subst, sym, text_eq,
  text_eq_refl, text_eq→eq, true, ℕ, ◌&&◌, ◌*◌, ◌+◌, ◌/◌, ◌==◌, ◌^◌, ◌||◌, ◌∙◌, ◌∷◌, ◌≡◌, ◌≤◌, ◌⊎◌,
}
use crate.Hub.Scheduling.{
  NodeView, Recommendation, node_before, tolerance_of, find_named, pick_sorted, pick_least_loaded,
  current_node, keep_on, place_on, confidence_of,
}

-- The recommendation names this node.
abbrev pub is_target : Recommendation → NodeView → Bool
is_target rec n =
    text_eq rec.target_name n.name
    && (text_eq rec.target_host n.host && rec.target_count == n.container_count)

abbrev pub near : ℕ → NodeView → Bool
near c n = leb c (n.container_count + n.container_count * 10 / 100)

-- A reachable node whose count is within a tenth of that of every reachable node; unless it is the
-- node in the hint no reachable node has a lower count; and the node in the hint if that is near.
pub record IsPick (nodes : List NodeView) (hint : Text) (rec : Recommendation) : Type 0 where
  pub is_node : any (λ n. n.reachable && is_target rec n) nodes ≡ true
  pub is_near : all (λ n. not n.reachable || near rec.target_count n) nodes ≡ true
  pub is_least :
      (rec.target_name ≡ hint)
      ⊎ (all (λ n. not n.reachable || leb rec.target_count n.container_count) nodes ≡ true)
  pub is_stable :
      (c : ℕ)
      → is_empty hint ≡ false
      → any (λ n. n.reachable && (text_eq n.name hint && n.container_count == c)) nodes ≡ true
      → all (λ n. not n.reachable || near c n) nodes ≡ true
      → rec.target_name ≡ hint
  pub is_sure : rec.confidence ≤ 100

abbrev pub is_small : NodeView → Bool
is_small n = ltb n.container_count (2 ^ 28)

-- The same of nodes that are all reachable.
record IsPickOf (nodes : List NodeView) (hint : Text) (rec : Recommendation) : Type 0 where
  is_node : any (is_target rec) nodes ≡ true
  is_near : all (near rec.target_count) nodes ≡ true
  is_least :
      (rec.target_name ≡ hint) ⊎ (all (λ n. leb rec.target_count n.container_count) nodes ≡ true)
  is_stable :
      (c : ℕ)
      → is_empty hint ≡ false
      → any (λ n. text_eq n.name hint && n.container_count == c) nodes ≡ true
      → all (near c) nodes ≡ true
      → rec.target_name ≡ hint
  is_sure : rec.confidence ≤ 100

tolerance_lem :
    (n : NodeView)
    → is_small n ≡ true
    → tolerance_of n.container_count ≡ n.container_count + n.container_count * 10 / 100
unfolding tolerance_of
tolerance_lem n h = omega (arith, ltb→lt n.container_count (2 ^ 28) h)

is_target_self :
    (n : NodeView)
    → (text_eq n.name n.name && (text_eq n.host n.host && n.container_count == n.container_count))
      ≡ true
is_target_self n = ground (arith, text_eq_refl n.name, text_eq_refl n.host)

confidence_lem : (best : NodeView) (others : List NodeView) → confidence_of best others ≤ 100
confidence_lem best [] = omega arith
confidence_lem best (second ∷ others) = ground arith

rising_above :
    (hint : Text) (k c : ℕ) (ns : List NodeView)
    → all (λ n. leb k n.container_count) ns ≡ true
    → any (λ n. text_eq n.name hint && n.container_count == c) ns ≡ true
    → k ≤ c
rising_above hint k c [] a h = cc
rising_above hint k c (n ∷ ns) a h = ground (arith, rising_above hint k c ns)

-- The first node with the name in the hint is there and, in rising order, has the least count of
-- those with that name.
find_named_lem :
    (hint : Text) (ns : List NodeView) (c : ℕ)
    → is_rising (λ n. n.container_count) ns ≡ true
    → any (λ n. text_eq n.name hint && n.container_count == c) ns ≡ true
    → (n : NodeView) × (find_named hint ns ≡ some n) × (n.container_count ≤ c)
unfolding find_named is_rising
find_named_lem hint [] c r h = cc
find_named_lem hint (n ∷ ns) c r h = elim (Bool-cases (text_eq n.name hint)) [
  | inl same ↦ (n, rw same refl, ground (arith, rising_above hint n.container_count c ns))
  | inr differ ↦
      let (m, found, low) = find_named_lem hint ns c (ground arith) (ground arith) in
      (m, rw differ found, low)
]

unwrap : {a b : NodeView} → some a ≡ some b → a ≡ b
unwrap h = cc

find_named_sound :
    (hint : Text) (ns : List NodeView) (n : NodeView)
    → find_named hint ns ≡ some n
    → (n.name ≡ hint)
      × (any
            (λ m.
              text_eq n.name m.name
              && (text_eq n.host m.host && n.container_count == m.container_count))
            ns
          ≡ true)
unfolding find_named
find_named_sound hint [] n h = cc
find_named_sound hint (m ∷ ns) n h = elim (Bool-cases (text_eq m.name hint)) [
  | inl same ↦
      let at : m ≡ n = unwrap (rw same at h) in
      subst
        (λ n.
          (n.name ≡ hint)
          × (any
                (λ m.
                  text_eq n.name m.name
                  && (text_eq n.host m.host && n.container_count == m.container_count))
                (m ∷ ns)
              ≡ true))
        at (text_eq→eq m.name hint same, ground (arith, is_target_self m))
  | inr differ ↦
      let (named, there) = find_named_sound hint ns n (rw differ at h) in
      (named, ground (arith, there))
]

module _ (best : NodeView) (others : List NodeView) (hint : Text)
    (rising : is_rising (λ n. n.container_count) (best ∷ others) ≡ true)
    (small : is_small best ≡ true) where
  head_least : all (λ n. leb best.container_count n.container_count) (best ∷ others) ≡ true
  unfolding is_rising
  head_least = ground arith

  place_on-IsPickOf :
      ((c : ℕ)
        → is_empty hint ≡ false
        → any (λ n. text_eq n.name hint && n.container_count == c) (best ∷ others) ≡ true
        → all (near c) (best ∷ others) ≡ true
        → ⊥)
      → IsPickOf (best ∷ others) hint (place_on best others)
  place_on-IsPickOf none_near = record {
    is_node = ground (arith, is_target_self best);
    is_near =
        all_mono (λ n. leb best.container_count n.container_count) (near best.container_count)
          (best ∷ others) (λ n h. ground arith) head_least;
    is_least = inr head_least;
    is_stable = λ c full there is_near. absurd (none_near c full there is_near);
    is_sure = confidence_lem best others;
  }

  keep_on-IsPickOf :
      (cur : NodeView)
      → find_named hint (best ∷ others) ≡ some cur
      → leb cur.container_count (tolerance_of best.container_count) ≡ true
      → IsPickOf (best ∷ others) hint (keep_on cur best)
  keep_on-IsPickOf cur found within =
      let (named, there) = find_named_sound hint (best ∷ others) cur found in
      let exact = tolerance_lem best small in
      record {
        is_node = there;
        is_near =
            all_mono (λ n. leb best.container_count n.container_count) (near cur.container_count)
              (best ∷ others) (λ n h. ground arith) head_least;
        is_least = inl named;
        is_stable = λ c full there is_near. named;
        is_sure = omega arith;
      }

  pick_sorted-IsPickOf : IsPickOf (best ∷ others) hint (pick_sorted (best ∷ others) hint)
  unfolding pick_sorted
  pick_sorted-IsPickOf = elim (Option-cases (current_node hint (best ∷ others))) [
    | inl nobody ↦ rw nobody (
        place_on-IsPickOf (λ c full there is_near.
          let (m, found, low) = find_named_lem hint (best ∷ others) c rising there in
          let named = rw full at nobody in cc))
    | inr (cur, found) ↦ elim (Bool-cases (is_empty hint)) [
      | inl none_given ↦ let gone = rw none_given at found in cc
      | inr full ↦
          let named : find_named hint (best ∷ others) ≡ some cur = rw full at found in
          elim (Bool-cases (leb cur.container_count (tolerance_of best.container_count))) [
            | inl within ↦ rw found (rw within (keep_on-IsPickOf cur named within))
            | inr beyond ↦ rw found (
                rw beyond (
                  place_on-IsPickOf (λ c _ there is_near.
                    let (m, found', low) = find_named_lem hint (best ∷ others) c rising there in
                    let same : cur ≡ m = unwrap (sym named ∙ found') in
                    let exact = tolerance_lem best small in
                    let bound = ap (λ n. n.container_count) same in
                    let (near_best, _) = &&_elim (near c best) (all (near c) others) is_near in
                    absurd (ground arith))))
          ]
    ]
  ]

node_before-down : (a b : NodeView) → node_before a b ≡ true → a.container_count ≤ b.container_count
unfolding node_before
node_before-down a b h = ground arith

node_before-up : (a b : NodeView) → node_before a b ≡ false → b.container_count ≤ a.container_count
unfolding node_before
node_before-up a b h = ground arith

sorted-IsPickOf :
    (ns : List NodeView) (hint : Text)
    → is_rising (λ n. n.container_count) ns ≡ true
    → all is_small ns ≡ true
    → any (λ _. true) ns ≡ true
    → IsPickOf ns hint (pick_sorted ns hint)
sorted-IsPickOf [] hint rising small some_node = cc
sorted-IsPickOf (best ∷ others) hint rising small some_node =
    pick_sorted-IsPickOf best others hint rising
      (&&_elim (is_small best) (all is_small others) small).0

-- Tests on the sorted reachable nodes are tests on the reachable ones of all.
module _ (nodes : List NodeView) (p : NodeView → Bool) where
  any_reachable :
      any p (sort_by node_before (keep_if (λ n. n.reachable) nodes))
      ≡ any (λ n. n.reachable && p n) nodes
  any_reachable =
      any-sort_by node_before p (keep_if (λ n. n.reachable) nodes)
      ∙ any-keep_if p (λ n. n.reachable) nodes

  all_reachable :
      all p (sort_by node_before (keep_if (λ n. n.reachable) nodes))
      ≡ all (λ n. not n.reachable || p n) nodes
  all_reachable =
      all-sort_by node_before p (keep_if (λ n. n.reachable) nodes)
      ∙ all-keep_if_of p (λ n. n.reachable) nodes

any-and_true :
    (nodes : List NodeView) → any (λ n. n.reachable && true) nodes ≡ any (λ n. n.reachable) nodes
any-and_true [] = refl
any-and_true (n ∷ ns) = ground (arith, any-and_true ns)

-- If some node is reachable and no count is 2^28 or more, the recommendation is such a pick.
pub pick_least_loaded-IsPick :
    (nodes : List NodeView) (hint : Text)
    → any (λ n. n.reachable) nodes ≡ true
    → all is_small nodes ≡ true
    → IsPick nodes hint (pick_least_loaded nodes hint)
unfolding pick_least_loaded
pick_least_loaded-IsPick nodes hint up small =
    let live = keep_if (λ n. n.reachable) nodes in
    let ns = sort_by node_before live in
    let rising =
      sort_by-is_rising (λ n. n.container_count) node_before node_before-down node_before-up live in
    let all_small =
      all-sort_by node_before is_small live ∙ keep_if-all is_small (λ n. n.reachable) nodes small in
    let some_node = any_reachable nodes (λ _. true) ∙ any-and_true nodes ∙ up in
    let good = sorted-IsPickOf ns hint rising all_small some_node in
    let rec = pick_sorted ns hint in
    record {
      is_node = sym (any_reachable nodes (is_target rec)) ∙ good.is_node;
      is_near = sym (all_reachable nodes (near rec.target_count)) ∙ good.is_near;
      is_least = elim good.is_least [
        | inl kept ↦ inl kept
        | inr least ↦
            inr (sym (all_reachable nodes (λ n. leb rec.target_count n.container_count)) ∙ least)
      ];
      is_stable = λ c full there close.
          good.is_stable c full
            (any_reachable nodes (λ n. text_eq n.name hint && n.container_count == c) ∙ there)
            (all_reachable nodes (near c) ∙ close);
      is_sure = good.is_sure;
    }
