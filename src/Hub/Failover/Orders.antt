-- ===== src/Hub/Failover/Orders.antt =====
-- When the hub orders a migration, and where to.
use crate.Base.{
  Bool, Bool-cases, List, Option, Option-cases, Text, [], all, ap, arith, false, if◌then◌else◌, inl,
  inr, leb_ℤ, none, not, refl, some, subst, sym, true, ℤ, ◌++◌, ◌↔◌, ◌∙◌, ◌∷◌, ◌≡◌, ◌⊎◌,
}
use crate.Hub.Failover.{
  HaSpec, NodeView, MigrationOrder, find_node, is_up, first_partner, new_order, order_to, orders_of,
  evaluate_failover_orders,
}

-- A spec's primary is down for long enough, and the first partner that is up takes over.
pub record IsDue (nodes : List NodeView) (threshold : ℤ) (s : HaSpec) (o : MigrationOrder)
    : Type 0 where
  pub primary : NodeView
  pub in_pool : find_node nodes s.primary_node ≡ some primary
  pub down : primary.reachable ≡ false
  pub long_enough : leb_ℤ threshold primary.unreachable_seconds ≡ true
  pub skipped : List Text
  pub others : List Text
  pub partners : s.partner_nodes ≡ skipped ++ o.to_node ∷ others
  pub all_down : all (λ p. not (is_up (find_node nodes p))) skipped ≡ true
  pub target_up : is_up (find_node nodes o.to_node) ≡ true
  pub same : o ≡ new_order s primary threshold o.to_node

abbrev pub IsOrderOf : MigrationOrder → List MigrationOrder → Type 0
IsOrderOf o [] = ⊥
IsOrderOf o (x ∷ xs) = (o ≡ x) ⊎ IsOrderOf o xs

abbrev pub IsDueOf : List NodeView → ℤ → List HaSpec → MigrationOrder → Type 0
IsDueOf nodes threshold [] o = ⊥
IsDueOf nodes threshold (s ∷ ss) o = IsDue nodes threshold s o ⊎ IsDueOf nodes threshold ss o

first_partner_sound :
    (nodes : List NodeView) (ps : List Text) (p : Text)
    → first_partner nodes ps ≡ some p
    → (skipped : List Text) × ((others : List Text) × (ps ≡ skipped ++ p ∷ others)
        × (all (λ q. not (is_up (find_node nodes q))) skipped ≡ true)
        × (is_up (find_node nodes p) ≡ true))
unfolding first_partner
first_partner_sound nodes [] p h = cc
first_partner_sound nodes (q ∷ ps) p h = elim (Bool-cases (is_up (find_node nodes q))) [
  | inl up ↦
      let it : q ≡ p = ground arith in
      ([], (ps, ap (λ t. t ∷ ps) it, refl, subst (λ t. is_up (find_node nodes t) ≡ true) it up))
  | inr down ↦
      let (skipped, (others, eq, before, up)) = first_partner_sound nodes ps p (rw down at h) in
      (q ∷ skipped, (others, ap (◌∷◌ q) eq, ground (arith, down, before), up))
]

first_partner_complete :
    (nodes : List NodeView) (skipped others : List Text) (p : Text)
    → all (λ q. not (is_up (find_node nodes q))) skipped ≡ true
    → is_up (find_node nodes p) ≡ true
    → first_partner nodes (skipped ++ p ∷ others) ≡ some p
unfolding first_partner
first_partner_complete nodes [] others p before up = rw up
first_partner_complete nodes (q ∷ skipped) others p before up =
    ground (arith, before, first_partner_complete nodes skipped others p)

IsOrderOf-append :
    (o : MigrationOrder) (xs ys : List MigrationOrder)
    → IsOrderOf o (xs ++ ys)
    → IsOrderOf o xs ⊎ IsOrderOf o ys
IsOrderOf-append o [] ys h = inr h
IsOrderOf-append o (x ∷ xs) ys (inl e) = inl (inl e)
IsOrderOf-append o (x ∷ xs) ys (inr h) = elim (IsOrderOf-append o xs ys h) [
  | inl left ↦ inl (inr left)
  | inr right ↦ inr right
]

IsOrderOf-left :
    (o : MigrationOrder) (xs ys : List MigrationOrder) → IsOrderOf o xs → IsOrderOf o (xs ++ ys)
IsOrderOf-left o [] ys h = absurd h
IsOrderOf-left o (x ∷ xs) ys (inl e) = inl e
IsOrderOf-left o (x ∷ xs) ys (inr h) = inr (IsOrderOf-left o xs ys h)

IsOrderOf-right :
    (o : MigrationOrder) (xs ys : List MigrationOrder) → IsOrderOf o ys → IsOrderOf o (xs ++ ys)
IsOrderOf-right o [] ys h = h
IsOrderOf-right o (x ∷ xs) ys h = inr (IsOrderOf-right o xs ys h)

order_to_sound :
    (nodes : List NodeView) (threshold : ℤ) (s : HaSpec) (n : NodeView) (o : MigrationOrder)
    → find_node nodes s.primary_node ≡ some n
    → n.reachable ≡ false
    → leb_ℤ threshold n.unreachable_seconds ≡ true
    → (r : Option Text) → first_partner nodes s.partner_nodes ≡ r
    → IsOrderOf o (order_to s n threshold r)
    → IsDue nodes threshold s o
order_to_sound nodes threshold s n o found down long none e m = absurd m
order_to_sound nodes threshold s n o found down long (some p) e (inr m) = absurd m
order_to_sound nodes threshold s n o found down long (some p) e (inl same) =
    let (skipped, (others, eq, before, up)) = first_partner_sound nodes s.partner_nodes p e in
    let target : o.to_node ≡ p = ap (λ (x : MigrationOrder). x.to_node) same in
    record {
      primary = n;
      in_pool = found;
      down = down;
      long_enough = long;
      skipped = skipped;
      others = others;
      partners = eq ∙ ap (λ t. skipped ++ t ∷ others) (sym target);
      all_down = before;
      target_up = subst (λ t. is_up (find_node nodes t) ≡ true) (sym target) up;
      same = same ∙ ap (new_order s n threshold) (sym target);
    }

orders_of-absent :
    (nodes : List NodeView) (threshold : ℤ) (s : HaSpec)
    → find_node nodes s.primary_node ≡ none
    → orders_of nodes threshold s ≡ []
unfolding orders_of
orders_of-absent nodes threshold s e = rw (e, orders_of) refl

abbrev orders_for : List NodeView → ℤ → HaSpec → NodeView → List MigrationOrder
orders_for nodes threshold s n =
    if n.reachable
    then []
    else if not (leb_ℤ threshold n.unreachable_seconds)
    then []
    else order_to s n threshold (first_partner nodes s.partner_nodes)

orders_of-present :
    (nodes : List NodeView) (threshold : ℤ) (s : HaSpec) (n : NodeView)
    → find_node nodes s.primary_node ≡ some n
    → orders_of nodes threshold s ≡ orders_for nodes threshold s n
unfolding orders_of
orders_of-present nodes threshold s n e = rw (e, orders_of) refl

orders_for_sound :
    (nodes : List NodeView) (threshold : ℤ) (s : HaSpec) (n : NodeView) (o : MigrationOrder)
    → find_node nodes s.primary_node ≡ some n
    → (up late : Bool) → n.reachable ≡ up
    → leb_ℤ threshold n.unreachable_seconds ≡ late
    → IsOrderOf o (
        if up
        then []
        else if not late
        then []
        else order_to s n threshold (first_partner nodes s.partner_nodes))
    → IsDue nodes threshold s o
orders_for_sound nodes threshold s n o e true late up l m = absurd m
orders_for_sound nodes threshold s n o e false false up l m = absurd m
orders_for_sound nodes threshold s n o e false true up l m =
    order_to_sound nodes threshold s n o e up l _ refl m

orders_of_sound :
    (nodes : List NodeView) (threshold : ℤ) (s : HaSpec) (o : MigrationOrder)
    → IsOrderOf o (orders_of nodes threshold s)
    → IsDue nodes threshold s o
orders_of_sound nodes threshold s o m = elim (Option-cases (find_node nodes s.primary_node)) [
  | inl e ↦ absurd (subst (IsOrderOf o) (orders_of-absent nodes threshold s e) m)
  | inr (n, e) ↦
      orders_for_sound nodes threshold s n o e _ _ refl refl
        (subst (IsOrderOf o) (orders_of-present nodes threshold s n e) m)
]

orders_of_complete :
    (nodes : List NodeView) (threshold : ℤ) (s : HaSpec) (o : MigrationOrder)
    → IsDue nodes threshold s o
    → IsOrderOf o (orders_of nodes threshold s)
orders_of_complete nodes threshold s o d =
    let chosen : first_partner nodes s.partner_nodes ≡ some o.to_node =
      ap (first_partner nodes) d.partners
      ∙ first_partner_complete nodes d.skipped d.others o.to_node d.all_down d.target_up in
    let down : d.primary.reachable ≡ false = d.down in
    let long : leb_ℤ threshold d.primary.unreachable_seconds ≡ true = d.long_enough in
    let one : orders_for nodes threshold s d.primary
        ≡ new_order s d.primary threshold o.to_node ∷ [] =
      rw (down, long, chosen) refl in
    subst (IsOrderOf o) (sym (orders_of-present nodes threshold s d.primary d.in_pool ∙ one))
      (inl d.same)

orders_sound :
    (nodes : List NodeView) (threshold : ℤ) (specs : List HaSpec) (o : MigrationOrder)
    → IsOrderOf o (evaluate_failover_orders specs nodes threshold)
    → IsDueOf nodes threshold specs o
unfolding evaluate_failover_orders
orders_sound nodes threshold [] o m = m
orders_sound nodes threshold (s ∷ ss) o m =
    elim (IsOrderOf-append o (orders_of nodes threshold s)
      (evaluate_failover_orders ss nodes threshold) m) [
        | inl here ↦ inl (orders_of_sound nodes threshold s o here)
        | inr later ↦ inr (orders_sound nodes threshold ss o later)
      ]

orders_complete :
    (nodes : List NodeView) (threshold : ℤ) (specs : List HaSpec) (o : MigrationOrder)
    → IsDueOf nodes threshold specs o
    → IsOrderOf o (evaluate_failover_orders specs nodes threshold)
unfolding evaluate_failover_orders
orders_complete nodes threshold [] o d = d
orders_complete nodes threshold (s ∷ ss) o (inl d) =
    IsOrderOf-left o (orders_of nodes threshold s) _ (orders_of_complete nodes threshold s o d)
orders_complete nodes threshold (s ∷ ss) o (inr d) =
    IsOrderOf-right o (orders_of nodes threshold s) _ (orders_complete nodes threshold ss o d)

-- The hub orders a migration exactly for a spec whose primary node is in the pool, is unreachable, and
-- has been for at least the threshold, and it orders it to the first partner that is reachable.
pub failover_orders_iff :
    (nodes : List NodeView) (threshold : ℤ) (specs : List HaSpec) (o : MigrationOrder)
    → IsOrderOf o (evaluate_failover_orders specs nodes threshold) ↔ IsDueOf nodes threshold specs o
failover_orders_iff nodes threshold specs o =
    (orders_sound nodes threshold specs o, orders_complete nodes threshold specs o)
