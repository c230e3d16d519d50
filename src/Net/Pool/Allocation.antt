-- ===== src/Net/Pool/Allocation.antt =====
-- What `allocateNext` hands out.
use crate.Base.{
  &&_elim, ==_iff, Between, Between-cons, Bool-cases, List, all_below, all_below_sound, ap, arith,
  false, inl, inr, leb, leb→le, refl, subst, suc, true, zero, ℕ, ◌%◌, ◌&&◌, ◌*◌, ◌+◌, ◌-◌, ◌/◌, ◌<◌,
  ◌==◌, ◌^◌, ◌≡◌, ◌≤◌, ◌⊎◌,
}
use crate.Net.Pool.{Network, block, gateway_for, broadcast_for, is_taken, scan, allocate_next}

-- A network that `parseCidr` accepts.
pub record IsValid (n : Network) : Type 0 where
  pub prefix_low : 1 ≤ n.prefix_len
  pub prefix_high : n.prefix_len ≤ 30
  pub aligned : n.base / block n.prefix_len * block n.prefix_len ≡ n.base
  pub in_range : n.base + block n.prefix_len ≤ 2 ^ 32

-- Either every candidate is taken and the result is 0, or it is the first candidate that is free.
abbrev pub FirstFree : List ℕ → ℕ → ℕ → ℕ → Type 0
FirstFree taken first last r =
    ((r ≡ 0) × Between (λ b. is_taken taken b ≡ true) first last)
    ⊎ ((first ≤ r)
        × (r < last)
        × (is_taken taken r ≡ false)
        × Between (λ b. is_taken taken b ≡ true) first r)

module _ (gw : ℕ) (taken : List ℕ) where
  abbrev Busy : ℕ → Type 0
  Busy b = is_taken taken b ≡ true

  skip :
      (a last r : ℕ)
      → is_taken taken a ≡ true
      → FirstFree taken (a + 1) last r
      → FirstFree taken a last r
  skip a last r busy (inl (z, all_busy)) = inl (z, Between-cons Busy a last busy all_busy)
  skip a last r busy (inr (lo, hi, free, before)) =
      inr (omega arith, hi, free, Between-cons Busy a r busy before)

  scan-FirstFree : (rounds a : ℕ) → gw < a → FirstFree taken a (a + rounds) (scan gw taken rounds a)
  unfolding scan
  scan-FirstFree zero a h = inl (refl, λ b lo hi. absurd (omega arith))
  scan-FirstFree (suc rounds) a h =
      let other : (a == gw) ≡ false = ground arith in
      let shift : a + 1 + rounds ≡ a + suc rounds = omega arith in
      let rest = scan-FirstFree rounds (a + 1) (omega arith) in
      elim (Bool-cases (is_taken taken a)) [
        | inl busy ↦
            rw (other, busy)
              (skip a (a + suc rounds) _ busy
                (subst (λ n. FirstFree taken (a + 1) n (scan gw taken rounds (a + 1))) shift rest))
        | inr free ↦
            rw (other, free) (inr (omega arith, omega arith, free, λ b lo hi. absurd (omega arith)))
      ]

block_table : all_below 31 (λ p. leb 4 (block p) && block p * 2 ^ p == 2 ^ 32) ≡ true
unfolding all_below
block_table = refl

pub block_facts : (p : ℕ) → p ≤ 30 → (4 ≤ block p) × (block p * 2 ^ p ≡ 2 ^ 32)
block_facts p h =
    let (big, whole) = &&_elim _ _ (all_below_sound 31 _ p (omega arith) block_table) in
    (leb→le 4 (block p) big, (==_iff _ _).0 whole)

module _ (n : Network) (v : IsValid n) where
  pub gateway_lem : gateway_for n ≡ n.base + 1
  unfolding gateway_for
  gateway_lem =
      let facts = block_facts n.prefix_len v.prefix_high in omega (arith, facts.0, v.in_range)

  pub broadcast_lem : broadcast_for n ≡ n.base + (block n.prefix_len - 1)
  unfolding broadcast_for
  broadcast_lem =
      let facts = block_facts n.prefix_len v.prefix_high in
      let short : (n.prefix_len == 32) ≡ false = ground (arith, v.prefix_high) in
      let whole : block n.prefix_len - 1 + 1 ≡ block n.prefix_len = omega (arith, facts.0) in
      rw short (rw whole (ap (λ b. b + (block n.prefix_len - 1)) v.aligned))

  -- In a pool that was parsed, with `free` the addresses between the gateway and the broadcast
  -- address: the result is the first that is not taken, and 0 exactly when all are taken.
  pub allocate_next-FirstFree :
      (taken : List ℕ)
      → FirstFree taken (n.base + 2) (n.base + block n.prefix_len - 1) (allocate_next n taken)
  unfolding allocate_next
  allocate_next-FirstFree taken =
      let facts = block_facts n.prefix_len v.prefix_high in
      let start : (n.base + 2) % 2 ^ 32 ≡ n.base + 2 = omega (arith, facts.0, v.in_range) in
      let last : n.base + 2 + (n.base + (block n.prefix_len - 1) - (n.base + 2))
          ≡ n.base + block n.prefix_len - 1 =
        omega (arith, facts.0) in
      rw (start, gateway_lem, broadcast_lem)
        (subst
          (λ m. FirstFree taken (n.base + 2) m (
            scan (n.base + 1) taken (n.base + (block n.prefix_len - 1) - (n.base + 2))
              (n.base + 2)))
          last (scan-FirstFree (n.base + 1) taken _ (n.base + 2) (omega arith)))
