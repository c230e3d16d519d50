-- ===== src/Daemon/RateLimit.antt =====
-- The limiter of requests per second: daemon/rate_limit_pure.{h,cpp}. Counters and seconds are not
-- negative; the limit may be any int. The locked map of buckets in daemon/rate_limit.cpp is not
-- modelled: each of its keys has a bucket of its own.
pub mod Fair
use crate.Base.{
  Bool, List, [], false, if◌then◌else◌, ltb, negsuc, not, pos, suc, true, zero, ℕ, ℤ, ◌+◌, ◌==◌,
  ◌∷◌,
}

pub record Bucket : Type 0 where
  pub counter : ℕ
  pub second : ℕ

pub record Decision : Type 0 where
  pub new_state : Bucket
  pub allowed : Bool

abbrev pub fresh_bucket : Bucket
fresh_bucket = record { counter = 0; second = 0 }

-- The check behind a limit above 0.
unfoldable pub check_limited : Bucket → ℕ → ℕ → Decision
check_limited bucket now max_per_second =
    if not (bucket.second == now)
    then record { new_state = record { counter = 1; second = now }; allowed = true }
    else if ltb bucket.counter max_per_second
    then record {
      new_state = record { counter = bucket.counter + 1; second = now };
      allowed = true;
    }
    else record { new_state = bucket; allowed = false }

unfoldable pub check : Bucket → ℕ → ℤ → Decision
check bucket now (negsuc n) = record {
  new_state = record { counter = 0; second = now };
  allowed = true;
}
check bucket now (pos zero) = record {
  new_state = record { counter = 0; second = now };
  allowed = true;
}
check bucket now (pos (suc n)) = check_limited bucket now (suc n)

-- The answers to the requests of one key, given by the seconds at which they come.
unfoldable pub answers : ℤ → Bucket → List ℕ → List (ℕ × Bool)
answers limit b [] = []
answers limit b (now ∷ later) =
    let d = check b now limit in (now, d.allowed) ∷ answers limit d.new_state later
