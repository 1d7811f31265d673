-- ===== src/Access/RateLimit.antt =====
-- compilableworld_mcp/rate_limit.py: `SlidingWindowRateLimiter` with `db_path is None`. Times, costs
-- and limits are natural numbers.
pub mod Window
mod Tests
use compilableworld_runtime.Base.{
  ℕ, ◌+◌, ◌-◌, String, Bool, true, false, not, ◌&&◌, Option, none, some, List, [], ◌∷◌, ◌++◌,
  Outcome, ok, err, guard, ltb, leb, max, string_eq, if◌then◌else◌,
}
use compilableworld_runtime.Base.Lists.{length, replicate}
use compilableworld_runtime.Base.Text.{stripped}
use compilableworld_runtime.Base.Dict.{Dict, lookup, insert, keep}
use compilableworld_runtime.Base.Exec.{Exec, lift, ◌>>=◌}

-- The three `ValueError`s of `consume`.
pub data RateLimitError : Type 0 where
  empty_key bad_cost bad_limit : RateLimitError

pub record RateLimitDecision : Type 0 where
  pub allowed : Bool
  pub limit : ℕ
  pub remaining : ℕ
  pub retry_after_seconds : ℕ

-- The configuration, which does not change.
pub record Limiter : Type 0 where
  pub limit : ℕ
  pub window_seconds : ℕ

abbrev pub Hits : Type 0
Hits = Dict String (List ℕ)

-- `tick >= current - window_seconds + 1`, over the integers.
abbrev pub in_window : ℕ → ℕ → ℕ → Bool
in_window window current tick = leb (current + 1) (tick + window)

unfoldable pub recent : ℕ → ℕ → List ℕ → List ℕ
recent window current [] = []
recent window current (t ∷ ts) =
    let rest = recent window current ts in if in_window window current t then t ∷ rest else rest

abbrev pub or_empty : Option (List ℕ) → List ℕ
or_empty none = []
or_empty (some ts) = ts

abbrev pub retry_after : ℕ → ℕ → List ℕ → ℕ
retry_after window current [] = window
retry_after window current (t ∷ ts) = max 1 ((t + window) - current)

-- `consume` on the hits of the key that are still in the window, with its own limit.
unfoldable pub decide : ℕ → ℕ → ℕ → ℕ → List ℕ → RateLimitDecision × List ℕ
decide window effective current cost hits =
    if ltb effective (length hits + cost)
    then (
      record {
        allowed = false;
        limit = effective;
        remaining = effective - length hits;
        retry_after_seconds = retry_after window current hits;
      },
      hits,
    )
    else (
      record {
        allowed = true;
        limit = effective;
        remaining = effective - (length hits + cost);
        retry_after_seconds = 0;
      },
      hits ++ replicate cost current,
    )

abbrev pub effective_limit : Limiter → Option ℕ → ℕ
effective_limit c none = c.limit
effective_limit c (some l) = l

abbrev checked : Limiter → Option String → ℕ → ℕ → Outcome RateLimitError String
checked c none cost effective = err empty_key
checked c (some key) cost effective =
    if ltb 0 cost then (if ltb 0 effective then ok key else err bad_limit) else err bad_cost

unfoldable pub consume :
    Limiter → String → ℕ → ℕ → Option ℕ → Exec Hits RateLimitError RateLimitDecision
unfolding recent decide
consume c key current cost limit =
    lift (checked c (stripped key) cost (effective_limit c limit)) >>= λ key s.
    let (decision, hits) =
      decide c.window_seconds (effective_limit c limit) current cost
        (recent c.window_seconds current (or_empty (lookup key s))) in
    (ok decision, insert key hits s)

any_recent : ℕ → ℕ → List ℕ → Bool
any_recent window current [] = false
any_recent window current (t ∷ ts) =
    let rest = any_recent window current ts in if in_window window current t then true else rest

-- The keys none of whose hits is in the window go, and are counted.
pub prune : Limiter → ℕ → Hits → ℕ × Hits
unfolding any_recent
prune c current s =
    let kept = keep (λ _ ts. any_recent c.window_seconds current ts) s in
    (length s - length kept, kept)
