-- ===== src/Access/RateLimit/Window.antt =====
-- rate_limit.py: the bound that the window keeps, and the waiting time that a refusal names.
use compilableworld_runtime.Base.{
  ℕ, ◌+◌, ◌-◌, ◌≤◌, ◌<◌, ◌++◌, ◌≢◌, String, string_eq, true, false, ◌≡◌, refl, List, [], ◌∷◌, ltb,
  max, arith, Bool-cases, inl, inr,
}
use compilableworld_runtime.Base.Lists.{length, replicate, All}
use compilableworld_runtime.Base.Dict.{lookup}
use compilableworld_runtime.Access.RateLimit.{
  RateLimitDecision, Hits, or_empty, recent, decide, in_window, retry_after,
}

recent-length : (window now : ℕ) (ts : List ℕ) → length (recent window now ts) ≤ length ts
unfolding recent
recent-length window now [] = omega arith
recent-length window now (t ∷ ts) =
    let rest = recent-length window now ts in
    elim (Bool-cases (in_window window now t)) [
      | inl inside ↦ rw inside (omega (arith, rest))
      | inr outside ↦ rw outside (omega (arith, rest))
    ]

recent-All : (window now : ℕ) (ts : List ℕ) → All (λ t. now < t + window) (recent window now ts)
unfolding recent
recent-All window now [] = tt
recent-All window now (t ∷ ts) =
    let rest = recent-All window now ts in
    elim (Bool-cases (in_window window now t)) [
      | inl inside ↦ rw inside (let p : now < t + window = ground (arith, inside) in (p, rest))
      | inr outside ↦ rw outside rest
    ]

-- The hits of a key that are in the window at the time `now`.
abbrev pub counted : ℕ → ℕ → String → Hits → List ℕ
counted window now key s = recent window now (or_empty (lookup key s))

-- What a call of `consume` decides and leaves, for its key.
pub record Decided (window limit now cost : ℕ) (key : String) (s t : Hits) (d : RateLimitDecision)
    : Type 0 where
  pub admits :
      d.allowed ≡ true
      → (counted window now key t ≡ counted window now key s ++ replicate cost now)
        × (length (counted window now key t) ≡ length (counted window now key s) + cost)
        × (length (counted window now key t) ≤ limit)
        × (d.remaining + length (counted window now key t) ≡ limit)
  pub refuses :
      d.allowed ≡ false
      → (counted window now key t ≡ counted window now key s)
        × (limit < length (counted window now key s) + cost)
  pub others : (k : String) → key ≢ k → lookup k t ≡ lookup k s

later-allowed :
    (window limit now : ℕ) (hits : List ℕ)
    → 0 < window
    → 0 < limit
    → length hits ≤ limit
    → All (λ t. now < t + window) hits
    → limit < length hits + 1
    → let later = now + retry_after window now hits in length (recent window later hits) + 1 ≤ limit
unfolding recent
later-allowed window limit now [] w l few inside over = omega (arith, l, over)
later-allowed window limit now (t ∷ ts) w l few (p, inside) over =
    let later : ℕ = now + max 1 ((t + window) - now) in
    let due : later ≡ t + window = omega (arith, p) in
    let gone : in_window window later t ≡ false = ground (arith, due) in
    let rest : length (recent window later ts) ≤ length ts = recent-length window later ts in
    rw gone (omega (arith, rest, few))

decide-allowed :
    (window limit now cost : ℕ) (hits : List ℕ)
    → length hits + cost ≤ limit
    → (decide window limit now cost hits).0.allowed ≡ true
unfolding decide
decide-allowed window limit now cost hits h =
    let fits : ltb limit (length hits + cost) ≡ false = ground (arith, h) in rw fits refl

-- Where the window and the limit are positive, after a refusal of a request of cost 1, with no more
-- hits in the window than the limit, the request
-- is allowed once the time that the refusal names has passed, if nothing else was counted meanwhile.
pub retry_suffices :
    (window limit now : ℕ) (all : List ℕ)
    → 0 < window
    → 0 < limit
    → let hits = recent window now all in
      length hits ≤ limit
      → (decide window limit now 1 hits).0.allowed ≡ false
      → let later = now + (decide window limit now 1 hits).0.retry_after_seconds in
        (decide window limit later 1 (recent window later hits)).0.allowed ≡ true
unfolding decide
retry_suffices window limit now all w l few refused =
    let hits : List ℕ = recent window now all in
    elim (Bool-cases (ltb limit (length hits + 1))) [
      | inl over ↦
          let free =
            later-allowed window limit now hits w l few (recent-All window now all)
              (ground (arith, over)) in
          let later : ℕ = now + retry_after window now hits in
          rw over (decide-allowed window limit later 1 (recent window later hits) free)
      | inr within ↦ cc (rw within at refused)
    ]
