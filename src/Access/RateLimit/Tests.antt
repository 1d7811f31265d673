-- ===== src/Access/RateLimit/Tests.antt =====
-- The limiter at concrete inputs.
use compilableworld_runtime.Base.{true, ◌≡◌, refl, [], ◌∷◌, arith}
use compilableworld_runtime.Access.RateLimit.{Limiter, Hits, decide, recent}
use compilableworld_runtime.Access.RateLimit.Window.{retry_suffices}

abbrev per_minute : Limiter
per_minute = record { limit = 3; window_seconds = 60 }

abbrev two_hits : Hits
two_hits = ("a", 30 ∷ 90 ∷ []) ∷ []

-- Two hits of the last minute, at a limit of 2: the first leaves the window at 150.
retry_suffices_example :
    (decide 60 2 150 1 (recent 60 150 (recent 60 100 (30 ∷ 90 ∷ 95 ∷ [])))).0.allowed ≡ true
unfolding decide recent
retry_suffices_example =
    retry_suffices 60 2 100 (30 ∷ 90 ∷ 95 ∷ []) (omega arith) (omega arith) (omega arith) refl
