-- ===== src/Router/Cooldown.antt =====
-- Candidates that hit a rate limit are on cooldown: pkg/infrastructure/llm/router_ratelimit.go. The delay
-- that the gateway asks for, which a parser of its error gives, is an argument, as is the time of a call.
-- Times are numbers of nanoseconds, with 0 for the zero time.
pub mod Shortest
use noctifab.Prelude.{
  ℕ, ◌+◌, ◌-◌, ◌*◌, Bool, ◌||◌, List, [], ◌∷◌, Option, none, some, leb, ltb, ◌==◌, if◌then◌else◌,
}
use noctifab.Prelude.Maps.{Map, insert}
use noctifab.Router.Latency.{RouterCandidate, second}

abbrev pub cooldown_length : Option ℕ → ℕ
cooldown_length none = 60 * second
cooldown_length (some delay) = if ltb 0 delay then delay else 60 * second

unfoldable pub handle_rate_limit_rotation : ℕ → Option ℕ → RouterCandidate → Map ℕ → Map ℕ
handle_rate_limit_rotation now retry_after c cooldowns =
    insert c.name (some (now + cooldown_length retry_after)) cooldowns

abbrev pub time_or_zero : Option ℕ → ℕ
time_or_zero none = 0
time_or_zero (some t) = t

-- A missing candidate is on no cooldown, as it would be with the zero time.
unfoldable pub is_candidate_in_cooldown : ℕ → Map ℕ → RouterCandidate → Bool
is_candidate_in_cooldown now cooldowns c = ltb now (time_or_zero (cooldowns c.name))

-- The candidate with the shorter time to wait; the first one on a tie.
abbrev pub better :
    Option (RouterCandidate × ℕ) → RouterCandidate → ℕ → Option (RouterCandidate × ℕ)
better none c rem = some (c, rem)
better (some (best, shortest)) c rem =
    if ltb rem shortest then some (c, rem) else some (best, shortest)

-- The loop, with the best candidate so far; no candidate at all is `none`, and a wait of -1 in Go.
unfoldable pub shortest_from :
    ℕ → Map ℕ → List RouterCandidate → Option (RouterCandidate × ℕ) → Option (RouterCandidate × ℕ)
shortest_from now cooldowns [] best = best
shortest_from now cooldowns (c ∷ cs) best =
    let until = time_or_zero (cooldowns c.name) in
    let rest = shortest_from now cooldowns cs (better best c (until - now)) in
    if until == 0 || leb until now then some (c, 0) else rest

unfoldable pub get_shortest_cooldown_candidate :
    ℕ → Map ℕ → List RouterCandidate → Option (RouterCandidate × ℕ)
get_shortest_cooldown_candidate now cooldowns candidates =
    shortest_from now cooldowns candidates none
