-- ===== src/Router/Cooldown/Shortest.antt =====
-- Which candidate `getShortestCooldownCandidate` (pkg/infrastructure/llm/router_ratelimit.go) gives.
use mathlib.Core.List.{Memᴰ}
use noctifab.Prelude.{
  ℕ, ◌-◌, ◌≤◌, ◌≡◌, refl, Bool, ◌||◌, ◌⊎◌, inl, inr, List, [], ◌∷◌, some, leb, ltb, ◌==◌, arith,
  All, Bool-cases,
}
use noctifab.Prelude.Maps.{Map}
use noctifab.Router.Latency.{RouterCandidate}
use noctifab.Router.Cooldown.{time_or_zero, shortest_from, get_shortest_cooldown_candidate}

module _ (now : ℕ) (cooldowns : Map ℕ) where
  -- The time that a candidate has to wait.
  abbrev pub wait : RouterCandidate → ℕ
  wait c = time_or_zero (cooldowns c.name) - now

  abbrev free : RouterCandidate → Bool
  free c = time_or_zero (cooldowns c.name) == 0 || leb (time_or_zero (cooldowns c.name)) now

  All-at_least : (cs : List RouterCandidate) → All (λ d. 0 ≤ wait d) cs
  All-at_least [] = tt
  All-at_least (c ∷ cs) = (omega arith, All-at_least cs)

  -- The loop gives the best so far or a better candidate behind it.
  record Chosen (cs : List RouterCandidate) (b : RouterCandidate) (r : ℕ) : Type 0 where
    c : RouterCandidate
    rem : ℕ
    gives : shortest_from now cooldowns cs (some (b, r)) ≡ some (c, rem)
    listed : (Memᴰ c cs × (rem ≡ wait c)) ⊎ ((c ≡ b) × (rem ≡ r))
    below : rem ≤ r
    least : All (λ d. rem ≤ wait d) cs

  tail_listed :
      (x : RouterCandidate) (cs : List RouterCandidate) (c b : RouterCandidate) (rem r : ℕ)
      → (Memᴰ c cs × (rem ≡ wait c)) ⊎ ((c ≡ b) × (rem ≡ r))
      → (Memᴰ c (x ∷ cs) × (rem ≡ wait c)) ⊎ ((c ≡ b) × (rem ≡ r))
  tail_listed x cs c b rem r (inl (m, e)) = inl (Memᴰ.tail m, e)
  tail_listed x cs c b rem r (inr same) = inr same

  head_listed :
      (x : RouterCandidate) (cs : List RouterCandidate) (c b : RouterCandidate) (rem r : ℕ)
      → (Memᴰ c cs × (rem ≡ wait c)) ⊎ ((c ≡ x) × (rem ≡ wait x))
      → (Memᴰ c (x ∷ cs) × (rem ≡ wait c)) ⊎ ((c ≡ b) × (rem ≡ r))
  head_listed x cs c b rem r (inl (m, e)) = inl (Memᴰ.tail m, e)
  head_listed x cs c b rem r (inr (same, e)) = inl (Memᴰ.head same, rw same e)

  choose : (cs : List RouterCandidate) (b : RouterCandidate) (r : ℕ) → Chosen cs b r
  unfolding shortest_from
  choose [] b r = record {
    c = b;
    rem = r;
    gives = refl;
    listed = inr (refl, refl);
    below = omega arith;
    least = tt;
  }
  choose (x ∷ cs) b r = elim (Bool-cases (free x)) [
    | inl now_free ↦ record {
      c = x;
      rem = 0;
      gives = rw now_free;
      listed = inl (Memᴰ.head refl, ground arith);
      below = omega arith;
      least = (omega arith, All-at_least cs);
    }
    | inr waits ↦ elim (Bool-cases (ltb (wait x) r)) [
      | inl shorter ↦
          let h = choose cs x (wait x) in
          record {
            c = h.c;
            rem = h.rem;
            gives = rw (waits, shorter) h.gives;
            listed = head_listed x cs h.c b h.rem r h.listed;
            below = ground (arith, h.below);
            least = (h.below, h.least);
          }
      | inr longer ↦
          let h = choose cs b r in
          record {
            c = h.c;
            rem = h.rem;
            gives = rw (waits, longer) h.gives;
            listed = tail_listed x cs h.c b h.rem r h.listed;
            below = h.below;
            least = (ground (arith, h.below), h.least);
          }
    ]
  ]

-- Of one or more candidates, the chosen one is listed, the wait that is returned is the time until its cooldown
-- ends (0 if that has passed), and no candidate waits for a shorter time.
pub get_shortest_cooldown_candidate-least :
    (now : ℕ) (cooldowns : Map ℕ) (first : RouterCandidate) (others : List RouterCandidate)
    → (c : RouterCandidate) × (rem : ℕ) × (get_shortest_cooldown_candidate now cooldowns
          (first ∷ others)
        ≡ some (c, rem))
      × Memᴰ c (first ∷ others)
      × (rem ≡ time_or_zero (cooldowns c.name) - now)
      × All (λ d. rem ≤ time_or_zero (cooldowns d.name) - now) (first ∷ others)
unfolding get_shortest_cooldown_candidate shortest_from
get_shortest_cooldown_candidate-least now cooldowns first others =
    elim (Bool-cases (free now cooldowns first)) [
      | inl now_free ↦ (
        first,
        0,
        rw now_free,
        Memᴰ.head refl,
        ground arith,
        (omega arith, All-at_least now cooldowns others),
      )
      | inr waits ↦
          let h = choose now cooldowns others first (wait now cooldowns first) in
          elim (head_listed now cooldowns first others h.c first h.rem (wait now cooldowns first)
            h.listed) [
              | inl (m, e) ↦ (h.c, h.rem, rw waits h.gives, m, e, (h.below, h.least))
              | inr (same, e) ↦
                  (h.c, h.rem, rw waits h.gives, Memᴰ.head same, rw same e, (h.below, h.least))
            ]
    ]
