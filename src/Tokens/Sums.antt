-- ===== src/Tokens/Sums.antt =====
-- The accounts of pkg/services/token_accounting.go against the sums over a log of the recorded usages.
use Prim.Native.Nat.{◌^◌}
use noctifab.Prelude.{
  ℕ, ◌+◌, ◌%◌, ◌≡◌, refl, Bool, true, false, List, [], ◌∷◌, if◌then◌else◌, inl, inr, Bool-cases,
  arith, ◌∙◌,
}
use noctifab.Prelude.Text.{Text, is_empty, text_eq, text_eq_iff}
use noctifab.Prelude.Maps.{Map}
use noctifab.Tokens.{
  TokenUsage, StoryTokenBreakdown, TokenAccountingService, new_token_accounting_service, add64,
  usage_or_zero, add_usage, credit, record_llm_usage, get_story_breakdown, get_total_breakdown,
}

-- One call of `RecordLLMUsage`.
pub record Usage : Type 0 where
  pub story_id : Text
  pub task_id : Text
  pub agent_id : Text
  pub usage : TokenUsage

-- The service after the calls of a log, the latest one first.
unfoldable pub replay : List Usage → TokenAccountingService
unfolding new_token_accounting_service record_llm_usage
replay [] = new_token_accounting_service
replay (e ∷ log) = record_llm_usage e.story_id e.task_id e.agent_id e.usage (replay log)

-- The sum of a count over the entries that pass a test, without bound.
unfoldable pub sum : (Usage → Bool) → (TokenUsage → ℕ) → List Usage → ℕ
sum p count [] = 0
sum p count (e ∷ log) = if p e then sum p count log + count e.usage else sum p count log

abbrev pub sum64 : (Usage → Bool) → (TokenUsage → ℕ) → List Usage → ℕ
sum64 p count log = sum p count log % 2 ^ 64

add64-mod : (a b : ℕ) → add64 (a % 2 ^ 64) b ≡ (a + b) % 2 ^ 64
add64-mod a b = omega arith

-- The account that the entries add up to.
abbrev pub account : (Usage → Bool) → List Usage → TokenUsage
account p log = record {
  input_tokens = sum64 p (λ u. u.input_tokens) log;
  output_tokens = sum64 p (λ u. u.output_tokens) log;
  reasoning_tokens = 0;
  cached_tokens = 0;
  total_tokens = sum64 p (λ u. u.total_tokens) log;
}

abbrev pub story_account : Text → List Usage → StoryTokenBreakdown
story_account k log = record {
  story_id = k;
  input_tokens = sum64 (λ e. text_eq e.story_id k) (λ u. u.input_tokens) log;
  output_tokens = sum64 (λ e. text_eq e.story_id k) (λ u. u.output_tokens) log;
  total_tokens = sum64 (λ e. text_eq e.story_id k) (λ u. u.total_tokens) log;
}

credit-at :
    (u : TokenUsage) (id k : Text) (accounts : Map TokenUsage)
    → is_empty k ≡ false
    → usage_or_zero (credit u id accounts k) ≡ (
        if text_eq id k
        then add_usage u (usage_or_zero (accounts k))
        else usage_or_zero (accounts k))
credit-at u id k accounts named = elim (Bool-cases (text_eq id k)) [
  | inl same ↦
      let here : id ≡ k = (text_eq_iff id k).0 same in
      let named_id : is_empty id ≡ false = rw here named in rw (same, named_id, same, here)
  | inr other ↦ elim (Bool-cases (is_empty id)) [
    | inl blank ↦ rw (other, blank)
    | inr named_id ↦ rw (other, named_id, other)
  ]
]

add_usage-account :
    (p : Usage → Bool) (e : Usage) (log : List Usage)
    → (if p e then add_usage e.usage (account p log) else account p log) ≡ account p (e ∷ log)
unfolding sum
add_usage-account p e log = elim (Bool-cases (p e)) [
  | inl counts ↦
      let sums = λ (count : TokenUsage → ℕ). add64-mod (sum p count log) (count e.usage) in
      rw (
        counts,
        sums (λ u. u.input_tokens),
        sums (λ u. u.output_tokens),
        sums (λ u. u.total_tokens),
      )
  | inr other ↦ rw other
]

task_tokens-account :
    (k : Text) (log : List Usage)
    → is_empty k ≡ false
    → usage_or_zero ((replay log).task_tokens k) ≡ account (λ e. text_eq e.task_id k) log
unfolding replay new_token_accounting_service record_llm_usage sum
task_tokens-account k [] named = refl
task_tokens-account k (e ∷ log) named =
    credit-at e.usage e.task_id k (replay log).task_tokens named
    ∙ rw (task_tokens-account k log named) (add_usage-account (λ u. text_eq u.task_id k) e log)

agent_tokens-account :
    (k : Text) (log : List Usage)
    → is_empty k ≡ false
    → usage_or_zero ((replay log).agent_tokens k) ≡ account (λ e. text_eq e.agent_id k) log
unfolding replay new_token_accounting_service record_llm_usage sum
agent_tokens-account k [] named = refl
agent_tokens-account k (e ∷ log) named =
    credit-at e.usage e.agent_id k (replay log).agent_tokens named
    ∙ rw (agent_tokens-account k log named) (add_usage-account (λ u. text_eq u.agent_id k) e log)

get_story_breakdown-account :
    (k : Text) (log : List Usage)
    → is_empty k ≡ false
    → get_story_breakdown (replay log) k ≡ story_account k log
unfolding replay new_token_accounting_service record_llm_usage sum get_story_breakdown
get_story_breakdown-account k [] named = refl
get_story_breakdown-account k (e ∷ log) named = elim (Bool-cases (text_eq e.story_id k)) [
  | inl same ↦
      let here : e.story_id ≡ k = (text_eq_iff e.story_id k).0 same in
      let named_id : is_empty e.story_id ≡ false = rw here named in
      let sums = λ (count : TokenUsage → ℕ).
        add64-mod (sum (λ u. text_eq u.story_id k) count log) (count e.usage) in
      rw (
        same,
        named_id,
        same,
        here,
        get_story_breakdown-account k log named,
        sums (λ u. u.input_tokens),
        sums (λ u. u.output_tokens),
        sums (λ u. u.total_tokens),
      )
  | inr other ↦ elim (Bool-cases (is_empty e.story_id)) [
    | inl blank ↦ rw (other, blank) (get_story_breakdown-account k log named)
    | inr named_id ↦ rw (other, named_id, other) (get_story_breakdown-account k log named)
  ]
]

get_total_breakdown-sum :
    (log : List Usage)
    → let t = get_total_breakdown (replay log) in
      (t.input_tokens ≡ sum64 (λ e. true) (λ u. u.input_tokens) log)
      × (t.output_tokens ≡ sum64 (λ e. true) (λ u. u.output_tokens) log)
unfolding replay new_token_accounting_service record_llm_usage sum get_total_breakdown
get_total_breakdown-sum [] = (refl, refl)
get_total_breakdown-sum (e ∷ log) =
    let (input, output) = get_total_breakdown-sum log in
    (omega (arith, input), omega (arith, output))

-- After any calls of `RecordLLMUsage`, the account of a story, of a task and of an agent whose ID is the text,
-- which is not empty, is the sum of the usages recorded for it, and the totals are the sums of all recorded input
-- and output tokens, each modulo 2 ^ 64; the third total is the sum of the other two.
pub replay-accounts :
    (log : List Usage) (k : Text)
    → is_empty k ≡ false
    → let s = replay log in
      let t = get_total_breakdown s in
      (get_story_breakdown s k ≡ story_account k log)
      × (usage_or_zero (s.task_tokens k) ≡ account (λ e. text_eq e.task_id k) log)
      × (usage_or_zero (s.agent_tokens k) ≡ account (λ e. text_eq e.agent_id k) log)
      × (t.input_tokens ≡ sum64 (λ e. true) (λ u. u.input_tokens) log)
      × (t.output_tokens ≡ sum64 (λ e. true) (λ u. u.output_tokens) log)
      × (t.total_tokens ≡ add64 t.input_tokens t.output_tokens)
unfolding get_total_breakdown
replay-accounts log k named =
    let (input, output) = get_total_breakdown-sum log in
    (
      get_story_breakdown-account k log named,
      task_tokens-account k log named,
      agent_tokens-account k log named,
      input,
      output,
      refl,
    )
