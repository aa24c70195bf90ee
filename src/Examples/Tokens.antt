-- ===== src/Examples/Tokens.antt =====
-- A log of two calls of the token accounts, and a state that comes back.
use noctifab.Prelude.{ℕ, ◌+◌, ◌≡◌, refl, true, List, [], ◌∷◌}
use noctifab.Prelude.Text.{Text, codes, text_eq}
use noctifab.Tokens.{TokenUsage, add64, usage_or_zero, get_story_breakdown, get_total_breakdown}
use noctifab.Tokens.Sums.{Usage, replay, sum64, account, story_account, replay-accounts}
use noctifab.Guards.Diffs.{DiffCall}

abbrev usage_of : ℕ → ℕ → TokenUsage
usage_of input output = record {
  input_tokens = input;
  output_tokens = output;
  reasoning_tokens = 0;
  cached_tokens = 0;
  total_tokens = input + output;
}

abbrev log : List Usage
log =
    record { story_id = codes "US-001"; task_id = codes "T"; agent_id = []; usage = usage_of 5 7 }
    ∷ record {
      story_id = codes "US-001";
      task_id = codes "S";
      agent_id = codes "A";
      usage = usage_of 10 20;
    }
    ∷ []

replay-accounts_example :
    let s = replay log in
    let t = get_total_breakdown s in
    let k = codes "US-001" in
    (get_story_breakdown s k ≡ story_account k log)
    × (usage_or_zero (s.task_tokens k) ≡ account (λ e. text_eq e.task_id k) log)
    × (usage_or_zero (s.agent_tokens k) ≡ account (λ e. text_eq e.agent_id k) log)
    × (t.input_tokens ≡ sum64 (λ e. true) (λ u. u.input_tokens) log)
    × (t.output_tokens ≡ sum64 (λ e. true) (λ u. u.output_tokens) log)
    × (t.total_tokens ≡ add64 t.input_tokens t.output_tokens)
replay-accounts_example = replay-accounts log (codes "US-001") refl

abbrev same_text : Text → Text
same_text s = s

abbrev calls : List DiffCall
calls =
    record { turn = 2; diff_content = codes "b" }
    ∷ record { turn = 1; diff_content = codes "a" }
    ∷ []
