-- ===== src/Examples/Campaigns.antt =====
-- Campaigns (src/qas/campaign.py) on concrete inputs.
use qwen_autonomous_supervis.Prelude.{ℕ, ◌≡◌, refl, none, arith}
use qwen_autonomous_supervis.Prelude.Int.{pos}
use qwen_autonomous_supervis.Json.{null, end}
use qwen_autonomous_supervis.Errors.{ok}
use qwen_autonomous_supervis.Errors.Holds.{Holds}
use qwen_autonomous_supervis.Ledger.{empty}
use qwen_autonomous_supervis.Ledger.Checkpoints.{get_checkpoint}
use qwen_autonomous_supervis.Campaign.{Plan, active_campaign, begin_campaign, new_campaign}
use qwen_autonomous_supervis.Campaign.Laws.{continued, begin_campaign-continued}
use qwen_autonomous_supervis.Campaign.Finish.{
  Ending, CampaignResult, result_of, close, IsFair, close-IsFair,
}
use qwen_autonomous_supervis.Examples.Guards.{python}

abbrev plan : Plan
plan = record {
  duration = pos 90000000;
  chaos_every = none;
  minimum_successful_ticks = pos 1;
  new_id = "c1";
  started_text = "now";
  event_counts = end;
}

-- What a process asks for that starts after a crash.
abbrev other : Plan
other = record plan { new_id = "c2"; minimum_successful_ticks = pos 7 }

none_yet : active_campaign 5 empty ≡ none
unfolding active_campaign get_checkpoint
none_yet = refl

begin_campaign-continued_example :
    begin_campaign python 1000 other (begin_campaign python 5 plan empty).1
    ≡ (ok (continued 5 plan 89999005), (begin_campaign python 5 plan empty).1)
begin_campaign-continued_example =
    begin_campaign-continued python (λ s. refl) 5 1000 90000000 plan other empty
      (begin_campaign python 5 plan empty).1 refl refl none_yet refl refl refl refl (omega arith)

abbrev ending : Ending
ending = record {
  finished_at = "later";
  duration = pos 90000000;
  total_tokens = pos 10;
  estimated_cost = pos 0;
  report_path = "c1.json";
  cleared_at = 7;
  noted_at = 8;
}

close-IsFair_example :
    Holds
      (λ (r : CampaignResult).
        IsFair python (new_campaign 5 plan) empty r
        × ((now : ℕ) → active_campaign now (close (λ x. null) r empty) ≡ none))
      (result_of python (new_campaign 5 plan) ending empty)
close-IsFair_example = close-IsFair python (λ x. null) (new_campaign 5 plan) ending empty
