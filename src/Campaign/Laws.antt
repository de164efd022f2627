-- ===== src/Campaign/Laws.antt =====
-- A campaign that a restarted process takes up again.
use qwen_autonomous_supervis.Prelude.{
  ℕ, ◌+◌, ◌-◌, ◌<◌, ◌≡◌, refl, ap, ◌∙◌, String, false, true, none, some, arith,
}
use qwen_autonomous_supervis.Prelude.Int.{pos, leb_ℤ, sub_ℕ, pos_part, neg_part}
use qwen_autonomous_supervis.Json.{str, obj, as_object}
use qwen_autonomous_supervis.Errors.{ok}
use qwen_autonomous_supervis.Config.Values.{Builtins, int_value, float_value}
use qwen_autonomous_supervis.Ledger.{Ledger}
use qwen_autonomous_supervis.Ledger.Checkpoints.{get_checkpoint, get_checkpoint-set_checkpoint}
use qwen_autonomous_supervis.Campaign.{
  campaign_key, Plan, Campaign, state_of, opt_real, is_refused, is_bad_interval, active_campaign,
  resume, begin_campaign, until, unfinished,
}

-- The campaign of a plan, as it goes on at a later moment.
abbrev pub continued : ℕ → Plan → ℕ → Campaign
continued now p left = record {
  campaign_id = p.new_id;
  started_at = p.started_text;
  started_epoch = pos now;
  before = p.event_counts;
  chaos_every = opt_real p.chaos_every;
  minimum_successful_ticks = p.minimum_successful_ticks;
  remaining = pos left;
  resumed = true;
}

sub_zero : (n : ℕ) → sub_ℕ n 0 ≡ pos n
sub_zero n = ground arith

until_lem : (now end : ℕ) → now < end → until now (pos end) ≡ pos (end - now)
until_lem now end h = ground arith

is_later : (now end : ℕ) → now < end → leb_ℤ (pos end) (pos now) ≡ false
is_later now end h = ground arith

deadline_lem :
    (now d : ℕ) (p : Plan)
    → p.duration ≡ pos d
    → sub_ℕ (now + pos_part p.duration) (neg_part p.duration) ≡ pos (now + d)
deadline_lem now d p length =
    ap (λ x. sub_ℕ (now + pos_part x) (neg_part x)) length ∙ sub_zero (now + d)

remaining_lem :
    (now now' d : ℕ) (p : Plan)
    → p.duration ≡ pos d
    → now' < now + d
    → until now' (sub_ℕ (now + pos_part p.duration) (neg_part p.duration)) ≡ pos (now + d - now')
remaining_lem now now' d p length soon =
    ap (until now') (deadline_lem now d p length) ∙ until_lem now' (now + d) soon

-- The stored state is that of an unfinished campaign until its deadline.
unfinished_lem :
    (now now' d : ℕ) (p : Plan)
    → p.duration ≡ pos d
    → now' < now + d
    → unfinished now' (some (state_of now p)) ≡ some (state_of now p)
unfinished_lem now now' d p length soon =
    rw (ap (λ x. leb_ℤ x (pos now')) (deadline_lem now d p length) ∙ is_later now' (now + d) soon)
      refl

module _ (py : Builtins) (str_of_text : (s : String) → py.str_of (str s) ≡ s) where
  resume_lem :
      (now now' d : ℕ) (p p' : Plan)
      → p.duration ≡ pos d
      → now' < now + d
      → resume py now' p' (state_of now p) ≡ ok (continued now p (now + d - now'))
  unfolding resume int_value float_value
  resume_lem now now' d p p' length soon =
      rw (str_of_text p.new_id, str_of_text p.started_text, remaining_lem now now' d p length soon)
        refl

  begun :
      (now : ℕ) (p : Plan) (l : Ledger)
      → is_refused p ≡ false
      → is_bad_interval p.chaos_every ≡ false
      → active_campaign now l ≡ none
      → get_checkpoint campaign_key (begin_campaign py now p l).1.checkpoints ≡ obj (state_of now p)
  unfolding begin_campaign
  begun now p l long interval fresh =
      rw (long, interval, fresh)
        (get_checkpoint-set_checkpoint now campaign_key campaign_key (obj (state_of now p))
          l.checkpoints)

  active_of_stored :
      (now now' d : ℕ) (p : Plan) (m : Ledger)
      → get_checkpoint campaign_key m.checkpoints ≡ obj (state_of now p)
      → p.duration ≡ pos d
      → now' < now + d
      → active_campaign now' m ≡ some (state_of now p)
  unfolding active_campaign
  active_of_stored now now' d p m stored length soon =
      ap (λ v. unfinished now' (as_object v)) stored ∙ unfinished_lem now now' d p length soon

  -- A campaign that was begun is taken up again by a process that begins one before its deadline, whatever
  -- that process asks for itself: it has the same id, start, baseline, chaos interval and minimum, and the
  -- time that is left of the first one's duration, and nothing is written. In between the stored state
  -- stayed as it was. Python's `str` of a text is the text.
  pub begin_campaign-continued :
      (now now' d : ℕ) (p p' : Plan) (l m : Ledger)
      → is_refused p ≡ false
      → is_bad_interval p.chaos_every ≡ false
      → active_campaign now l ≡ none
      → p.duration ≡ pos d
      → get_checkpoint campaign_key m.checkpoints
        ≡ get_checkpoint campaign_key (begin_campaign py now p l).1.checkpoints
      → is_refused p' ≡ false
      → is_bad_interval p'.chaos_every ≡ false
      → now' < now + d
      → begin_campaign py now' p' m ≡ (ok (continued now p (now + d - now')), m)
  unfolding begin_campaign
  begin_campaign-continued now now' d p p' l m long interval fresh length kept long' interval'
        soon =
      rw
        (
          long',
          interval',
          active_of_stored now now' d p m (kept ∙ begun now p l long interval fresh) length soon,
          resume_lem now now' d p p' length soon,
        )
        refl
