-- ===== src/Alerts/Notify.antt =====
-- The notifier of alerts-inspector.ts: `tick` evaluates every rule and posts at the transitions.
use bullmq_durable.Base.{
  ℕ, String, Bool, true, false, not, Option, none, some, List, [], ◌∷◌, map, leb, if◌then◌else◌,
  or_else, filter,
}
use bullmq_durable.Base.Dict.{Dict, lookup, insert, remove}
use bullmq_durable.Alerts.{AlertRule, AlertEvaluation, RuleState, QueueSummary, evaluate_rule}

-- What is posted: the rule, `firing` or `resolved`, and the channels.
pub record Notice : Type 0 where
  pub rule_id : String
  pub firing : Bool
  pub posted_to : List String

-- The hashes of rules, channels and states, and what was posted, the newest first. Of a channel
-- only that it is known counts.
pub record Alerting : Type 0 where
  pub rules : Dict AlertRule
  pub channels : Dict String
  pub states : Dict RuleState
  pub sent : List Notice

abbrev insert_rule : AlertRule → List AlertRule → List AlertRule
insert_rule rule [] = rule ∷ []
insert_rule rule (other ∷ rules) =
    let rest = insert_rule rule rules in
    if leb rule.created_at other.created_at then rule ∷ other ∷ rules else other ∷ rest

abbrev pub sort_rules : Dict AlertRule → List AlertRule
sort_rules [] = []
sort_rules ((id, rule) ∷ rules) = insert_rule rule (sort_rules rules)

-- `listRules`.
unfoldable pub list_rules : Alerting → List AlertRule
list_rules b = sort_rules b.rules

-- `removeRule`.
unfoldable pub remove_rule : String → Alerting → Alerting
remove_rule id b = record b { rules = remove id b.rules; states = remove id b.states }

abbrev toggled : Option AlertRule → String → Alerting → Alerting
toggled none id b = b
toggled (some rule) id b = record b {
  rules = insert id (record rule { enabled = not rule.enabled }) b.rules;
}

-- `toggleRule`.
unfoldable pub toggle_rule : String → Alerting → Alerting
toggle_rule id b = toggled (lookup id b.rules) id b

-- `prev?.firing ?? false`.
abbrev pub was_firing : Option RuleState → Bool
was_firing none = false
was_firing (some s) = s.firing

abbrev since_or : ℕ → Option RuleState → ℕ
since_or now none = now
since_or now (some s) = or_else s.since now

abbrev notified_of : Option RuleState → Option ℕ
notified_of none = none
notified_of (some s) = s.last_notified

abbrev is_known : Option String → Bool
is_known none = false
is_known (some _) = true

-- `notify`.
unfoldable pub notify : AlertEvaluation → Bool → Alerting → Alerting
notify ev firing b = record b {
  sent =
      record {
        rule_id = ev.rule.id;
        firing = firing;
        posted_to = filter (λ id. is_known (lookup id b.channels)) ev.rule.channels;
      }
      ∷ b.sent;
}

-- `saveState`.
unfoldable pub save_state : String → RuleState → Alerting → Alerting
save_state id s b = record b { states = insert id s b.states }

-- The body of the loop of `tick`, by what is evaluated and what was stored.
unfoldable pub transition :
    Bool → Bool → AlertEvaluation → Option RuleState → ℕ → Alerting → Alerting
unfolding notify save_state
transition true false ev prev now b =
    save_state ev.rule.id (record { firing = true; since = some now; last_notified = some now })
      (notify ev true b)
transition true true ev prev now b =
    save_state ev.rule.id
      (record { firing = true; since = some (since_or now prev); last_notified = notified_of prev })
      b
transition false true ev prev now b =
    save_state ev.rule.id (record { firing = false; since = none; last_notified = none })
      (notify ev false b)
transition false false ev prev now b = b

unfoldable pub transitions : List AlertEvaluation → Dict RuleState → ℕ → Alerting → Alerting
unfolding transition
transitions [] states now b = b
transitions (ev ∷ evs) states now b =
    let prev = lookup ev.rule.id states in
    transitions evs states now (transition ev.firing (was_firing prev) ev prev now b)

-- `evaluate`, with the queues and the count of stuck runs.
unfoldable pub evaluate : List QueueSummary → ℕ → ℕ → Alerting → List AlertEvaluation
unfolding evaluate_rule list_rules
evaluate queues stuck_count now b =
    map (λ rule. evaluate_rule rule queues stuck_count (lookup rule.id b.states) now) (list_rules b)

-- `tick`.
unfoldable pub tick : List QueueSummary → ℕ → ℕ → Alerting → Alerting
unfolding evaluate transitions
tick queues stuck_count now b = transitions (evaluate queues stuck_count now b) b.states now b
