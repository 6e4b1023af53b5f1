-- ===== src/Tests/Alerts.antt =====
-- One alert rule over three ticks.
use bullmq_durable.Base.{true, false, none, [], ◌∷◌, ◌≡◌, refl}
use bullmq_durable.Base.Dict.{lookup, insert}
use bullmq_durable.Alerts.{
  AlertRule, QueueSummary, AlertMetric, gt, evaluate_rule, offenders_of, metric_value,
  compare_values,
}
use bullmq_durable.Alerts.Notify.{
  Alerting, Notice, evaluate, list_rules, notify, save_state, tick, transition, transitions,
}
use bullmq_durable.Alerts.Edges.{Consistent, Sight, ticks, ticks-Consistent}

abbrev rule : AlertRule
rule = record {
  id = "r";
  name = "failures";
  metric = AlertMetric.failed;
  queue = none;
  operator = gt;
  threshold = 5;
  enabled = true;
  channels = "c" ∷ "gone" ∷ [];
  created_at = 1;
}

abbrev board : Alerting
board = record {
  rules = ("r", rule) ∷ [];
  channels = ("c", "https://example.com") ∷ [];
  states = [];
  sent = [];
}

abbrev queue : QueueSummary
queue = record {
  name = "q";
  failed_count = 10;
  waiting_count = 0;
  active_count = 0;
  delayed_count = 0;
  children_count = 0;
  workers = 1;
}

abbrev sight : QueueSummary → Sight
sight q = record { queues = q ∷ []; stuck_count = 0; now = 7 }

abbrev Posted : Notice → Notice → Alerting → Type 0
Posted newer older b = b.sent ≡ newer ∷ older ∷ []

posts_at_edges :
    Posted
      (record { rule_id = "r"; firing = false; posted_to = "c" ∷ [] })
      (record { rule_id = "r"; firing = true; posted_to = "c" ∷ [] })
      (ticks (sight queue ∷ sight queue ∷ sight (record queue { failed_count = 5 }) ∷ []) board)
unfolding tick evaluate list_rules evaluate_rule offenders_of metric_value compare_values
    transitions transition notify save_state lookup insert
posts_at_edges = refl

ticks-Consistent_example :
    Consistent (ticks (sight queue ∷ sight (record queue { failed_count = 5 }) ∷ []) board)
unfolding list_rules lookup
ticks-Consistent_example =
    ticks-Consistent (sight queue ∷ sight (record queue { failed_count = 5 }) ∷ []) board (tt, tt)
      refl refl
