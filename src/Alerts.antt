-- ===== src/Alerts.antt =====
-- The alert rules of the dashboard: bullmq-cockpit's server/inspectors/alerts-inspector.ts. The
-- queues' summaries and the count of stuck runs, which other inspectors read, are parameters: the
-- count is 0 where the durable features are off, and a read that fails gives none. A notification
-- is the list of channels that it is posted to, not the texts. The hash of each key holds what was
-- written, in the order of the entries.
pub mod Notify
pub mod Edges
use bullmq_durable.Base.{
  ℕ, ◌+◌, max, String, ◌=s=◌, Bool, true, false, Option, none, some, List, [], ◌∷◌, map, ltb, leb,
  ◌==◌, if◌then◌else◌, filter,
}

pub data AlertMetric : Type 0 where
  failed backlog waiting active no_workers stuck : AlertMetric

pub data AlertOperator : Type 0 where
  gt gte lt lte : AlertOperator

pub record AlertRule : Type 0 where
  pub id : String
  pub name : String
  pub metric : AlertMetric
  pub queue : Option String
  pub operator : AlertOperator
  pub threshold : ℕ
  pub enabled : Bool
  pub channels : List String
  pub created_at : ℕ

-- What the source reads of `QueueSummary` and its counts.
pub record QueueSummary : Type 0 where
  pub name : String
  pub failed_count : ℕ
  pub waiting_count : ℕ
  pub active_count : ℕ
  pub delayed_count : ℕ
  pub children_count : ℕ
  pub workers : ℕ

pub record AlertOffender : Type 0 where
  pub queue : String
  pub value : ℕ

pub record AlertEvaluation : Type 0 where
  pub rule : AlertRule
  pub firing : Bool
  pub value : ℕ
  pub offenders : List AlertOffender
  pub since : Option ℕ
  pub observed_at : ℕ

pub record RuleState : Type 0 where
  pub firing : Bool
  pub since : Option ℕ
  pub last_notified : Option ℕ

-- `metricValue`.
unfoldable pub metric_value : AlertMetric → QueueSummary → ℕ
metric_value failed q = q.failed_count
metric_value waiting q = q.waiting_count
metric_value active q = q.active_count
metric_value backlog q = q.waiting_count + q.delayed_count + q.children_count
metric_value no_workers q =
    if q.workers == 0
    then q.waiting_count + q.active_count + q.delayed_count + q.children_count
    else 0
metric_value stuck q = 0

-- `compare`.
unfoldable pub compare_values : ℕ → AlertOperator → ℕ → Bool
compare_values value gt threshold = ltb threshold value
compare_values value gte threshold = leb threshold value
compare_values value lt threshold = ltb value threshold
compare_values value lte threshold = leb value threshold

-- `rule.queue && rule.queue !== "*"`, with the queue.
abbrev pub named_queue : Option String → Option String
named_queue none = none
named_queue (some q) = if q =s= "" then none else (if q =s= "*" then none else some q)

abbrev targets_of : Option String → List QueueSummary → List QueueSummary
targets_of none queues = queues
targets_of (some name) queues = filter (λ q. q.name =s= name) queues

-- The queues that breach the threshold.
unfoldable pub offenders_of : AlertRule → List QueueSummary → List AlertOffender
unfolding metric_value compare_values
offenders_of rule [] = []
offenders_of rule (q ∷ queues) =
    let rest = offenders_of rule queues in
    let value = metric_value rule.metric q in
    if compare_values value rule.operator rule.threshold
    then record { queue = q.name; value = value } ∷ rest
    else rest

-- `worst` and `Math.max(...)`: the greatest value, zero of none.
abbrev greatest : List ℕ → ℕ
greatest [] = 0
greatest (n ∷ ns) = max n (greatest ns)

abbrev since_of : Bool → Option RuleState → Option ℕ
since_of true (some s) = s.since
since_of _ _ = none

abbrev pub is_stuck_metric : AlertMetric → Bool
is_stuck_metric stuck = true
is_stuck_metric _ = false

abbrev is_nonempty {ℓ} : {A : Type ℓ} → List A → Bool
is_nonempty [] = false
is_nonempty (x ∷ xs) = true

abbrev evaluate_stuck : AlertRule → ℕ → Option RuleState → ℕ → AlertEvaluation
unfolding compare_values
evaluate_stuck rule stuck_count prev now =
    let firing = compare_values stuck_count rule.operator rule.threshold in
    record {
      rule = rule;
      firing = firing;
      value = stuck_count;
      offenders = [];
      since = since_of firing prev;
      observed_at = now;
    }

abbrev evaluate_queues : AlertRule → List QueueSummary → Option RuleState → ℕ → AlertEvaluation
unfolding offenders_of metric_value
evaluate_queues rule targets prev now =
    let offenders = offenders_of rule targets in
    let firing = is_nonempty offenders in
    record {
      rule = rule;
      firing = firing;
      value =
          if firing
          then greatest (map (λ o. o.value) offenders)
          else greatest (map (metric_value rule.metric) targets);
      offenders = offenders;
      since = since_of firing prev;
      observed_at = now;
    }

-- `evaluateRule`.
unfoldable pub evaluate_rule :
    AlertRule → List QueueSummary → ℕ → Option RuleState → ℕ → AlertEvaluation
unfolding offenders_of metric_value compare_values
evaluate_rule rule queues stuck_count prev now =
    if rule.enabled
    then (if is_stuck_metric rule.metric
        then evaluate_stuck rule stuck_count prev now
        else evaluate_queues rule (targets_of (named_queue rule.queue) queues) prev now)
    else record {
      rule = rule;
      firing = false;
      value = 0;
      offenders = [];
      since = none;
      observed_at = now;
    }
