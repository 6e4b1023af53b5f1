-- ===== src/Alerts/Edges.antt =====
-- What `tick` of alerts-inspector.ts posts: the transitions of each rule.
use bullmq_durable.Base.{
  ℕ, String, ◌=s=◌, Bool, true, false, not, List, [], ◌∷◌, map, ◌≡◌, refl, if◌then◌else◌, All,
  Bool-cases, inl, inr, eq_iff, ◌∙◌, sym, ap, Option,
}
use mathlib.Core.Path.{subst}
use bullmq_durable.Base.Dict.{Dict, lookup, insert, lookup-insert}
use bullmq_durable.Alerts.{
  AlertRule, AlertEvaluation, RuleState, QueueSummary, evaluate_rule, is_stuck_metric,
}
use bullmq_durable.Alerts.Notify.{
  Notice, Alerting, was_firing, sort_rules, list_rules, notify, save_state, transition, transitions,
  evaluate, tick,
}

-- What the newest notice of a rule says; a rule without a notice is not firing.
abbrev pub last_firing : String → List Notice → Bool
last_firing id [] = false
last_firing id (n ∷ ns) =
    let rest = last_firing id ns in if n.rule_id =s= id then n.firing else rest

-- Each notice is the opposite of the one before it of the same rule, and the first is `firing`.
abbrev pub Alternates : List Notice → Type 0
Alternates [] = Unit
Alternates (n ∷ ns) = (last_firing n.rule_id ns ≡ not n.firing) × Alternates ns

pub record Consistent (b : Alerting) : Type 0 where
  pub alternates : Alternates b.sent
  pub stored : (id : String) → was_firing (lookup id b.states) ≡ last_firing id b.sent

abbrev pub Distinct : List AlertRule → Type 0
Distinct [] = Unit
Distinct (r ∷ rs) = All (λ other. (r.id =s= other.id) ≡ false) rs × Distinct rs

saved :
    (key name : String) (s : RuleState) (states : Dict RuleState) (sent : List Notice)
    → was_firing (lookup name states) ≡ last_firing name sent
    → was_firing (lookup name (insert key s states))
      ≡ (if key =s= name then s.firing else last_firing name sent)
saved key name s states sent h = elim (Bool-cases (key =s= name)) [
  | inl e ↦ rw (lookup-insert, e) refl
  | inr e ↦ rw (lookup-insert, e) h
]

last-same :
    (key name : String) (sent : List Notice) (v : Bool)
    → last_firing key sent ≡ v
    → (if key =s= name then v else last_firing name sent) ≡ last_firing name sent
last-same key name sent v h = elim (Bool-cases (key =s= name)) [
  | inl e ↦ rw (e) (sym h ∙ ap (λ id. last_firing id sent) ((eq_iff key name).0 e))
  | inr e ↦ rw (e) refl
]

transition-Consistent :
    (firing was : Bool) (ev : AlertEvaluation) (prev : Option RuleState) (now : ℕ) (b : Alerting)
    → Consistent b
    → last_firing ev.rule.id b.sent ≡ was
    → Consistent (transition firing was ev prev now b)
unfolding transition notify save_state
transition-Consistent true false ev prev now b c h = record {
  alternates = (h, c.alternates);
  stored = λ id. saved ev.rule.id id _ b.states b.sent (c.stored id);
}
transition-Consistent true true ev prev now b c h = record {
  alternates = c.alternates;
  stored = λ id.
      saved ev.rule.id id _ b.states b.sent (c.stored id) ∙ last-same ev.rule.id id b.sent true h;
}
transition-Consistent false true ev prev now b c h = record {
  alternates = (h, c.alternates);
  stored = λ id. saved ev.rule.id id _ b.states b.sent (c.stored id);
}
transition-Consistent false false ev prev now b c h = c

transition-other :
    (firing was : Bool) (ev : AlertEvaluation) (prev : Option RuleState) (now : ℕ) (b : Alerting)
    (name : String)
    → (ev.rule.id =s= name) ≡ false
    → lookup name (transition firing was ev prev now b).states ≡ lookup name b.states
unfolding transition notify save_state
transition-other true false ev prev now b name e = rw (lookup-insert, e) refl
transition-other true true ev prev now b name e = rw (lookup-insert, e) refl
transition-other false true ev prev now b name e = rw (lookup-insert, e) refl
transition-other false false ev prev now b name e = refl

transition-rules :
    (firing was : Bool) (ev : AlertEvaluation) (prev : Option RuleState) (now : ℕ) (b : Alerting)
    → (transition firing was ev prev now b).rules ≡ b.rules
unfolding transition notify save_state
transition-rules true false ev prev now b = refl
transition-rules true true ev prev now b = refl
transition-rules false true ev prev now b = refl
transition-rules false false ev prev now b = refl

All-both {ℓ κ μ ν} :
    {A : Type ℓ} {P : A → Type κ} {Q : A → Type μ} {R : A → Type ν} (xs : List A)
    → ((x : A) → P x → Q x → R x)
    → All P xs
    → All Q xs
    → All R xs
All-both [] f p q = tt
All-both (x ∷ xs) f p q = (f x p.0 q.0, All-both xs f p.1 q.1)

-- The states that were read before the loop are those of the rules that are still to come.
module _ (states : Dict RuleState) (now : ℕ) (f : AlertRule → AlertEvaluation)
    (same : (r : AlertRule) → (f r).rule ≡ r) where
  transitions-Consistent :
      (rules : List AlertRule) (b : Alerting)
      → Distinct rules
      → All (λ r. lookup r.id b.states ≡ lookup r.id states) rules
      → Consistent b
      → Consistent (transitions (map f rules) states now b)
  unfolding transitions
  transitions-Consistent [] b d p c = c
  transitions-Consistent (r ∷ rules) b d p c =
      let was = was_firing (lookup (f r).rule.id states) in
      transitions-Consistent rules
        (transition (f r).firing was (f r) (lookup (f r).rule.id states) now b) d.1
        (All-both rules
          (λ o e q.
            transition-other (f r).firing was (f r) (lookup (f r).rule.id states) now b o.id
              (ap (λ x. x.id =s= o.id) (same r) ∙ e)
            ∙ q)
          d.0 p.1)
        (transition-Consistent (f r).firing was (f r) (lookup (f r).rule.id states) now b c (
          sym (c.stored (f r).rule.id)
          ∙ (ap (λ x. was_firing (lookup x.id b.states)) (same r)
              ∙ (ap was_firing (p.0) ∙ sym (ap (λ x. was_firing (lookup x.id states)) (same r))))))

  transitions-rules :
      (rules : List AlertRule) (b : Alerting)
      → (transitions (map f rules) states now b).rules ≡ b.rules
  unfolding transitions
  transitions-rules [] b = refl
  transitions-rules (r ∷ rules) b =
      transitions-rules rules _ ∙ transition-rules (f r).firing _ (f r) _ now b

evaluate_rule-rule :
    (r : AlertRule) (queues : List QueueSummary) (stuck_count : ℕ) (prev : Option RuleState)
    (now : ℕ)
    → (evaluate_rule r queues stuck_count prev now).rule ≡ r
unfolding evaluate_rule
evaluate_rule-rule r queues stuck_count prev now = elim (Bool-cases r.enabled) [
  | inl e ↦ elim (Bool-cases (is_stuck_metric r.metric)) [
    | inl s ↦ rw (e, s) refl
    | inr s ↦ rw (e, s) refl
  ]
  | inr e ↦ rw (e) refl
]

All-refl :
    (states : Dict RuleState) (rules : List AlertRule)
    → All (λ r. lookup r.id states ≡ lookup r.id states) rules
All-refl states [] = tt
All-refl states (r ∷ rules) = (refl, All-refl states rules)

module _ (queues : List QueueSummary) (stuck_count now : ℕ) (b : Alerting) where
  evaluated : AlertRule → AlertEvaluation
  evaluated r = evaluate_rule r queues stuck_count (lookup r.id b.states) now

  tick-Consistent :
      Distinct (list_rules b) → Consistent b → Consistent (tick queues stuck_count now b)
  unfolding tick evaluate evaluated
  tick-Consistent d c =
      transitions-Consistent b.states now evaluated
        (λ r. evaluate_rule-rule r queues stuck_count (lookup r.id b.states) now) (list_rules b) b d
        (All-refl b.states (list_rules b)) c

  list_rules-tick : list_rules (tick queues stuck_count now b) ≡ list_rules b
  unfolding tick evaluate evaluated list_rules
  list_rules-tick = ap sort_rules (
      transitions-rules b.states now evaluated
        (λ r. evaluate_rule-rule r queues stuck_count (lookup r.id b.states) now) (list_rules b) b)

-- What a tick sees: the queues, the count of stuck runs and the time.
pub record Sight : Type 0 where
  pub queues : List QueueSummary
  pub stuck_count : ℕ
  pub now : ℕ

abbrev pub ticks : List Sight → Alerting → Alerting
ticks [] b = b
ticks (s ∷ sights) b = ticks sights (tick s.queues s.stuck_count s.now b)

ticks_keep :
    (sights : List Sight) (b : Alerting)
    → Distinct (list_rules b)
    → Consistent b
    → Consistent (ticks sights b)
ticks_keep [] b d c = c
ticks_keep (s ∷ sights) b d c =
    let b' = tick s.queues s.stuck_count s.now b in
    ticks_keep sights b' (subst Distinct (sym (list_rules-tick s.queues s.stuck_count s.now b)) d)
      (tick-Consistent s.queues s.stuck_count s.now b d c)

-- Over any sequence of ticks from no stored state and no notice, with distinct ids of rules, what is
-- posted of each rule is by turns `firing` and `resolved`, from `firing` on, and the stored state of
-- a rule says what was posted last.
pub ticks-Consistent :
    (sights : List Sight) (b : Alerting)
    → Distinct (list_rules b)
    → b.states ≡ []
    → b.sent ≡ []
    → Consistent (ticks sights b)
unfolding lookup
ticks-Consistent sights b d clear silent = ticks_keep sights b d (record {
  alternates = subst Alternates (sym silent) tt;
  stored = λ id. rw (clear, silent) refl;
})
