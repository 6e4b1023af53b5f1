-- ===== src/Runtime/Order.antt =====
-- The order in which compensations run (`runRollbacks` of execution/runtime.ts), and what its
-- report holds.
use bullmq_durable.Types.{CompensationOutcome, CompensationReport}
use bullmq_durable.Runtime.{Value, Params}
use bullmq_durable.Result.{Result, ok, out_of_fuel, throws}
use bullmq_durable.Errors.{Thrown, is_cancelled, is_yield}
use bullmq_durable.Runtime.Rollbacks.{
  after_rollback, empty_report, roll_back, roll_back_registered, run_rollbacks, insert_rollback,
  sort_rollbacks,
}
use bullmq_durable.Executor.{Action, Tick, RegisteredRollback}
use mathlib.Core.Path.{subst}
use mathlib.Core.List.{Perm, perm_middle, append_assoc, append-nil}
use bullmq_durable.Base.{
  String, if◌then◌else◌, map, ◌||◌, Bool, false, leb, true, List, ◌∷◌, [], ◌++◌, ◌≤◌, ◌≡◌, refl,
  arith, ◌∙◌, ap, sym, Bool-cases, inl, inr,
}
use mathlib.Core.List.Perm

-- By descending `seq`.
abbrev pub Descends : List RegisteredRollback → Type 0
Descends [] = Unit
Descends (x ∷ []) = Unit
Descends (x ∷ y ∷ ys) = (y.seq ≤ x.seq) × Descends (y ∷ ys)

insert_rollback-Perm :
    (x : RegisteredRollback) (l : List RegisteredRollback) → Perm (insert_rollback x l) (x ∷ l)
unfolding insert_rollback
insert_rollback-Perm x [] = Perm.rfl
insert_rollback-Perm x (y ∷ ys) =
    pick (leb y.seq x.seq) (Perm.trans (Perm.cons y (insert_rollback-Perm x ys)) (Perm.swap x y ys))
  where
    pick :
        (b : Bool)
        → Perm (y ∷ insert_rollback x ys) (x ∷ y ∷ ys)
        → Perm (if b then x ∷ y ∷ ys else y ∷ insert_rollback x ys) (x ∷ y ∷ ys)
    pick true h = Perm.rfl
    pick false h = h

sort_rollbacks-Perm : (l : List RegisteredRollback) → Perm (sort_rollbacks l) l
unfolding sort_rollbacks
sort_rollbacks-Perm [] = Perm.rfl
sort_rollbacks-Perm (x ∷ xs) =
    Perm.trans (insert_rollback-Perm x (sort_rollbacks xs)) (Perm.cons x (sort_rollbacks-Perm xs))

insert_rollback-Descends :
    (x : RegisteredRollback) (l : List RegisteredRollback)
    → Descends l
    → Descends (insert_rollback x l)
unfolding insert_rollback
insert_rollback-Descends x [] h = tt
insert_rollback-Descends x (y ∷ []) h = ground arith
insert_rollback-Descends x (y ∷ z ∷ zs) (le, h) =
    ground (arith, insert_rollback-Descends x (z ∷ zs) h)

sort_rollbacks-Descends : (l : List RegisteredRollback) → Descends (sort_rollbacks l)
unfolding sort_rollbacks
sort_rollbacks-Descends [] = tt
sort_rollbacks-Descends (x ∷ xs) =
    insert_rollback-Descends x (sort_rollbacks xs) (sort_rollbacks-Descends xs)

sort_rollbacks-order :
    (l : List RegisteredRollback) → Perm (sort_rollbacks l) l × Descends (sort_rollbacks l)
sort_rollbacks-order l = (sort_rollbacks-Perm l, sort_rollbacks-Descends l)

-- The third list holds the elements of the first two, those of each in its order.
pub data Merges : List String → List String → List String → Type 0 where
  nothing : Merges [] [] []
  left : (x : String) (xs ys zs : List String) → Merges xs ys zs → Merges (x ∷ xs) ys (x ∷ zs)
  right : (y : String) (xs ys zs : List String) → Merges xs ys zs → Merges xs (y ∷ ys) (y ∷ zs)

-- The report goes on from `before` with the keys, each rolled back or failed, in their order.
abbrev Continues : CompensationReport → CompensationReport → List String → Type 0
Continues before after keys =
    (done : List String) × (broken : List String) × (after.rolled_back ≡ before.rolled_back ++ done)
    × (map (λ c. c.key) after.failed ≡ map (λ c. c.key) before.failed ++ broken)
    × Merges done broken keys

done-Continues :
    (k : String) (before after : CompensationReport) (keys : List String)
    → Continues (record before { rolled_back = before.rolled_back ++ k ∷ [] }) after keys
    → Continues before after (k ∷ keys)
done-Continues k before after keys (done, broken, e, f, m) =
    (k ∷ done, broken, e ∙ append_assoc before.rolled_back (k ∷ []) done, f, left k _ _ _ m)

map_keys :
    (xs : List CompensationOutcome) (c : CompensationOutcome)
    → map (λ x. x.key) (xs ++ c ∷ []) ≡ map (λ x. x.key) xs ++ c.key ∷ []
map_keys [] c = refl
map_keys (x ∷ xs) c = ap (λ ks. x.key ∷ ks) (map_keys xs c)

failed-Continues :
    (c : CompensationOutcome) (before after : CompensationReport) (keys : List String)
    → Continues (record before { failed = before.failed ++ c ∷ [] }) after keys
    → Continues before after (c.key ∷ keys)
failed-Continues c before after keys (done, broken, e, f, m) = (
  done,
  c.key ∷ broken,
  e,
  f
      ∙ (ap (λ ks. ks ++ broken) (map_keys before.failed c)
          ∙ append_assoc (map (λ x. x.key) before.failed) (c.key ∷ []) broken),
  right c.key _ _ _ m,
)

after_rollback-Continues :
    (rb : RegisteredRollback) (report : CompensationReport) (keys : List String)
    (next : CompensationReport → Action CompensationReport) (r : Result Value) (t : Tick)
    {z : CompensationReport}
    → ((report' : CompensationReport) (u : Tick)
        → (next report' u).0 ≡ ok z
        → Continues report' z keys)
    → (after_rollback rb report next r t).0 ≡ ok z
    → Continues report z (rb.key ∷ keys)
unfolding after_rollback
after_rollback-Continues rb report keys next (ok v) t {z} k h =
    done-Continues rb.key report z keys (k _ _ h)
after_rollback-Continues rb report keys next (throws e) t {z} k h =
    elim (Bool-cases (is_yield e || is_cancelled e)) [
      | inl q ↦ absurd (throws_ne (rw (q) at h))
      | inr q ↦ failed-Continues _ report z keys (k _ _ (rw (q) at h))
    ]
  where
    throws_ne : ¬ (throws e ≡ ok z)
    throws_ne q = cc
after_rollback-Continues rb report keys next out_of_fuel t k h = cc

roll_back-Continues :
    (p : Params) (e : Thrown) (rbs : List RegisteredRollback) (report : CompensationReport)
    (t : Tick) {z : CompensationReport}
    → (roll_back p e rbs report t).0 ≡ ok z
    → Continues report z (map (λ rb. rb.key) rbs)
unfolding roll_back
roll_back-Continues p e [] report t {z} h =
    let same : report ≡ z = cc in
    subst (λ x. Continues report x []) same
      (
        [],
        [],
        sym (append-nil report.rolled_back),
        sym (append-nil (map (λ c. c.key) report.failed)),
        nothing,
      )
roll_back-Continues p e (rb ∷ rest) report t h =
    after_rollback-Continues rb report _ _ _ _
      (λ report' u q. roll_back-Continues p e rest report' u q) h

-- The report is of the registered rollbacks by descending `seq`.
abbrev pub InOrder : CompensationReport → List RegisteredRollback → Type 0
InOrder z registered =
    (l : List RegisteredRollback) × Perm l registered
    × Descends l
    × Merges z.rolled_back (map (λ c. c.key) z.failed) (map (λ rb. rb.key) l)

registered-InOrder :
    (p : Params) (e : Thrown) (rbs : List RegisteredRollback) (t : Tick) {z : CompensationReport}
    → (roll_back_registered p e rbs t).0 ≡ ok z
    → InOrder z rbs
unfolding roll_back_registered
registered-InOrder p e [] t {z} h =
    let same : empty_report ≡ z = cc in subst (λ x. InOrder x []) same ([], Perm.rfl, tt, nothing)
registered-InOrder p e (rb ∷ rbs) t {z} h =
    let (done, broken, e1, e2, m) =
      roll_back-Continues p e (sort_rollbacks (rb ∷ rbs)) empty_report _ h in
    (
      sort_rollbacks (rb ∷ rbs),
      sort_rollbacks-Perm _,
      sort_rollbacks-Descends (rb ∷ rbs),
      rw (e1, e2) m,
    )

-- Compensations run in the reverse of the order in which their steps began: a compensation phase
-- that is not suspended reports the registered rollbacks by descending `seq`, those that were rolled
-- back and those that failed each in that order.
pub run_rollbacks-InOrder :
    (p : Params) (e : Thrown) (t : Tick) {z : CompensationReport}
    → (run_rollbacks p e t).0 ≡ ok z
    → InOrder z t.rollbacks
unfolding run_rollbacks
run_rollbacks-InOrder p e t h = registered-InOrder p e t.rollbacks t h

-- The keys that a report names.
abbrev pub reported : CompensationReport → List String
reported report = report.rolled_back ++ map (λ c. c.key) report.failed

rolled_back-Perm : (k : String) (xs ys : List String) → Perm ((xs ++ k ∷ []) ++ ys) (k ∷ (xs ++ ys))
rolled_back-Perm k xs ys = rw (append_assoc xs (k ∷ []) ys) (perm_middle xs ys)

failed-Perm :
    (c : CompensationOutcome) (xs : List String) (ys : List CompensationOutcome)
    → Perm (xs ++ map (λ x. x.key) (ys ++ c ∷ [])) (c.key ∷ (xs ++ map (λ x. x.key) ys))
failed-Perm c xs [] = perm_middle xs []
failed-Perm c xs (y ∷ ys) = Perm.trans (perm_middle xs _) (
    Perm.trans (Perm.cons y.key (failed-Perm c xs ys))
      (Perm.trans (Perm.swap c.key y.key _) (Perm.cons c.key (Perm.symm (perm_middle xs _)))))

-- A compensation whose sequence goes on is reported, once.
abbrev Reports :
    RegisteredRollback
    → CompensationReport
    → (CompensationReport → Action CompensationReport)
    → CompensationReport
    → Type 0
Reports rb report next z =
    (report' : CompensationReport) × (u : Tick) × Perm (reported report') (rb.key ∷ reported report)
    × ((next report' u).0 ≡ ok z)

after_rollback-Reports :
    (rb : RegisteredRollback) (report : CompensationReport)
    (next : CompensationReport → Action CompensationReport) (r : Result Value) (t : Tick)
    {z : CompensationReport}
    → (after_rollback rb report next r t).0 ≡ ok z
    → Reports rb report next z
unfolding after_rollback
after_rollback-Reports rb report next (ok v) t h =
    (_, _, rolled_back-Perm rb.key report.rolled_back _, h)
after_rollback-Reports rb report next (throws e) t {z} h =
    split (is_yield e || is_cancelled e) (throws e, t) _ (λ q. absurd (throws_ne q))
      (λ q. (_, _, failed-Perm _ report.rolled_back report.failed, q)) h
  where
    throws_ne : ¬ (throws e ≡ ok z)
    throws_ne q = cc

    split :
        (b : Bool) (x y : Result CompensationReport × Tick)
        → (x.0 ≡ ok z → Reports rb report next z)
        → (y.0 ≡ ok z → Reports rb report next z)
        → (if b then x else y).0 ≡ ok z
        → Reports rb report next z
    split true x y f g q = f q
    split false x y f g q = g q
after_rollback-Reports rb report next out_of_fuel t h = cc

roll_back-reported :
    (p : Params) (e : Thrown) (rbs : List RegisteredRollback) (report : CompensationReport)
    (t : Tick) {z : CompensationReport}
    → (roll_back p e rbs report t).0 ≡ ok z
    → Perm (reported z) (map (λ rb. rb.key) rbs ++ reported report)
unfolding roll_back
roll_back-reported p e [] report t {z} h =
    let same : report ≡ z = cc in subst (λ x. Perm (reported x) (reported report)) same Perm.rfl
roll_back-reported p e (rb ∷ rest) report t h =
    let (report', u, perm, q) = after_rollback-Reports rb report _ _ _ h in
    Perm.trans (roll_back-reported p e rest report' u q) (
      Perm.trans (Perm.append_left (map (λ x. x.key) rest) perm)
        (perm_middle (map (λ x. x.key) rest) (reported report)))

registered-reported :
    (p : Params) (e : Thrown) (rbs : List RegisteredRollback) (t : Tick) {z : CompensationReport}
    → (roll_back_registered p e rbs t).0 ≡ ok z
    → Perm (reported z) (map (λ rb. rb.key) rbs)
unfolding roll_back_registered
registered-reported p e [] t {z} h =
    let same : empty_report ≡ z = cc in subst (λ x. Perm (reported x) []) same Perm.rfl
registered-reported p e (rb ∷ rbs) t h =
    Perm.trans (roll_back-reported p e (sort_rollbacks (rb ∷ rbs)) empty_report _ h)
      (rw (append-nil _) (Perm.map _ (sort_rollbacks-Perm (rb ∷ rbs))))

-- A compensation phase that is not suspended is complete: its report names each registered rollback,
-- rolled back or failed, as often as it was registered, whatever the handlers do.
pub run_rollbacks-reported :
    (p : Params) (e : Thrown) (t : Tick) {z : CompensationReport}
    → (run_rollbacks p e t).0 ≡ ok z
    → Perm (reported z) (map (λ rb. rb.key) t.rollbacks)
unfolding run_rollbacks
run_rollbacks-reported p e t h = registered-reported p e t.rollbacks t h
