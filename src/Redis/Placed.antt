-- ===== src/Redis/Placed.antt =====
-- Every call on `RedisStateStore` keeps the index right.
use bullmq_durable.Base.{
  ℕ, String, true, false, Option, none, some, ◌≡◌, sym, ap, inl, inr, Bool-cases, ◌=s=◌, coalesce,
  arith,
}
use mathlib.Core.Path.{subst}
use bullmq_durable.Types.{InstanceStatus, is_terminal, same_status}
use bullmq_durable.Redis.{
  Redis, add_active, remove_active, remove_legacy_active, add_done, clear_done_buckets,
}
use bullmq_durable.Redis.Lifecycle.{index_move, index_update, changes, index_terminal}
use bullmq_durable.Redis.Indexed.{
  placed, listed, Stays, Stays-trans, add_active-Stays, remove_active-Stays, add_done-Stays,
  clear_done_buckets-Stays, add_active-placed, add_done-placed,
}

-- The moves of the index, on another id and on their own.
remove_legacy_active-Stays :
    (name id : String) (r : Redis) → Stays name r (remove_legacy_active id r)
unfolding placed remove_legacy_active
remove_legacy_active-Stays name id r q st h = h

moved_to_done-Stays :
    (name q id : String) (st : InstanceStatus) (score : ℕ) (r : Redis)
    → (id =s= name) ≡ false
    → Stays name r (add_done q st score id (remove_legacy_active id (remove_active q id r)))
moved_to_done-Stays name q id st score r ne =
    Stays-trans name r (remove_active q id r) _ (remove_active-Stays name q id r ne) (
      Stays-trans name (remove_active q id r) (remove_legacy_active id (remove_active q id r)) _
        (remove_legacy_active-Stays name id _) (add_done-Stays name q id st score _))

pub moved_to_active-Stays :
    (name q id : String) (r : Redis)
    → (id =s= name) ≡ false
    → Stays name r (add_active q id (clear_done_buckets q id r))
moved_to_active-Stays name q id r ne =
    Stays-trans name r (clear_done_buckets q id r) _ (clear_done_buckets-Stays name q id r ne)
      (add_active-Stays name q id _)

index_move-Stays :
    (name id q : String) (new : InstanceStatus) (score : ℕ) (r : Redis)
    → (id =s= name) ≡ false
    → Stays name r (index_move id q new score r)
unfolding index_move
index_move-Stays name id q new score r ne = elim (Bool-cases (is_terminal new)) [
  | inl e ↦ rw (e) (moved_to_done-Stays name q id new score r ne)
  | inr e ↦ rw (e) (moved_to_active-Stays name q id r ne)
]

placed-index_move :
    (id q : String) (new : InstanceStatus) (score : ℕ) (r : Redis)
    → placed id q new (index_move id q new score r) ≡ true
unfolding index_move
placed-index_move id q new score r = elim (Bool-cases (is_terminal new)) [
  | inl e ↦ rw (e, index_move) (add_done-placed q id new score _ e)
  | inr e ↦ rw (e, index_move) (add_active-placed q id new _ e)
]

same_status-eq : (a b : InstanceStatus) → same_status a b ≡ true → a ≡ b
same_status-eq a b h = ground arith

pub index_update-Stays :
    (name id : String) (new old : Option InstanceStatus) (q : Option String) (score : ℕ) (r : Redis)
    → (id =s= name) ≡ false
    → Stays name r (index_update id new old q score r)
unfolding index_update
index_update-Stays name id none old q score r ne = λ q' st h. h
index_update-Stays name id (some new) old none score r ne = λ q' st h. h
index_update-Stays name id (some new) old (some q) score r ne =
    elim (Bool-cases (changes new old)) [
      | inl e ↦ rw (e) (index_move-Stays name id q new score r ne)
      | inr e ↦ rw (e) (λ q' st h. h)
    ]

-- A status that does not change is the old one.
unchanged-eq :
    (new : InstanceStatus) (old : Option InstanceStatus) → changes new old ≡ false → some new ≡ old
unchanged-eq new none h = cc
unchanged-eq new (some old) h = elim (Bool-cases (same_status new old)) [
  | inl e ↦ ap some (same_status-eq new old e)
  | inr e ↦ absurd (cc)
]

pub listed-index_update :
    (id : String) (new old : Option InstanceStatus) (q : Option String) (score : ℕ) (r : Redis)
    → listed id q old r ≡ true
    → listed id q (coalesce new old) (index_update id new old q score r) ≡ true
unfolding index_update listed
listed-index_update id none old q score r h = h
listed-index_update id (some new) old none score r h = cc
listed-index_update id (some new) old (some q) score r h = elim (Bool-cases (changes new old)) [
  | inl e ↦ rw (e) (placed-index_move id q new score r)
  | inr e ↦ rw (e) (subst (λ o. listed id (some q) o r ≡ true) (sym (unchanged-eq new old e)) h)
]

pub index_terminal-Stays :
    (name id : String) (st : InstanceStatus) (q : Option String) (score : ℕ) (r : Redis)
    → (id =s= name) ≡ false
    → Stays name r (index_terminal id st q score r)
unfolding index_terminal
index_terminal-Stays name id st none score r ne = λ q' st' h. h
index_terminal-Stays name id st (some q) score r ne = moved_to_done-Stays name q id st score r ne

pub listed-index_terminal :
    (id : String) (st : InstanceStatus) (old : Option InstanceStatus) (q : Option String)
    (score : ℕ) (r : Redis)
    → is_terminal st ≡ true
    → listed id q old r ≡ true
    → listed id q (some st) (index_terminal id st q score r) ≡ true
unfolding index_terminal listed
listed-index_terminal id st old none score r e h = cc
listed-index_terminal id st old (some q) score r e h = add_done-placed q id st score _ e
