-- ===== src/Redis/Indexed.antt =====
-- The index of `RedisStateStore`: each instance stands where its status says, in the active set of
-- its queue or in a done bucket.
use bullmq_durable.Base.{
  ℕ, String, Bool, true, false, ◌&&◌, ◌||◌, Option, none, some, ◌≡◌, refl, ◌∙◌, inl, inr,
  Bool-cases, List, [], ◌∷◌, ◌++◌, ◌=s=◌, if◌then◌else◌, or_else, is_some, arith, eq_iff, eq_refl,
}
use mathlib.Core.Path.{subst}
use bullmq_durable.Base.Dict.{
  Dict, lookup, insert, remove, lookup-insert, lookup-remove, lookup-insert_self,
}
use bullmq_durable.Types.{InstanceStatus, running, is_terminal, same_status}
use bullmq_durable.Store.Admin.{contains, add_to_set}
use bullmq_durable.Redis.{
  Redis, Hash, add_active, remove_active, add_done, remove_done, remove_legacy_done, clear_buckets,
  clear_done_buckets, set_remove,
}
use bullmq_durable.Redis.Matches.{ChangedAt}

abbrev is_member : String → Dict ℕ → Bool
is_member name z = is_some (lookup name z)

-- The id is in the index where an instance of the queue with the status belongs.
unfoldable pub placed : String → String → InstanceStatus → Redis → Bool
unfolding contains
placed id q st r =
    if is_terminal st then is_some (lookup id (r.done q st)) else contains id (r.active q)

-- A hash without a queue is in no index, and one without a status reads as running.
unfoldable pub listed : String → Option String → Option InstanceStatus → Redis → Bool
listed id none st r = false
listed id (some q) st r = placed id q (or_else st running) r

unfoldable pub listed_found : String → Option Hash → Redis → Bool
listed_found id none r = true
listed_found id (some h) r = listed id h.queue_name h.status r

-- The instance of the id, if there is one, has a queue and is in the index where it belongs.
unfoldable pub is_indexed : String → Redis → Bool
is_indexed id r = listed_found id (lookup id r.instances) r

abbrev pub Indexed : Redis → Type 0
Indexed r = (id : String) → is_indexed id r ≡ true

-- What is placed stays placed.
abbrev pub Stays : String → Redis → Redis → Type 0
Stays name r r' =
    (q : String) (st : InstanceStatus) → placed name q st r ≡ true → placed name q st r' ≡ true

pub Stays-trans :
    (name : String) (r r' r'' : Redis) → Stays name r r' → Stays name r' r'' → Stays name r r''
Stays-trans name r r' r'' a b q st h = b q st (a q st h)

contains-append :
    (k x : String) (xs : List String) → contains k (xs ++ x ∷ []) ≡ (contains k xs || (x =s= k))
unfolding contains
contains-append k x [] = ground arith
contains-append k x (y ∷ xs) = ground (arith, contains-append k x xs)

contains-add_to_set :
    (k x : String) (xs : List String) → contains k xs ≡ true → contains k (add_to_set x xs) ≡ true
unfolding add_to_set
contains-add_to_set k x xs h = ground (arith, contains-append k x xs)

contains-add_to_set_self : (k : String) (xs : List String) → contains k (add_to_set k xs) ≡ true
unfolding add_to_set
contains-add_to_set_self k xs = ground (arith, contains-append k k xs, eq_refl k)

contains-set_remove :
    (k x : String) (xs : List String)
    → (x =s= k) ≡ false
    → contains k (set_remove x xs) ≡ contains k xs
unfolding contains set_remove
contains-set_remove k x [] ne = refl
contains-set_remove k x (y ∷ xs) ne = elim (Bool-cases (y =s= x)) [
  | inl e ↦
      rw (e, contains-set_remove k x xs ne) (ground (arith, eq_iff y x, eq_iff y k, eq_iff x k))
  | inr e ↦ rw (e, contains-set_remove k x xs ne) refl
]

same_status_refl : (st : InstanceStatus) → same_status st st ≡ true
same_status_refl InstanceStatus.running = refl
same_status_refl InstanceStatus.yielded = refl
same_status_refl InstanceStatus.compensating = refl
same_status_refl InstanceStatus.completed = refl
same_status_refl InstanceStatus.failed = refl
same_status_refl InstanceStatus.compensation_failed = refl
same_status_refl InstanceStatus.cancelled = refl

if_still {ℓ} :
    {A : Type ℓ} (b : Bool) (f : A → Bool) (x y : A)
    → (f y ≡ true → f x ≡ true)
    → f y ≡ true
    → f (if b then x else y) ≡ true
if_still true f x y k h = k h
if_still false f x y k h = h

-- `placed` at a queue and a status, by what stands there.
placed_from :
    (name q : String) (st : InstanceStatus) (r r' : Redis)
    → (contains name (r.active q) ≡ true → contains name (r'.active q) ≡ true)
    → (is_some (lookup name (r.done q st)) ≡ true → is_some (lookup name (r'.done q st)) ≡ true)
    → placed name q st r ≡ true
    → placed name q st r' ≡ true
unfolding placed
placed_from name q st r r' a d h = elim (Bool-cases (is_terminal st)) [
  | inl e ↦ rw (e) (d (rw (e, placed) at h))
  | inr e ↦ rw (e) (a (rw (e, placed) at h))
]

pub add_active-Stays : (name queue id : String) (r : Redis) → Stays name r (add_active queue id r)
unfolding add_active
add_active-Stays name queue id r q st =
    placed_from name q st r _
      (λ h. if_still (q =s= queue) (contains name) _ _ (contains-add_to_set name id (r.active q)) h)
      (λ h. h)

pub remove_active-Stays :
    (name queue id : String) (r : Redis)
    → (id =s= name) ≡ false
    → Stays name r (remove_active queue id r)
unfolding remove_active
remove_active-Stays name queue id r ne q st =
    placed_from name q st r _
      (λ h.
        if_still (q =s= queue) (contains name) _ _
          (λ c. contains-set_remove name id (r.active q) ne ∙ c) h)
      (λ h. h)

is_some-insert :
    (name id : String) (score : ℕ) (z : Dict ℕ)
    → is_some (lookup name z) ≡ true
    → is_some (lookup name (insert id score z)) ≡ true
is_some-insert name id score z h = rw (lookup-insert id name score z) (ground arith)

pub add_done-Stays :
    (name queue id : String) (status : InstanceStatus) (score : ℕ) (r : Redis)
    → Stays name r (add_done queue status score id r)
unfolding add_done
add_done-Stays name queue id status score r q st =
    placed_from name q st r _ (λ h. h)
      (λ h.
        if_still ((q =s= queue) && same_status st status) (is_member name) _ _
          (is_some-insert name id score (r.done q st)) h)

is_some-remove :
    (name id : String) (z : Dict ℕ)
    → (id =s= name) ≡ false
    → is_some (lookup name z) ≡ true
    → is_some (lookup name (remove id z)) ≡ true
is_some-remove name id z ne h = rw (lookup-remove id name z, ne) h

remove_done-Stays :
    (name queue id : String) (status : InstanceStatus) (r : Redis)
    → (id =s= name) ≡ false
    → Stays name r (remove_legacy_done status id (remove_done queue status id r))
unfolding remove_done remove_legacy_done
remove_done-Stays name queue id status r ne q st =
    placed_from name q st r _ (λ h. h)
      (λ h.
        if_still ((q =s= queue) && same_status st status) (is_member name) _ _
          (is_some-remove name id (r.done q st) ne) h)

clear_buckets-Stays :
    (sts : List InstanceStatus) (name queue id : String) (r : Redis)
    → (id =s= name) ≡ false
    → Stays name r (clear_buckets sts queue id r)
unfolding clear_buckets
clear_buckets-Stays [] name queue id r ne = λ q st h. h
clear_buckets-Stays (s ∷ sts) name queue id r ne =
    Stays-trans name r _ _ (remove_done-Stays name queue id s r ne)
      (clear_buckets-Stays sts name queue id _ ne)

pub clear_done_buckets-Stays :
    (name queue id : String) (r : Redis)
    → (id =s= name) ≡ false
    → Stays name r (clear_done_buckets queue id r)
unfolding clear_done_buckets
clear_done_buckets-Stays name queue id r ne = clear_buckets-Stays _ name queue id r ne

pub add_active-placed :
    (queue id : String) (st : InstanceStatus) (r : Redis)
    → is_terminal st ≡ false
    → placed id queue st (add_active queue id r) ≡ true
unfolding placed add_active
add_active-placed queue id st r e =
    rw (e, eq_refl queue) (contains-add_to_set_self id (r.active queue))

pub add_done-placed :
    (queue id : String) (st : InstanceStatus) (score : ℕ) (r : Redis)
    → is_terminal st ≡ true
    → placed id queue st (add_done queue st score id r) ≡ true
unfolding placed add_done
add_done-placed queue id st score r e =
    rw (e, eq_refl queue, same_status_refl st, lookup-insert_self id score (r.done queue st)) refl

pub listed_found-Stays :
    (name : String) (o : Option Hash) (r r' : Redis)
    → Stays name r r'
    → listed_found name o r ≡ true
    → listed_found name o r' ≡ true
unfolding listed_found listed
listed_found-Stays name none r r' k h = refl
listed_found-Stays name (some h') r r' k h = listed-Stays h'.queue_name h
  where
    listed-Stays :
        (o : Option String) → listed name o h'.status r ≡ true → listed name o h'.status r' ≡ true
    listed-Stays none x = x
    listed-Stays (some q) x = k q (or_else h'.status running) x

-- A call that changes the hash of one id keeps the index right, if it places that id and leaves the
-- others.
pub Indexed-change :
    (id : String) (h : Hash) (r r' : Redis)
    → Indexed r
    → ChangedAt id (some h) r.instances r'.instances
    → ((name : String) → (id =s= name) ≡ false → Stays name r r')
    → listed id h.queue_name h.status r' ≡ true
    → Indexed r'
unfolding is_indexed listed_found
Indexed-change id h r r' i ch keep own name = elim (Bool-cases (id =s= name)) [
  | inl e ↦
      rw (ch name, e) (subst (λ x. listed_found x (some h) r' ≡ true) ((eq_iff id name).0 e) own)
  | inr e ↦
      rw (ch name, e)
        (listed_found-Stays name (lookup name r.instances) r r' (keep name e) (i name))
]
