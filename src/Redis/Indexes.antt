-- ===== src/Redis/Indexes.antt =====
-- The reads of the index and the removals of `RedisStateStore` (store/redis-store.ts), with
-- what the 0.1.x forms add; `wipeQueue` and `wipeAll` are left out. A sorted set orders its members by score,
-- and those of one score by their bytes. A pipeline runs its commands in order.
use Prim.Native.Nat.{Ordering}
use Prim.Native.String.{compare}
use text.Mathlib.Text.{starts_with}
use bullmq_durable.Base.{
  ℕ, ◌+◌, ◌-◌, ◌*◌, String, ◌+++◌, Bool, true, false, not, ◌&&◌, ◌||◌, List, [], ◌∷◌, ◌++◌, map,
  reverse, filter, ltb, leb, ◌==◌, if◌then◌else◌, take, drop, length,
}
use bullmq_durable.Base.Dict.{Dict, remove}
use bullmq_durable.Types.{InstanceStatus}
use bullmq_durable.Reaper.{terminal_statuses}
use bullmq_durable.Store.Admin.{contains, add_to_set}
use bullmq_durable.Redis.{Redis, remove_active, remove_legacy_active, clear_buckets}

abbrev at_most : Ordering → Bool
at_most Ordering.gt = false
at_most _ = true

-- The order of the members of a sorted set.
unfoldable pub ranks_before : String × ℕ → String × ℕ → Bool
ranks_before (x, m) (y, n) = ltb m n || ((m == n) && at_most (compare x y))

unfoldable pub rank_member : String × ℕ → Dict ℕ → Dict ℕ
rank_member e [] = e ∷ []
rank_member e (f ∷ rest) = if ranks_before e f then e ∷ f ∷ rest else f ∷ rank_member e rest

unfoldable pub ranked : Dict ℕ → Dict ℕ
ranked [] = []
ranked (e ∷ rest) = rank_member e (ranked rest)

-- `ZRANGE key 0 -1` and `ZREVRANGE key 0 -1`.
unfoldable pub zrange : Dict ℕ → List String
zrange z = map (λ e. e.0) (ranked z)

unfoldable pub zrevrange : Dict ℕ → List String
zrevrange z = reverse (zrange z)

-- `id.startsWith(`${queueName}:`)`.
unfoldable pub of_queue : String → String → Bool
of_queue queue_name id = starts_with id (queue_name +++ ":")

-- `[...new Set(ids)]`, after the ids that the set has already.
unfoldable pub distinct : List String → List String → List String
distinct [] seen = seen
distinct (id ∷ ids) seen = distinct ids (add_to_set id seen)

-- `registerQueue`.
unfoldable pub register_queue : String → Redis → Redis
register_queue queue_name r = record r { queues = add_to_set queue_name r.queues }

unfoldable pub with_legacy : List String → List String → List String
with_legacy current [] = current
with_legacy current (id ∷ ids) = distinct (id ∷ ids) (distinct current [])

-- `listActive`.
unfoldable pub list_active : String → Redis → List String
list_active queue_name r =
    with_legacy (r.active queue_name) (filter (of_queue queue_name) r.legacy_active)

unfoldable pub oldest_with : ℕ → List String → List String → List String
oldest_with limit current [] = current
oldest_with limit current (id ∷ ids) = take limit (distinct current (distinct (id ∷ ids) []))

-- `listOldestTerminal`.
unfoldable pub list_oldest_terminal : String → InstanceStatus → ℕ → Redis → List String
list_oldest_terminal queue_name status limit r =
    let current = take limit (zrange (r.done queue_name status)) in
    let legacy = filter (of_queue queue_name) (take (limit * 8) (zrange (r.legacy_done status))) in
    if (limit == 0) || leb limit (length current) then current else oldest_with limit current legacy

-- `listNewestTerminal`.
unfoldable pub list_newest_terminal : String → InstanceStatus → ℕ → Redis → List String
list_newest_terminal queue_name status limit r =
    let current = take limit (zrevrange (r.done queue_name status)) in
    let legacy =
      filter (of_queue queue_name) (take (limit * 8) (zrevrange (r.legacy_done status))) in
    if (limit == 0) || leb limit (length current)
    then current
    else take limit (with_legacy current legacy)

abbrev directed : Bool → Dict ℕ → List String
directed true z = zrevrange z
directed false z = zrange z

-- The page after the queue's own bucket has given `primary`: `offset - primaryTotal` stops at 0.
unfoldable pub page_top_up : ℕ → ℕ → ℕ → List String → List String → List String
page_top_up offset limit total primary [] = primary
page_top_up offset limit total primary (id ∷ ids) =
    primary
    ++ take (limit - length primary)
        (drop (offset - total) (filter (λ x. not (contains x primary)) (id ∷ ids)))

-- `listTerminalPage`; `desc` is `order !== "asc"`.
unfoldable pub list_terminal_page : String → InstanceStatus → ℕ → ℕ → Bool → Redis → List String
list_terminal_page queue_name status offset limit desc r =
    let bucket = r.done queue_name status in
    let primary = take limit (drop offset (directed desc bucket)) in
    let legacy = filter (of_queue queue_name) (directed desc (r.legacy_done status)) in
    if (limit == 0) || leb limit (length primary)
    then primary
    else page_top_up offset limit (length bucket) primary legacy

-- `countTerminal`.
unfoldable pub count_terminal : String → InstanceStatus → Redis → ℕ
count_terminal queue_name status r =
    length (r.done queue_name status)
    + length (filter (of_queue queue_name) (zrange (r.legacy_done status)))

unfoldable pub drop_keys : String → Redis → Redis
drop_keys id r = record r { instances = remove id r.instances; steps = remove id r.steps }

-- The commands of one id.
unfoldable pub remove_instance : String → String → Redis → Redis
remove_instance queue_name id r =
    clear_buckets terminal_statuses queue_name id
      (remove_legacy_active id (remove_active queue_name id (drop_keys id r)))

-- `removeInstances`: the chunks follow one another.
unfoldable pub remove_instances : String → List String → Redis → Redis
remove_instances queue_name [] r = r
remove_instances queue_name (id ∷ ids) r =
    remove_instances queue_name ids (remove_instance queue_name id r)
