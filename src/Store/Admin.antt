-- ===== src/Store/Admin.antt =====
-- The reaper and admin primitives of `MemoryStateStore` (store/memory-store.ts).
use bullmq_durable.Base.{
  ℕ, String, Bool, false, not, ◌||◌, ◌&&◌, List, [], ◌∷◌, ◌++◌, map, reverse, leb, ◌=s=◌,
  if◌then◌else◌, or_else, take, drop, length,
}
use bullmq_durable.Base.Dict.{Dict, remove}
use bullmq_durable.Types.{InstanceStatus, is_terminal, same_status}
use bullmq_durable.Store.{Store, InstanceRecord}

unfoldable pub contains : String → List String → Bool
contains k [] = false
contains k (x ∷ xs) = (x =s= k) || contains k xs

-- `set.add(k)`: a set is the list of its elements in insertion order.
unfoldable pub add_to_set : String → List String → List String
unfolding contains
add_to_set k xs = if contains k xs then xs else xs ++ k ∷ []

add_queue_names : Dict InstanceRecord → List String → List String
unfolding add_to_set
add_queue_names [] names = names
add_queue_names ((id, r) ∷ rest) names =
    add_queue_names rest (add_to_set r.instance.queue_name names)

-- `queues`.
unfoldable pub queues : Store → List String
unfolding add_queue_names
queues s = add_queue_names s.records s.registered_queues

-- `registerQueue`.
unfoldable pub register_queue : String → Store → Store
unfolding add_to_set
register_queue queue_name s = record s {
  registered_queues = add_to_set queue_name s.registered_queues;
}

abbrev is_active_of : String → InstanceRecord → Bool
is_active_of queue_name r =
    (r.instance.queue_name =s= queue_name) && not (is_terminal r.instance.status)

active_ids : String → Dict InstanceRecord → List String
active_ids queue_name [] = []
active_ids queue_name ((id, r) ∷ rest) =
    let out = active_ids queue_name rest in if is_active_of queue_name r then id ∷ out else out

-- `listActive`.
unfoldable pub list_active : String → Store → List String
unfolding active_ids
list_active queue_name s = active_ids queue_name s.records

abbrev pub in_bucket : String → InstanceStatus → InstanceRecord → Bool
in_bucket queue_name status r =
    (r.instance.queue_name =s= queue_name) && same_status r.instance.status status

unfoldable pub bucket : String → InstanceStatus → Dict InstanceRecord → Dict InstanceRecord
bucket queue_name status [] = []
bucket queue_name status ((id, r) ∷ rest) =
    let out = bucket queue_name status rest in
    if in_bucket queue_name status r then (id, r) ∷ out else out

-- `.sort((a, b) => (a.terminalAt ?? 0) - (b.terminalAt ?? 0))`, which is stable.
unfoldable pub insert_oldest : String × InstanceRecord → Dict InstanceRecord → Dict InstanceRecord
insert_oldest e [] = e ∷ []
insert_oldest e (f ∷ rest) =
    if leb (or_else e.1.terminal_at 0) (or_else f.1.terminal_at 0)
    then e ∷ f ∷ rest
    else f ∷ insert_oldest e rest

unfoldable pub sort_oldest : Dict InstanceRecord → Dict InstanceRecord
unfolding insert_oldest
sort_oldest [] = []
sort_oldest (e ∷ rest) = insert_oldest e (sort_oldest rest)

-- The whole bucket, oldest first: `listOldestTerminal` with no limit.
unfoldable pub all_terminal : String → InstanceStatus → Store → List String
unfolding bucket sort_oldest
all_terminal queue_name status s = map (λ e. e.0) (sort_oldest (bucket queue_name status s.records))

-- `listOldestTerminal`. `take 0` is the early return.
unfoldable pub list_oldest_terminal : String → InstanceStatus → ℕ → Store → List String
unfolding all_terminal
list_oldest_terminal queue_name status limit s = take limit (all_terminal queue_name status s)

-- `listNewestTerminal`.
unfoldable pub list_newest_terminal : String → InstanceStatus → ℕ → Store → List String
unfolding all_terminal
list_newest_terminal queue_name status limit s =
    take limit (reverse (all_terminal queue_name status s))

-- `listTerminalPage`; `desc` is `query.order === "desc"`.
unfoldable pub list_terminal_page : String → InstanceStatus → ℕ → ℕ → Bool → Store → List String
unfolding all_terminal
list_terminal_page queue_name status offset limit desc s =
    let ordered = all_terminal queue_name status s in
    take limit (drop offset (if desc then reverse ordered else ordered))

-- `countTerminal`.
unfoldable pub count_terminal : String → InstanceStatus → Store → ℕ
unfolding bucket
count_terminal queue_name status s = length (bucket queue_name status s.records)

-- `removeInstances`.
unfoldable pub remove_instances : List String → Store → Store
remove_instances [] s = s
remove_instances (id ∷ ids) s =
    remove_instances ids (record s { records = remove id s.records; locks = remove id s.locks })

ids_of_queue : String → Dict InstanceRecord → List String
ids_of_queue queue_name [] = []
ids_of_queue queue_name ((id, r) ∷ rest) =
    let out = ids_of_queue queue_name rest in
    if r.instance.queue_name =s= queue_name then id ∷ out else out

-- `wipeQueue`.
unfoldable pub wipe_queue : String → Store → Store
unfolding ids_of_queue remove_instances
wipe_queue queue_name s = remove_instances (ids_of_queue queue_name s.records) s

-- `wipeAll`, and `close`.
unfoldable pub wipe_all : Store → Store
wipe_all s = record s { records = []; locks = [] }
