-- ===== src/Redis/Written.antt =====
-- A hash that is written, and where the index lists it.
use bullmq_durable.Base.{String, true, Option, none, some, ◌≡◌, ap, ◌∙◌, or_else}
use mathlib.Core.Path.{subst}
use bullmq_durable.Base.Dict.{lookup}
use bullmq_durable.Types.{InstanceStatus, running}
use bullmq_durable.Redis.{Redis, Hash}
use bullmq_durable.Redis.Lifecycle.{put_hash}
use bullmq_durable.Redis.Matches.{ChangedAt, ChangedAt-insert}
use bullmq_durable.Redis.Refines.Known.{SameData}
use bullmq_durable.Redis.Indexed.{placed, listed, listed_found, is_indexed, Indexed, Stays}

-- The hash of an id that is written, before the index work of the script.
pub ChangedAt-put_hash :
    (id : String) (h : Hash) (r r' : Redis)
    → SameData (put_hash id h r) r'
    → ChangedAt id (some h) r.instances r'.instances
unfolding put_hash
ChangedAt-put_hash id h r r' d name =
    ap (lookup name) d.instances ∙ ChangedAt-insert id h r.instances name

pub listed-known :
    (id : String) (r : Redis) (h : Hash)
    → Indexed r
    → lookup id r.instances ≡ some h
    → listed id h.queue_name h.status r ≡ true
unfolding is_indexed listed_found
listed-known id r h i e = subst (λ o. listed_found id o r ≡ true) e (i id)

pub listed_by :
    (id : String) (q q' : Option String) (st st' : Option InstanceStatus) (r : Redis)
    → q ≡ q'
    → st ≡ st'
    → listed id q' st' r ≡ true
    → listed id q st r ≡ true
listed_by id q q' st st' r eq est h =
    ap (λ x. listed id x st r) eq ∙ (ap (λ x. listed id q' x r) est ∙ h)

pub listed-Stays :
    (id : String) (q : Option String) (st : Option InstanceStatus) (r r' : Redis)
    → Stays id r r'
    → listed id q st r ≡ true
    → listed id q st r' ≡ true
unfolding listed
listed-Stays id none st r r' k h = h
listed-Stays id (some q) st r r' k h = k q (or_else st running) h

pub put_hash-Stays : (name id : String) (h : Hash) (r : Redis) → Stays name r (put_hash id h r)
unfolding placed put_hash
put_hash-Stays name id h r q st x = x
