-- ===== src/Store/Fence.antt =====
-- What the fence on terminal transitions guarantees, and what it leaves open.
use bullmq_durable.Base.{
  ℕ, ◌<◌, String, Option, none, some, Bool, true, false, ◌≡◌, refl, ◌≢◌, ◌∙◌, inl, inr,
  Option-cases, Bool-cases, arith, eq_iff,
}
use bullmq_durable.Base.Dict.{eq_ne, lookup, lookup-insert, lookup-insert_self}
use bullmq_durable.Errors.{Thrown}
use bullmq_durable.Value.{Value}
use bullmq_durable.Types.{
  InstanceState, InstanceStatus, completed, failed, compensation_failed, cancelled,
}
use bullmq_durable.Store.{Store, InstanceRecord, LockRecord, clone_instance}
use bullmq_durable.Store.Instances.{
  get_instance, fenced_out, held_by_other, terminal_transition, complete_instance, fail_instance,
  compensation_failed_instance, cancel_instance,
}

-- The lock of `id` is live and belongs to `token`.
pub record Holds (id token : String) (now : ℕ) (s : Store) : Type 0 where
  pub lock : LockRecord
  pub found : lookup id s.locks ≡ some lock
  pub owned : lock.token ≡ token
  pub live : now < lock.expires_at

pub fenced_out-Holds :
    (id token token' : String) (now : ℕ) (s : Store)
    → Holds id token now s
    → token ≢ token'
    → token' ≢ ""
    → fenced_out id (some token') now s ≡ true
unfolding fenced_out held_by_other
fenced_out-Holds id token token' now s h ne full = ground (
  arith,
  h.found,
  h.owned,
  h.live,
  eq_iff token' "",
  eq_iff token token',
  eq_iff h.lock.token token',
)

-- The four calls that settle an instance, with the lock token that fences them.
pub data Settles : Type 0 where
  completes : Value → Settles
  fails compensation_fails : Thrown → Settles
  cancels : Settles

abbrev pub settle_call : Settles → String → Option String → ℕ → Store → Bool × Store
settle_call (completes output) id token = complete_instance id output token
settle_call (fails e) id token = fail_instance id e token
settle_call (compensation_fails e) id token = compensation_failed_instance id e token
settle_call cancels id token = cancel_instance id token

terminal_transition-fenced_out :
    (id token : String) (apply : InstanceState → InstanceState) (now : ℕ) (s : Store)
    → fenced_out id (some token) now s ≡ true
    → terminal_transition id (some token) apply now s ≡ (false, s)
unfolding terminal_transition
terminal_transition-fenced_out id token apply now s h = ground arith

-- While one token holds the lock, no settling call that carries another, nonempty token succeeds,
-- and the store is left as it was.
pub settle_call-Holds :
    (c : Settles) (id token token' : String) (now : ℕ) (s : Store)
    → Holds id token now s
    → token ≢ token'
    → token' ≢ ""
    → settle_call c id (some token') now s ≡ (false, s)
unfolding complete_instance fail_instance compensation_failed_instance cancel_instance
settle_call-Holds (completes v) id t t' now s h ne full =
    terminal_transition-fenced_out id t' _ now s (fenced_out-Holds id t t' now s h ne full)
settle_call-Holds (fails e) id t t' now s h ne full =
    terminal_transition-fenced_out id t' _ now s (fenced_out-Holds id t t' now s h ne full)
settle_call-Holds (compensation_fails e) id t t' now s h ne full =
    terminal_transition-fenced_out id t' _ now s (fenced_out-Holds id t t' now s h ne full)
settle_call-Holds cancels id t t' now s h ne full =
    terminal_transition-fenced_out id t' _ now s (fenced_out-Holds id t t' now s h ne full)

-- The status that a settling call writes.
abbrev pub settled_status : Settles → InstanceStatus
settled_status (completes v) = completed
settled_status (fails e) = failed
settled_status (compensation_fails e) = compensation_failed
settled_status cancels = cancelled

abbrev pub status_of : Option InstanceState → Option InstanceStatus
status_of none = none
status_of (some i) = some i.status

unfoldable pub get_status : String → Store → Option InstanceStatus
unfolding get_instance clone_instance
get_status id s = status_of (get_instance id s)

pub terminal_transition-free :
    (id : String) (token : Option String) (apply : InstanceState → InstanceState) (now : ℕ)
    (s : Store) (r : InstanceRecord)
    → lookup id s.records ≡ some r
    → fenced_out id token now s ≡ false
    → ((terminal_transition id token apply now s).0 ≡ true)
      × (lookup id (terminal_transition id token apply now s).1.records
          ≡ some (record r { instance = apply r.instance; terminal_at = some now }))
unfolding terminal_transition
terminal_transition-free id token apply now s r found free =
    rw (found, terminal_transition, free) (refl, lookup-insert_self id _ s.records)

get_status-terminal_transition :
    (id : String) (token : Option String) (apply : InstanceState → InstanceState) (now : ℕ)
    (s : Store) (r : InstanceRecord)
    → lookup id s.records ≡ some r
    → fenced_out id token now s ≡ false
    → ((terminal_transition id token apply now s).0 ≡ true)
      × (get_status id (terminal_transition id token apply now s).1
          ≡ some (apply r.instance).status)
unfolding get_status
get_status-terminal_transition id token apply now s r found free =
    let (won, there) = terminal_transition-free id token apply now s r found free in
    (won, ground (arith, there))

-- An unfenced settling call succeeds and writes its status, over a terminal one too.
pub get_status-unfenced :
    (c : Settles) (id : String) (token : Option String) (now : ℕ) (s : Store) (r : InstanceRecord)
    → lookup id s.records ≡ some r
    → fenced_out id token now s ≡ false
    → ((settle_call c id token now s).0 ≡ true)
      × (get_status id (settle_call c id token now s).1 ≡ some (settled_status c))
unfolding complete_instance fail_instance compensation_failed_instance cancel_instance
get_status-unfenced (completes v) id token now s r found free =
    get_status-terminal_transition id token _ now s r found free
get_status-unfenced (fails e) id token now s r found free =
    get_status-terminal_transition id token _ now s r found free
get_status-unfenced (compensation_fails e) id token now s r found free =
    get_status-terminal_transition id token _ now s r found free
get_status-unfenced cancels id token now s r found free =
    get_status-terminal_transition id token _ now s r found free

fenced_out-own :
    (id token : String) (now : ℕ) (s : Store)
    → Holds id token now s
    → fenced_out id (some token) now s ≡ false
unfolding fenced_out held_by_other
fenced_out-own id token now s h =
    ground (arith, h.found, h.owned, h.live, eq_iff token "", eq_iff h.lock.token token)

terminal_transition-others :
    (id other : String) (token : Option String) (apply : InstanceState → InstanceState) (now : ℕ)
    (s : Store)
    → id ≢ other
    → lookup other (terminal_transition id token apply now s).1.records ≡ lookup other s.records
unfolding terminal_transition
terminal_transition-others id other token apply now s ne =
    elim (Option-cases (lookup id s.records)) [
      | inl absent ↦ rw (absent, terminal_transition) refl
      | inr (r, found) ↦ elim (Bool-cases (fenced_out id token now s)) [
        | inl e ↦ rw (found, terminal_transition, e) refl
        | inr e ↦
            rw (found, terminal_transition, e)
              (lookup-insert id other _ s.records ∙ simp (eq_ne id other ne))
      ]
    ]

settle_call-others :
    (c : Settles) (id other : String) (token : Option String) (now : ℕ) (s : Store)
    → id ≢ other
    → lookup other (settle_call c id token now s).1.records ≡ lookup other s.records
unfolding complete_instance fail_instance compensation_failed_instance cancel_instance
settle_call-others (completes v) id other token now s ne =
    terminal_transition-others id other token _ now s ne
settle_call-others (fails e) id other token now s ne =
    terminal_transition-others id other token _ now s ne
settle_call-others (compensation_fails e) id other token now s ne =
    terminal_transition-others id other token _ now s ne
settle_call-others cancels id other token now s ne =
    terminal_transition-others id other token _ now s ne

-- The holder of the lock settles: a settling call with its token on a known instance succeeds and
-- writes the status of that call, over a terminal one too, and leaves every other record as it was.
pub get_status-settle_call :
    (c : Settles) (id token other : String) (now : ℕ) (s : Store) (r : InstanceRecord)
    → Holds id token now s
    → lookup id s.records ≡ some r
    → id ≢ other
    → ((settle_call c id (some token) now s).0 ≡ true)
      × (get_status id (settle_call c id (some token) now s).1 ≡ some (settled_status c))
      × (lookup other (settle_call c id (some token) now s).1.records ≡ lookup other s.records)
get_status-settle_call c id token other now s r holds found ne =
    let (won, status) =
      get_status-unfenced c id (some token) now s r found (fenced_out-own id token now s holds) in
    (won, status, settle_call-others c id other (some token) now s ne)
