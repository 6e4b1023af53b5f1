-- ===== src/Phase/Keys.antt =====
-- How far storage keys tell steps apart (execution/phase.ts).
use text.Mathlib.TextLemmas.{append_cancel_left}
use bullmq_durable.Base.{String, ◌≡◌, ◌+++◌, refl}
use bullmq_durable.Types.{StepPhase, main, compensation, failure}
use bullmq_durable.Phase.{storage_key_for_phase}

-- Within one phase, different steps have different storage keys.
pub storage_key_for_phase_injective :
    (phase : StepPhase) (key key' : String)
    → storage_key_for_phase phase key ≡ storage_key_for_phase phase key'
    → key ≡ key'
unfolding storage_key_for_phase
storage_key_for_phase_injective main key key' e = e
storage_key_for_phase_injective compensation key key' e = append_cancel_left _ key key' e
storage_key_for_phase_injective failure key key' e = append_cancel_left _ key key' e

-- Across phases they may not: a step of the main phase can have the key of a compensation.
main_collides :
    (key : String)
    → storage_key_for_phase main ("__rollback__:" +++ key) ≡ storage_key_for_phase compensation key
unfolding storage_key_for_phase
main_collides key = refl
