-- ===== src/Contention.antt =====
-- scripts/lib/box-contention.mjs: whether a census may start beside what else runs on the box. The
-- stall figure is a number of the language, compared with the ceiling by a parameter.
pub mod Clear
mod Examples
use tflw_tests.Prelude.{
  ℕ, ◌+◌, Bool, ◌&&◌, Option, none, some, List, [], ◌∷◌, ◌++◌, ltb, if◌then◌else◌, Text, codes,
  text_eq,
}

-- One entry of `statsctl tenants`; its queue is what renders and what waits.
pub record Tenant : Type 0 where
  pub id : Text
  pub label : Option Text
  pub class : Text
  pub running : Bool
  pub queue_running : ℕ
  pub queue_pending : ℕ

pub data Reason {ℓ} (Psi : Type ℓ) : Type ℓ where
  renders_in_flight : Text → ℕ → Reason Psi
  tenant_running : Text → Text → Reason Psi
  memory_stall : Psi → Reason Psi
  box_unread : Reason Psi
  statsctl_failed : Reason Psi

pub label_of : Option Text → Text → Text
label_of none id = id
label_of (some label) id = label

pub queue_of : Tenant → ℕ
queue_of t = t.queue_running + t.queue_pending

abbrev pub gpu_render : Text
gpu_render = codes "gpu-render"

-- What a run of statsctl prints as JSON, or an error.
pub data Reading (A : Type 0) : Type 0 where
  unreadable : Reading A
  reading : A → Reading A

module _ (Psi : Type 0) (at_ceiling : Psi → Bool) where
  -- A render counts while it has a queue, any other tenant while it runs.
  pub tenant_reason : Tenant → List (Reason Psi)
  unfolding label_of queue_of
  tenant_reason t =
      if text_eq t.class gpu_render
      then if t.running && ltb 0 (queue_of t)
        then renders_in_flight (label_of t.label t.id) (queue_of t) ∷ []
        else []
      else if t.running
      then tenant_running (label_of t.label t.id) t.class ∷ []
      else []

  pub tenant_reasons : List Tenant → List (Reason Psi)
  unfolding tenant_reason
  tenant_reasons [] = []
  tenant_reasons (t ∷ ts) = tenant_reason t ++ tenant_reasons ts

  pub psi_reason : Option Psi → List (Reason Psi)
  psi_reason none = box_unread ∷ []
  psi_reason (some psi) = if at_ceiling psi then memory_stall psi ∷ [] else []

  -- `decide`: the reasons to refuse. It is ok if there are none.
  pub decide : List Tenant → Option Psi → List (Reason Psi)
  unfolding tenant_reasons psi_reason
  decide tenants psi = tenant_reasons tenants ++ psi_reason psi

  pub decide_read : Reading (List Tenant) → Reading (Option Psi) → List (Reason Psi)
  unfolding decide
  decide_read unreadable check = statsctl_failed ∷ []
  decide_read (reading tenants) unreadable = statsctl_failed ∷ []
  decide_read (reading tenants) (reading psi) = decide tenants psi

  -- `readBox`: on macOS the gate is skipped.
  unfoldable pub read_box : Bool → Reading (List Tenant) → Reading (Option Psi) → List (Reason Psi)
  unfolding decide_read
  read_box darwin tenants check = if darwin then [] else decide_read tenants check
