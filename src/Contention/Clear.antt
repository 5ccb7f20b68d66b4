-- ===== src/Contention/Clear.antt =====
-- When the gate is clear.
use tflw_tests.Prelude.{
  ◌+◌, ◌≡◌, refl, ap, ◌↔◌, inl, inr, Bool, true, false, not, ◌&&◌, ◌||◌, Option, none, some, List,
  [], ◌∷◌, ◌++◌, arith, ltb, ◌==◌, Bool-cases, all, text_eq,
}
use tflw_tests.Contention.{
  Tenant, queue_of, gpu_render, Reading, unreadable, reading, tenant_reason, tenant_reasons,
  psi_reason, decide, decide_read, read_box,
}

-- The tenant holds nothing that a census would measure.
abbrev pub is_quiet : Tenant → Bool
is_quiet t =
    not t.running || text_eq t.class gpu_render && (t.queue_running == 0) && (t.queue_pending == 0)

append-nil : {A : Type 0} (xs ys : List A) → xs ++ ys ≡ [] → (xs ≡ []) × (ys ≡ [])
append-nil [] ys h = (refl, h)
append-nil (x ∷ xs) ys h = cc h

module _ (Psi : Type 0) (at_ceiling : Psi → Bool) where
  tenant_reason-quiet : (t : Tenant) → tenant_reason Psi at_ceiling t ≡ [] → is_quiet t ≡ true
  unfolding tenant_reason queue_of
  tenant_reason-quiet t h = elim (Bool-cases t.running) [
    | inr r ↦ rw r refl
    | inl r ↦ elim (Bool-cases (text_eq t.class gpu_render)) [
      | inr c ↦ cc (rw (c, r) at h)
      | inl c ↦ elim (Bool-cases (ltb 0 (t.queue_running + t.queue_pending))) [
        | inl q ↦ cc (rw (c, r, q) at h)
        | inr q ↦ rw (r, c) (ground arith)
      ]
    ]
  ]

  quiet-tenant_reason : (t : Tenant) → is_quiet t ≡ true → tenant_reason Psi at_ceiling t ≡ []
  unfolding tenant_reason queue_of
  quiet-tenant_reason t h = elim (Bool-cases t.running) [
    | inr r ↦ elim (Bool-cases (text_eq t.class gpu_render)) [
      | inl c ↦ rw (c, r) refl
      | inr c ↦ rw (c, r) refl
    ]
    | inl r ↦ elim (Bool-cases (text_eq t.class gpu_render)) [
      | inr c ↦ cc (rw (r, c) at h)
      | inl c ↦ elim (Bool-cases (ltb 0 (t.queue_running + t.queue_pending))) [
        | inl q ↦ absurd (busy t (rw (r, c) at h) q)
        | inr q ↦ rw (c, r, q) refl
      ]
    ]
  ]
    where
      busy :
          (t : Tenant)
          → ((t.queue_running == 0) && (t.queue_pending == 0)) ≡ true
          → ltb 0 (t.queue_running + t.queue_pending) ≡ true
          → ⊥
      busy t k q = ground arith

  tenant_reasons-quiet :
      (ts : List Tenant) → tenant_reasons Psi at_ceiling ts ≡ [] → all is_quiet ts ≡ true
  unfolding tenant_reasons
  tenant_reasons-quiet [] h = refl
  tenant_reasons-quiet (t ∷ ts) h =
      let (here, more) =
        append-nil (tenant_reason Psi at_ceiling t) (tenant_reasons Psi at_ceiling ts) h in
      rw (tenant_reason-quiet t here) (tenant_reasons-quiet ts more)

  quiet-tenant_reasons :
      (ts : List Tenant) → all is_quiet ts ≡ true → tenant_reasons Psi at_ceiling ts ≡ []
  unfolding tenant_reasons
  quiet-tenant_reasons [] h = refl
  quiet-tenant_reasons (t ∷ ts) h =
      rw (quiet-tenant_reason t (ground arith)) (quiet-tenant_reasons ts (ground arith))

  -- statsctl answers, no tenant renders or runs, and the stall figure is there and below the ceiling.
  pub record IsClear (tenants : Reading (List Tenant)) (check : Reading (Option Psi)) : Type 0 where
    pub listed : List Tenant
    pub stall : Psi
    pub tenants_read : tenants ≡ reading listed
    pub check_read : check ≡ reading (some stall)
    pub no_tenant : all is_quiet listed ≡ true
    pub no_stall : at_ceiling stall ≡ false

  psi_reason-none :
      (o : Option Psi)
      → psi_reason Psi at_ceiling o ≡ []
      → (psi : Psi) × (o ≡ some psi) × (at_ceiling psi ≡ false)
  unfolding psi_reason
  psi_reason-none none h = cc h
  psi_reason-none (some psi) h = elim (Bool-cases (at_ceiling psi)) [
    | inl e ↦ cc (rw e at h)
    | inr e ↦ (psi, refl, e)
  ]

  decide_read-IsClear :
      (tenants : Reading (List Tenant)) (check : Reading (Option Psi))
      → decide_read Psi at_ceiling tenants check ≡ []
      → IsClear tenants check
  unfolding decide_read decide
  decide_read-IsClear unreadable check h = cc h
  decide_read-IsClear (reading ts) unreadable h = cc h
  decide_read-IsClear (reading ts) (reading o) h =
      let (quiet, low) =
        append-nil (tenant_reasons Psi at_ceiling ts) (psi_reason Psi at_ceiling o) h in
      let (psi, e, below) = psi_reason-none o low in
      record {
        listed = ts;
        stall = psi;
        tenants_read = refl;
        check_read = ap reading e;
        no_tenant = tenant_reasons-quiet ts quiet;
        no_stall = below;
      }

  IsClear-decide_read :
      (tenants : Reading (List Tenant)) (check : Reading (Option Psi))
      → IsClear tenants check
      → decide_read Psi at_ceiling tenants check ≡ []
  unfolding decide_read decide psi_reason
  IsClear-decide_read tenants check h =
      rw (h.tenants_read, h.check_read, quiet-tenant_reasons h.listed h.no_tenant, h.no_stall) refl

  -- Off macOS the gate gives no reason to refuse exactly if statsctl answers both questions, no
  -- tenant holds the box, and the stall figure is there and below the ceiling.
  pub read_box-IsClear :
      (tenants : Reading (List Tenant)) (check : Reading (Option Psi))
      → (read_box Psi at_ceiling false tenants check ≡ []) ↔ IsClear tenants check
  unfolding read_box
  read_box-IsClear tenants check =
      (decide_read-IsClear tenants check, IsClear-decide_read tenants check)
