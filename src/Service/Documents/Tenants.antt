-- ===== src/Service/Documents/Tenants.antt =====
-- `resolveTenant` of internal/service/document/document.go: the tenant that an upload is for.
use ragkb.Base.{ℤ, ◌≡◌, ◌≢◌, ◌⊎◌, inl, inr, true, [], arith, Bool-cases}
use ragkb.Text.{Text, ◌==ᵗ◌, ==ᵗ_iff}
use ragkb.Fault.{UserError, is_user}
use ragkb.Action.{ok, Result-cases}
use ragkb.Service.Documents.{DocumentService, World, resolve_tenant}

module _ {R T O P K : Type 0} (s : DocumentService R T O P K) where
  -- A tenant that is resolved is one of the user's: the one that was asked for, or, where none was, the
  -- default. Nothing has changed.
  pub resolve_tenant-ok :
      (owner : ℤ) (asked tag : Text) (w w' : World R T O P K)
      → resolve_tenant s owner asked w ≡ (ok tag, w')
      → (w' ≡ w)
        × (s.tenants.is_in w.tenants owner tag ≡ true)
        × (((asked ≢ []) × (tag ≡ asked))
            ⊎ ((asked ≡ []) × (s.tenants.is_default w.tenants owner tag ≡ true)))
  unfolding resolve_tenant
  resolve_tenant-ok owner asked tag w w' h = elim (Bool-cases (asked ==ᵗ [])) [
    | inl blank ↦ elim (Result-cases (s.tenants.get_primary_tag owner w.tenants)) [
      | inl (found, e) ↦
          let default = s.tenants.get_primary_tag_ok owner w.tenants found e in
          let same : found ≡ tag = ground arith in
          let default' : s.tenants.is_default w.tenants owner tag ≡ true = rw (← same) default in
          (
            ground arith,
            s.tenants.default_is_in owner w.tenants tag default',
            inr ((==ᵗ_iff asked []).0 blank, default'),
          )
      | inr (inl (x, e)) ↦ absurd (ground (arith, Bool-cases (is_user x UserError.not_found)))
      | inr (inr (x, e)) ↦ absurd (ground arith)
    ]
    | inr given ↦ elim (Result-cases (s.tenants.is_member owner asked w.tenants)) [
      | inl (member, e) ↦
          let answer = s.tenants.is_member_ok owner asked w.tenants member e in
          elim (Bool-cases member) [
            | inl is_one ↦
                let same : asked ≡ tag = ground arith in
                (
                  ground arith,
                  rw (← same) (ground arith),
                  inl (λ blank. ground (arith, ==ᵗ_iff asked []), ground arith),
                )
            | inr is_none ↦ absurd (ground arith)
          ]
      | inr (inl (x, e)) ↦ absurd (ground arith)
      | inr (inr (x, e)) ↦ absurd (ground arith)
    ]
  ]
