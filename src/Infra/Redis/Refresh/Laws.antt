-- ===== src/Infra/Redis/Refresh/Laws.antt =====
-- internal/infra/redis/refresh_token_store.go as the store that the auth service relies on.
use ragkb.Base.{ℤ, ◌≡◌, inl, inr, refl, Bool, true, false, arith, if◌then◌else◌}
use ragkb.Text.{Text, ◌==ᵗ◌}
use ragkb.Action.{ok, Result-cases}
use ragkb.Infra.Redis.{Keys}
use ragkb.Infra.Redis.Refresh.{refresh_key, save, exists, revoke}
use ragkb.Service.Auth.Ports.{RefreshStore}

-- Two tokens share a key only if their identifiers are the same.
refresh_key-eq : (a b : Text) → (refresh_key a ==ᵗ refresh_key b) ≡ (a ==ᵗ b)
unfolding refresh_key ◌==ᵗ◌
refresh_key-eq a b = refl

module _ {S : Type 0} (r : Keys S) where
  pub save-ok :
      (jti : Text) (user ttl : ℤ) (s s' : S) (u : Unit {0})
      → save r jti user ttl s ≡ (ok u, s')
      → (k : Text)
      → r.has_key s' (refresh_key k) ≡ (if jti ==ᵗ k then true else r.has_key s (refresh_key k))
  unfolding save
  save-ok jti user ttl s s' u h k =
      rw (← refresh_key-eq jti k) (r.set_ok (refresh_key jti) user ttl s s' u h (refresh_key k))

  pub exists-ok :
      (jti : Text) (s : S) (b : Bool) → exists r jti s ≡ ok b → b ≡ r.has_key s (refresh_key jti)
  unfolding exists
  exists-ok jti s b h = elim (Result-cases (r.exists (refresh_key jti) s)) [
    | inl (n, counted) ↦ ground (arith, r.exists_ok (refresh_key jti) s n counted)
    | inr (inl (x, failed)) ↦ absurd (ground arith)
    | inr (inr (x, failed)) ↦ absurd (ground arith)
  ]

  pub revoke-ok :
      (jti : Text) (s s' : S) (u : Unit {0})
      → revoke r jti s ≡ (ok u, s')
      → (k : Text)
      → r.has_key s' (refresh_key k) ≡ (if jti ==ᵗ k then false else r.has_key s (refresh_key k))
  unfolding revoke
  revoke-ok jti s s' u h k =
      rw (← refresh_key-eq jti k) (r.del_ok (refresh_key jti) s s' u h (refresh_key k))

  unfoldable pub refresh_store : RefreshStore S
  refresh_store = record {
    is_live = λ s jti. r.has_key s (refresh_key jti);
    save = save r;
    exists = exists r;
    revoke = revoke r;
    save_ok = save-ok;
    exists_ok = exists-ok;
    revoke_ok = revoke-ok;
  }
