-- ===== src/Bootstrap/Opening.antt =====
-- How `NewAPI` of internal/bootstrap/api.go opens the clients, what it opens beside them, and what
-- `Close` closes.
use ragkb.Base.{◌≡◌, inl, inr, true, List, [], ◌∷◌, arith, if◌then◌else◌}
use ragkb.Text.{Text, Unicode, lit, ◌==ᵗ◌}
use ragkb.Fault.{Error, wrapped}
use ragkb.Action.{ok, Action, attempt, pure, map_error, ◌>>◌, >>=-eq-ok, Result-cases}
use ragkb.Config.{Config}
use ragkb.Infra.Clients.{
  Gorm, RedisServer, MinioServer, open_mysql, open_redis, open_minio, ensure_bucket,
  ensure_bucket-ok,
}

-- What the constructors call, over the states `S` of the process and of the servers.
pub record Openers (S : Type 0) : Type 0 where
  pub gorm : Gorm S
  pub redis : RedisServer S
  pub minio : MinioServer S
  -- The producer's and the Redis client's Close
  pub close_producer : Action S (Unit {0})
  pub close_redis : Action S (Unit {0})

-- gin's mode for that of the log
unfoldable pub gin_mode : Text → Text
gin_mode mode = if mode ==ᵗ lit "prod" then lit "release" else lit "debug"

module _ {S : Type 0} (u : Unicode) (o : Openers S) where
  unfoldable pub open_clients : Config → Action S (Unit {0})
  open_clients cfg = do
    map_error (wrapped (lit "init mysql: ")) (open_mysql o.gorm cfg.mysql)
    map_error (wrapped (lit "init redis: ")) (open_redis o.redis cfg.redis)
    map_error (wrapped (lit "init minio: ")) (open_minio u o.minio cfg.minio)

  -- Their errors are dropped.
  abbrev pub cleanups : List (Action S (Unit {0}))
  cleanups = o.close_producer ∷ o.close_redis ∷ []

abbrev run_all : {S : Type 0} → List (Action S (Unit {0})) → Action S (Unit {0})
run_all [] = pure tt
run_all (m ∷ ms) = attempt m (λ _. run_all ms) (λ _. run_all ms)

unfoldable pub close_api : {S : Type 0} → Unicode → Openers S → Action S (Unit {0})
close_api u o = run_all (cleanups u o)

-- `return fmt.Errorf("...%w", err)` hides no error.
map_error-ok :
    {S A : Type 0} (f : Error → Error) (m : Action S A) (s s' : S) (a : A)
    → map_error f m s ≡ (ok a, s')
    → m s ≡ (ok a, s')
map_error-ok f m s s' a h = elim (Result-cases (m s).0) [
  | inl (b, done) ↦ ground arith
  | inr (inl (e, failed)) ↦ absurd (ground arith)
  | inr (inr (e, failed)) ↦ absurd (ground arith)
]

module _ {S : Type 0} (u : Unicode) (o : Openers S) (cfg : Config) (s s' : S) (x : Unit {0}) where
  -- An API whose clients could be opened has its bucket.
  pub open_clients-has_bucket :
      open_clients u o cfg s ≡ (ok x, s') → o.minio.has_bucket s' cfg.minio.bucket ≡ true
  unfolding open_clients open_minio
  open_clients-has_bucket h =
      let mysql = map_error (wrapped (lit "init mysql: ")) (open_mysql o.gorm cfg.mysql) in
      let redis = map_error (wrapped (lit "init redis: ")) (open_redis o.redis cfg.redis) in
      let connect =
        map_error (wrapped (lit "create minio client: ")) (o.minio.new_client cfg.minio) in
      let ensure = ensure_bucket u o.minio cfg.minio.bucket in
      let minio = map_error (wrapped (lit "init minio: ")) (connect >> ensure) in
      let (_, t₁, _, rest) = >>=-eq-ok mysql (λ _. redis >> minio) s s' x h in
      let (_, t₂, _, last) = >>=-eq-ok redis (λ _. minio) t₁ s' x rest in
      let opened = map_error-ok (wrapped (lit "init minio: ")) (connect >> ensure) t₂ s' x last in
      let (_, t₃, _, ensured) = >>=-eq-ok connect (λ _. ensure) t₂ s' x opened in
      (ensure_bucket-ok u o.minio cfg.minio.bucket t₃ s' x ensured).0
