-- ===== src/Infra/Clients.antt =====
-- internal/infra/mysql/client.go, internal/infra/redis/client.go and internal/infra/minio/client.go:
-- clients that are opened and tried out.
use ragkb.Base.{
  ℕ, ℤ, pos, ◌*◌, ◌^◌, ◌≡◌, inl, inr, Bool, true, ◌++◌, arith, Bool-cases, if◌then◌else◌,
}
use ragkb.Text.{Text, Unicode, lit}
use ragkb.Text.Quote.{quote}
use ragkb.Fault.{wrapped}
use ragkb.Action.{ok, Action, pure, map_error, ◌>>=◌, ◌>>◌, Result-cases}
use ragkb.Config.{MySqlConfig, RedisConfig, MinIoConfig}

-- The libraries are not part of the repository. Their calls are parameters over the states `S` of
-- the process and of the servers; contexts end after five seconds, and then a call fails.
pub record Gorm (S : Type 0) : Type 0 where
  pub open_dsn : Text → Action S (Unit {0})
  -- `db.DB()`
  pub sql_db : Action S (Unit {0})
  pub set_max_open_conns : ℤ → S → S
  pub set_max_idle_conns : ℤ → S → S
  -- In nanoseconds
  pub set_conn_max_lifetime : ℕ → S → S
  pub ping_context : Action S (Unit {0})

pub record RedisServer (S : Type 0) : Type 0 where
  pub new_client : Text → Text → ℤ → S → S
  pub ping : Action S (Unit {0})

pub record MinioServer (S : Type 0) : Type 0 where
  pub new_client : MinIoConfig → Action S (Unit {0})
  pub has_bucket : S → Text → Bool
  pub bucket_exists : Text → Action S Bool
  pub make_bucket : Text → Action S (Unit {0})
  pub bucket_exists_ok :
      (name : Text) (s s' : S) (b : Bool)
      → bucket_exists name s ≡ (ok b, s')
      → (b ≡ has_bucket s name) × (s' ≡ s)
  pub make_bucket_ok :
      (name : Text) (s s' : S) (u : Unit {0})
      → make_bucket name s ≡ (ok u, s')
      → has_bucket s' name ≡ true

-- A call that returns nothing and cannot fail.
abbrev pub simply : {S : Type 0} → (S → S) → Action S (Unit {0})
simply f s = (ok tt, f s)

module _ {S : Type 0} where
  unfoldable pub open_mysql : Gorm S → MySqlConfig → Action S (Unit {0})
  open_mysql g cfg = do
    map_error (wrapped (lit "open mysql: ")) (g.open_dsn cfg.dsn)
    map_error (wrapped (lit "get sql.DB: ")) g.sql_db
    simply (g.set_max_open_conns (pos 50))
    simply (g.set_max_idle_conns (pos 10))
    simply (g.set_conn_max_lifetime (3600 * 10 ^ 9))
    map_error (wrapped (lit "ping mysql: ")) g.ping_context

  unfoldable pub open_redis : RedisServer S → RedisConfig → Action S (Unit {0})
  open_redis r cfg = do
    simply (r.new_client cfg.addr cfg.password cfg.db)
    map_error (wrapped (lit "ping redis: ")) r.ping

  -- The bucket is made where it is missing.
  unfoldable pub ensure_bucket : Unicode → MinioServer S → Text → Action S (Unit {0})
  ensure_bucket u m bucket = do
    exists ← map_error (wrapped (lit "check minio bucket: ")) (m.bucket_exists bucket)
    if exists
        then pure tt
        else map_error (wrapped (lit "create minio bucket " ++ (quote u bucket ++ lit ": ")))
            (m.make_bucket bucket)

  unfoldable pub open_minio : Unicode → MinioServer S → MinIoConfig → Action S (Unit {0})
  open_minio u m cfg = do
    map_error (wrapped (lit "create minio client: ")) (m.new_client cfg)
    ensure_bucket u m cfg.bucket

  pub ensure_bucket-ok :
      (u : Unicode) (m : MinioServer S) (bucket : Text) (s s' : S) (x : Unit {0})
      → ensure_bucket u m bucket s ≡ (ok x, s')
      → (m.has_bucket s' bucket ≡ true) × ((m.has_bucket s bucket ≡ true) → s' ≡ s)
  unfolding ensure_bucket
  ensure_bucket-ok u m bucket s s' x h =
      let q = m.bucket_exists bucket s in
      elim (Result-cases q.0) [
        | inl (b, asked) ↦
            let (told, same) = m.bucket_exists_ok bucket s q.1 b (λ i. (asked i, q.1)) in
            elim (Bool-cases b) [
              | inl there ↦ (ground arith, λ _. ground arith)
              | inr missing ↦
                  let p = m.make_bucket bucket q.1 in
                  elim (Result-cases p.0) [
                    | inl (v, made) ↦
                        let end : p.1 ≡ s' = ground arith in
                        (
                          m.make_bucket_ok bucket q.1 s' v (λ i. (made i, end i)),
                          λ there. absurd (ground arith),
                        )
                    | inr (inl (e, failed)) ↦ absurd (ground arith)
                    | inr (inr (e, failed)) ↦ absurd (ground arith)
                  ]
            ]
        | inr (inl (e, failed)) ↦ absurd (ground arith)
        | inr (inr (e, failed)) ↦ absurd (ground arith)
      ]
