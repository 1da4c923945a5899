-- ===== src/Bootstrap/Laws.antt =====
-- What the wiring of internal/bootstrap means for uploads and for messages.
use ragkb.Base.{ℕ, ◌*◌, ◌^◌, ◌≡◌, ◌⊎◌, inl, inr, refl, [], arith, ltb_ℤ, Bool-cases}
use ragkb.Fault.{DocumentError, document, not_implemented}
use ragkb.Action.{ok, err, Result-cases}
use ragkb.Config.{Config}
use ragkb.Service.Documents.Types.{InitiateParams}
use ragkb.Service.Documents.{World, initiate_upload}
use ragkb.Infra.Kafka.Consumer.{
  KafkaMessage, Calls, dead_letter, settle, handle_with_retry, handle_from, sleep_retry,
  publish_dlq,
}
use ragkb.Bootstrap.{Clients, new_api, upload_limits, allowed_set, new_worker}

-- Where the configuration allows no extensions, every request for an upload is refused: the list
-- is not filled by default.
pub initiate_upload-no_exts :
    {D R O P K F C : Type 0} (cfg : Config) (k : Clients D R O P K F C) (p : InitiateParams)
    (w : World D R O P K)
    → cfg.upload.allowed_exts ≡ []
    → (e : DocumentError) × (initiate_upload (new_api cfg k).documents p w ≡ (err (document e), w))
      × ((e ≡ DocumentError.file_too_large) ⊎ (e ≡ DocumentError.unsupported_type))
unfolding initiate_upload new_api upload_limits allowed_set
initiate_upload-no_exts cfg k p w nothing =
    elim (Bool-cases (ltb_ℤ (new_api cfg k).documents.limits.max_file_size p.total_size)) [
      | inl large ↦ (DocumentError.file_too_large, ground arith, inl refl)
      | inr fits ↦ (DocumentError.unsupported_type, ground arith, inr refl)
    ]

-- Until the ingest is there, while the context lives, a message is settled only by a dead letter
-- with the message and that cause.
pub settle-new_worker :
    {S : Type 0} (c : Calls S) (msg : KafkaMessage) (s s' : S) (u : Unit {0})
    → ((time : ℕ) (t : S) → (c.wait time t).0 ≡ ok tt)
    → settle (new_worker c) msg s ≡ (ok u, s')
    → (t : S) × (c.write_messages (dead_letter msg not_implemented (c.now t)) t ≡ (ok u, s'))
unfolding settle new_worker handle_with_retry handle_from sleep_retry publish_dlq
settle-new_worker c msg s s' u waits h =
    let s₁ = (c.wait (500 * 2 ^ 0 * 10 ^ 6) s).1 in
    let s₂ = (c.wait (500 * 2 ^ 1 * 10 ^ 6) s₁).1 in
    let s₃ = (c.wait (500 * 2 ^ 2 * 10 ^ 6) s₂).1 in
    let w₁ = waits (500 * 2 ^ 0 * 10 ^ 6) s in
    let w₂ = waits (500 * 2 ^ 1 * 10 ^ 6) s₁ in
    let w₃ = waits (500 * 2 ^ 2 * 10 ^ 6) s₂ in
    let q = c.write_messages (dead_letter msg not_implemented (c.now s₃)) s₃ in
    elim (Result-cases q.0) [
      | inl (v, done) ↦ (s₃, ground arith)
      | inr (inl (e, failed)) ↦ absurd (ground arith)
      | inr (inr (e, failed)) ↦ absurd (ground arith)
    ]
