-- ===== src/Infra/Kafka/Consumer/Retry.antt =====
-- How often `handleWithRetry` of internal/infra/kafka/consumer.go calls the handler.
use ragkb.Base.{ℕ, zero, suc, ◌+◌, ◌≡◌, ◌≤◌, inl, inr, Option, some, none, arith}
use ragkb.Fault.{Error}
use ragkb.Action.{ok, err, Result-cases}
use ragkb.Infra.Kafka.Consumer.{KafkaMessage, Calls, sleep_retry, handle_from, handle_with_retry}
use ragkb.Infra.Kafka.Consumer.Laws.{View, Watch}

module _ {S : Type 0} (c : Calls S) (v : View S) (w : Watch c v) where
  sleep_retry-calls : (i : ℕ) (t : S) → v.calls (sleep_retry c i t).1 ≡ v.calls t
  unfolding sleep_retry
  sleep_retry-calls i t = w.wait_calls _ t

  sleep_retry-ok :
      (i : ℕ) (t : S)
      → ((time : ℕ) (t : S) → (c.wait time t).0 ≡ ok tt)
      → (sleep_retry c i t).0 ≡ ok tt
  unfolding sleep_retry
  sleep_retry-ok i t waits = waits _ t

  handle_from-calls :
      (msg : KafkaMessage) (i n : ℕ) (last : Option Error) (s : S)
      → v.calls (handle_from c msg i n last s).1 ≤ n + v.calls s
  unfolding handle_from
  handle_from-calls msg i zero none s = omega arith
  handle_from-calls msg i zero (some e) s = omega arith
  handle_from-calls msg i (suc n) last s =
      let called = w.handle_calls msg s in
      let t = (c.handle msg s).1 in
      let slept = sleep_retry-calls i t in
      elim (Result-cases (c.handle msg s).0) [
        | inl (a, done) ↦ ground arith
        | inr (inl (x, failed)) ↦ elim (Result-cases (sleep_retry c i t).0) [
          | inl (a, woken) ↦
              let again = handle_from-calls msg (suc i) n (some x) (sleep_retry c i t).1 in
              ground arith
          | inr (inl (y, ended)) ↦ ground arith
          | inr (inr (y, ended)) ↦ ground arith
        ]
        | inr (inr (x, failed)) ↦ ground arith
      ]

  -- The handler is called three times at most for each message that is fetched.
  pub handle_with_retry-calls :
      (msg : KafkaMessage) (s : S) → v.calls (handle_with_retry c msg s).1 ≤ 3 + v.calls s
  unfolding handle_with_retry
  handle_with_retry-calls msg s = handle_from-calls msg 0 3 none s

  handle_from-err :
      (msg : KafkaMessage) (i n : ℕ) (last : Option Error) (s s' : S) (e : Error)
      → ((time : ℕ) (t : S) → (c.wait time t).0 ≡ ok tt)
      → handle_from c msg i n last s ≡ (err e, s')
      → v.calls s' ≡ n + v.calls s
  unfolding handle_from
  handle_from-err msg i zero none s s' e waits h = absurd (ground arith)
  handle_from-err msg i zero (some x) s s' e waits h = ground arith
  handle_from-err msg i (suc n) last s s' e waits h =
      let called = w.handle_calls msg s in
      let t = (c.handle msg s).1 in
      let slept = sleep_retry-calls i t in
      elim (Result-cases (c.handle msg s).0) [
        | inl (a, done) ↦ absurd (ground arith)
        | inr (inl (x, failed)) ↦
            let woken = sleep_retry-ok i t waits in
            let rest : handle_from c msg (suc i) n (some x) (sleep_retry c i t).1 ≡ (err e, s') =
              ground arith in
            let again =
              handle_from-err msg (suc i) n (some x) (sleep_retry c i t).1 s' e waits rest in
            ground arith
        | inr (inr (x, failed)) ↦ absurd (ground arith)
      ]

  -- While the context lives, no message is given up before the third call of the handler.
  pub handle_with_retry-err :
      (msg : KafkaMessage) (s s' : S) (e : Error)
      → ((time : ℕ) (t : S) → (c.wait time t).0 ≡ ok tt)
      → handle_with_retry c msg s ≡ (err e, s')
      → v.calls s' ≡ 3 + v.calls s
  unfolding handle_with_retry
  handle_with_retry-err msg s s' e waits h = handle_from-err msg 0 3 none s s' e waits h
