-- ===== src/Infra/Kafka/Consumer/Laws.antt =====
-- At least once: what internal/infra/kafka/consumer.go has done with a message that it commits.
use ragkb.Base.{
  ℕ, zero, suc, ◌≡◌, ◌⊎◌, inl, inr, sym, subst, ◌∙◌, Option, some, none, arith, Bool-cases,
}
use ragkb.Text.{Text}
use ragkb.Fault.{Error, is_canceled}
use ragkb.Action.{
  Result, ok, err, panic, Action, continue, pure, fail, Result-cases, >>=-eq-ok, ◌>>=◌, ◌>>◌,
}
use ragkb.Service.Documents.Ports.{Message}
use ragkb.Infra.Kafka.Consumer.{
  KafkaMessage, Calls, dead_letter, sleep_retry, handle_from, handle_with_retry, publish_dlq,
  settle, commit, fetched_round, round, run,
}

-- What can be seen of a state: the messages that have been handled, the dead letters that have been
-- sent, the messages that have been given to a commit, and how often the handler was called.
pub record View (S : Type 0) : Type 1 where
  pub handled : S → KafkaMessage → Type 0
  pub sent : S → Message → Type 0
  pub committed : S → KafkaMessage → Type 0
  pub calls : S → ℕ

module _ {S : Type 0} (v : View S) where
  -- What was handled or sent stays so, and nothing more is committed.
  pub record Keeps (s s' : S) : Type 0 where
    pub still_handled : (m : KafkaMessage) → v.handled s m → v.handled s' m
    pub still_sent : (l : Message) → v.sent s l → v.sent s' l
    pub no_more : (m : KafkaMessage) → v.committed s' m → v.committed s m

  Keeps-trans : (s t u : S) → Keeps s t → Keeps t u → Keeps s u
  Keeps-trans s t u a b = record {
    still_handled = λ m h. b.still_handled m (a.still_handled m h);
    still_sent = λ l h. b.still_sent l (a.still_sent l h);
    no_more = λ m h. a.no_more m (b.no_more m h);
  }

  Keeps-refl : (s : S) → Keeps s s
  Keeps-refl s = record { still_handled = λ m h. h; still_sent = λ l h. h; no_more = λ m h. h }

  -- A chain of two calls keeps what both keep.
  continue-Keeps :
      {A B : Type 0} (s : S) (p : Result A × S) (next : A → Action S B)
      (failed : Error → Action S B)
      → Keeps s p.1
      → ((a : A) (t : S) → Keeps t (next a t).1)
      → ((e : Error) (t : S) → Keeps t (failed e t).1)
      → Keeps s (continue next failed p).1
  continue-Keeps s (ok a, t) next failed h f g = Keeps-trans s t _ h (f a t)
  continue-Keeps s (err e, t) next failed h f g = Keeps-trans s t _ h (g e t)
  continue-Keeps s (panic x, t) next failed h f g = h

  -- It has been handled, or a dead letter of it was sent.
  abbrev pub Settled : S → KafkaMessage → Type 0
  Settled s m = v.handled s m ⊎ ((cause : Error) × (at : Text) × v.sent s (dead_letter m cause at))

  -- Each message that is committed was settled.
  abbrev pub IsSafe : S → Type 0
  IsSafe s = (m : KafkaMessage) → v.committed s m → Settled s m

  Settled-Keeps : (s t : S) (m : KafkaMessage) → Keeps s t → Settled s m → Settled t m
  Settled-Keeps s t m k (inl h) = inl (k.still_handled m h)
  Settled-Keeps s t m k (inr (cause, at, h)) = inr (cause, at, k.still_sent _ h)

  IsSafe-Keeps : (s t : S) → Keeps s t → IsSafe s → IsSafe t
  IsSafe-Keeps s t k safe m h = Settled-Keeps s t m k (safe m (k.no_more m h))

-- What the libraries' calls do to it.
pub record Watch {S : Type 0} (c : Calls S) (v : View S) : Type 0 where
  pub fetch_keeps : (s : S) → Keeps v s (c.fetch_message s).1
  pub handle_keeps : (m : KafkaMessage) (s : S) → Keeps v s (c.handle m s).1
  pub wait_keeps : (time : ℕ) (s : S) → Keeps v s (c.wait time s).1
  pub write_keeps : (l : Message) (s : S) → Keeps v s (c.write_messages l s).1
  pub handle_ok :
      (m : KafkaMessage) (s s' : S) (u : Unit {0}) → c.handle m s ≡ (ok u, s') → v.handled s' m
  pub write_ok :
      (l : Message) (s s' : S) (u : Unit {0}) → c.write_messages l s ≡ (ok u, s') → v.sent s' l
  -- Whether or not it fails, a commit is one of its message alone.
  pub commit_handled :
      (m k : KafkaMessage) (s : S) → v.handled s k → v.handled (c.commit_messages m s).1 k
  pub commit_sent :
      (m : KafkaMessage) (l : Message) (s : S) → v.sent s l → v.sent (c.commit_messages m s).1 l
  pub commit_only :
      (m k : KafkaMessage) (s : S)
      → v.committed (c.commit_messages m s).1 k
      → (k ≡ m) ⊎ v.committed s k
  pub handle_calls : (m : KafkaMessage) (s : S) → v.calls (c.handle m s).1 ≡ suc (v.calls s)
  pub wait_calls : (time : ℕ) (s : S) → v.calls (c.wait time s).1 ≡ v.calls s

module _ {S : Type 0} (c : Calls S) (v : View S) (w : Watch c v) where
  handle_from-Keeps :
      (msg : KafkaMessage) (i n : ℕ) (last : Option Error) (s : S)
      → Keeps v s (handle_from c msg i n last s).1
  unfolding handle_from sleep_retry
  handle_from-Keeps msg i zero none s = Keeps-refl v s
  handle_from-Keeps msg i zero (some e) s = Keeps-refl v s
  handle_from-Keeps msg i (suc n) last s =
      continue-Keeps v s (c.handle msg s) pure _ (w.handle_keeps msg s) (λ a t. Keeps-refl v t)
        λ e t.
          continue-Keeps v t (sleep_retry c i t) _ fail (w.wait_keeps _ t)
            (λ _ t'. handle_from-Keeps msg (suc i) n (some e) t') (λ _ t'. Keeps-refl v t')

  handle_from-handled :
      (msg : KafkaMessage) (i n : ℕ) (e : Error) (s s' : S) (u : Unit {0})
      → handle_from c msg i n (some e) s ≡ (ok u, s')
      → v.handled s' msg
  unfolding handle_from
  handle_from-handled msg i zero e s s' u h = absurd (ground arith)
  handle_from-handled msg i (suc n) e s s' u h = elim (Result-cases (c.handle msg s).0) [
    | inl (a, done) ↦ w.handle_ok msg s s' a (ground arith)
    | inr (inl (x, failed)) ↦
        let rest : (sleep_retry c i >>= λ _. handle_from c msg (suc i) n (some x))
              (c.handle msg s).1
            ≡ (ok u, s') =
          ground arith in
        let (_, t, _, again) =
          >>=-eq-ok (sleep_retry c i) (λ _. handle_from c msg (suc i) n (some x)) (c.handle msg s).1
            s' u rest in
        handle_from-handled msg (suc i) n x t s' u again
    | inr (inr (x, failed)) ↦ absurd (ground arith)
  ]

  settle-Keeps : (msg : KafkaMessage) (s : S) → Keeps v s (settle c msg s).1
  unfolding settle handle_with_retry publish_dlq
  settle-Keeps msg s =
      continue-Keeps v s (handle_with_retry c msg s) pure _ (handle_from-Keeps msg 0 3 none s)
        (λ _ t. Keeps-refl v t)
        λ e t.
          continue-Keeps v t (publish_dlq c msg e t) pure _ (w.write_keeps _ t)
            (λ _ t'. Keeps-refl v t') (λ _ t'. Keeps-refl v t')

  handle_with_retry-handled :
      (msg : KafkaMessage) (s s' : S) (u : Unit {0})
      → handle_with_retry c msg s ≡ (ok u, s')
      → v.handled s' msg
  unfolding handle_with_retry handle_from
  handle_with_retry-handled msg s s' u h = elim (Result-cases (c.handle msg s).0) [
    | inl (a, done) ↦ w.handle_ok msg s s' a (ground arith)
    | inr (inl (x, failed)) ↦
        let (_, t, _, again) =
          >>=-eq-ok (sleep_retry c 0) (λ _. handle_from c msg 1 2 (some x)) (c.handle msg s).1 s' u
            (ground arith) in
        handle_from-handled msg 1 2 x t s' u again
    | inr (inr (x, failed)) ↦ absurd (ground arith)
  ]

  -- Once `settle` returns no error, the message is settled.
  settle-Settled :
      (msg : KafkaMessage) (s s' : S) (u : Unit {0})
      → settle c msg s ≡ (ok u, s')
      → Settled v s' msg
  unfolding settle publish_dlq
  settle-Settled msg s s' u h =
      let t = (handle_with_retry c msg s).1 in
      elim (Result-cases (handle_with_retry c msg s).0) [
        | inl (a, done) ↦ inl (handle_with_retry-handled msg s s' a (ground arith))
        | inr (inl (x, failed)) ↦ elim (Result-cases (publish_dlq c msg x t).0) [
          | inl (a, done) ↦ inr (x, c.now t, w.write_ok _ t s' a (ground arith))
          | inr (inl (y, lost)) ↦ absurd (ground arith)
          | inr (inr (y, lost)) ↦ absurd (ground arith)
        ]
        | inr (inr (x, failed)) ↦ absurd (ground arith)
      ]

  commit_messages-IsSafe :
      (msg : KafkaMessage) (s : S)
      → IsSafe v s
      → Settled v s msg
      → IsSafe v (c.commit_messages msg s).1
  commit_messages-IsSafe msg s safe settled m done =
      let keeps : (k : KafkaMessage) → Settled v s k → Settled v (c.commit_messages msg s).1 k =
        λ k now. elim now [
          | inl h ↦ inl (w.commit_handled msg k s h)
          | inr (cause, at, h) ↦ inr (cause, at, w.commit_sent msg _ s h)
        ] in
      elim (w.commit_only msg m s done) [
        | inl same ↦ keeps m (subst (Settled v s) (sym same) settled)
        | inr before ↦ keeps m (safe m before)
      ]

  commit-end : (msg : KafkaMessage) (s : S) → (commit c msg s).1 ≡ (c.commit_messages msg s).1
  unfolding commit
  commit-end msg s = elim (Result-cases (c.commit_messages msg s).0) [
    | inl (a, done) ↦ ground arith
    | inr (inl (x, failed)) ↦ ground arith
    | inr (inr (x, failed)) ↦ ground arith
  ]

  -- What follows the fetch of a message, whatever comes of it.
  settle_and_commit-IsSafe :
      (msg : KafkaMessage) (s : S) → IsSafe v s → IsSafe v ((settle c msg >> commit c msg) s).1
  settle_and_commit-IsSafe msg s safe =
      let t = (settle c msg s).1 in
      let kept = IsSafe-Keeps v s t (settle-Keeps msg s) safe in
      elim (Result-cases (settle c msg s).0) [
        | inl (a, done) ↦
            let end : ((settle c msg >> commit c msg) s).1 ≡ (c.commit_messages msg t).1 =
              ground arith ∙ commit-end msg t in
            subst (IsSafe v) (sym end)
              (commit_messages-IsSafe msg t kept (settle-Settled msg s t a (λ i. (done i, t))))
        | inr (inl (x, failed)) ↦ subst (IsSafe v) (ground arith) kept
        | inr (inr (x, failed)) ↦ subst (IsSafe v) (ground arith) kept
      ]

  fetched_round-IsSafe : (s : S) → IsSafe v s → IsSafe v (fetched_round c s).1
  unfolding fetched_round
  fetched_round-IsSafe s safe =
      let t = (c.fetch_message s).1 in
      let kept = IsSafe-Keeps v s t (w.fetch_keeps s) safe in
      elim (Result-cases (c.fetch_message s).0) [
        | inl (msg, got) ↦ subst (IsSafe v) (ground arith) (settle_and_commit-IsSafe msg t kept)
        | inr (inl (x, failed)) ↦ subst (IsSafe v) (ground (arith, Bool-cases (is_canceled x))) kept
        | inr (inr (x, failed)) ↦ subst (IsSafe v) (ground arith) kept
      ]

  round-IsSafe : (s : S) → IsSafe v s → IsSafe v (round c s).1
  unfolding round
  round-IsSafe s safe = elim (Bool-cases (c.waits s)) [
    | inl blocked ↦ rw blocked safe
    | inr returns ↦ rw returns (fetched_round-IsSafe s safe)
  ]

  -- At least once: however many rounds a worker runs and however it ends, by an error of the broker,
  -- by a panic or by its context, each message that it has committed was handled without an error,
  -- or a dead letter with the message was written.
  pub run-IsSafe : (n : ℕ) (s : S) → IsSafe v s → IsSafe v (run c n s).1
  unfolding run
  run-IsSafe zero s safe = safe
  run-IsSafe (suc n) s safe =
      let t = (round c s).1 in
      let kept = round-IsSafe s safe in
      elim (Result-cases (round c s).0) [
        | inl (more, done) ↦ elim (Bool-cases more) [
          | inl on ↦ subst (IsSafe v) (ground arith) (run-IsSafe n t kept)
          | inr off ↦ subst (IsSafe v) (ground arith) kept
        ]
        | inr (inl (x, failed)) ↦ subst (IsSafe v) (ground arith) kept
        | inr (inr (x, failed)) ↦ subst (IsSafe v) (ground arith) kept
      ]
