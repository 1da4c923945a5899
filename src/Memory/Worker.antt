-- ===== src/Memory/Worker.antt =====
-- A worker in memory: its queue, and logs of what it has done. The handler refuses the value "bad".
use ragkb.Base.{
  Bool-cases, Bool, true, false, subst, sym, ℕ, pos, suc, ◌+◌, ◌≡◌, ◌≤◌, refl, List, [], ◌∷◌, inl,
  inr, ◌⊎◌, arith,
}
use ragkb.Text.{lit, ◌==ᵗ◌}
use ragkb.Fault.{other, canceled, is_canceled, not_implemented}
use ragkb.Action.{ok, err, Action}
use ragkb.Service.Documents.Ports.{Message}
use ragkb.Infra.Kafka.Consumer.{
  KafkaMessage, Calls, run, round, fetched_round, settle, commit, handle_with_retry, handle_from,
  sleep_retry, publish_dlq, dead_letter,
}
use ragkb.Bootstrap.{new_worker}
use ragkb.Bootstrap.Laws.{settle-new_worker}
use ragkb.Infra.Kafka.Consumer.Laws.{View, Watch, Keeps, IsSafe, run-IsSafe}
use ragkb.Infra.Kafka.Consumer.Retry.{handle_with_retry-calls}

-- `x` is one of the list.
abbrev IsIn : {A : Type 0} → A → List A → Type 0
IsIn x [] = ⊥
IsIn x (y ∷ ys) = (x ≡ y) ⊎ IsIn x ys

record Worker : Type 0 where
  queue : List KafkaMessage
  done : List KafkaMessage
  letters : List Message
  commits : List KafkaMessage
  tries : ℕ

-- Whether there is no message
abbrev is_empty : List KafkaMessage → Bool
is_empty [] = true
is_empty (m ∷ ms) = false

abbrev fetch_from : List KafkaMessage → Action Worker KafkaMessage
fetch_from [] s = (err canceled, s)
fetch_from (m ∷ ms) s = (ok m, record s { queue = ms })

abbrev handle_bad : Bool → KafkaMessage → Action Worker (Unit {0})
handle_bad true m s = (err (other (lit "parse failed")), record s { tries = suc s.tries })
handle_bad false m s = (ok tt, record s { tries = suc s.tries; done = m ∷ s.done })

unfoldable calls : Calls Worker
calls = record {
  waits = λ s. is_empty s.queue;
  fetch_message = λ s. fetch_from s.queue s;
  commit_messages = λ m s. (ok tt, record s { commits = m ∷ s.commits });
  handle = λ m. handle_bad (m.value ==ᵗ lit "bad") m;
  write_messages = λ l s. (ok tt, record s { letters = l ∷ s.letters });
  wait = λ time s. (ok tt, s);
  now = λ s. lit "2026-01-02T03:04:05Z";
  close_reader = λ s. (ok tt, s);
  close_writer = λ s. (ok tt, s);
}

abbrev view : View Worker
view = record {
  handled = λ s m. IsIn m s.done;
  sent = λ s l. IsIn l s.letters;
  committed = λ s m. IsIn m s.commits;
  calls = λ s. s.tries;
}

fetch_from-Keeps : (ms : List KafkaMessage) (s : Worker) → Keeps view s (fetch_from ms s).1
fetch_from-Keeps [] s = record {
  still_handled = λ m h. h;
  still_sent = λ l h. h;
  no_more = λ m h. h;
}
fetch_from-Keeps (m ∷ ms) s = record {
  still_handled = λ m h. h;
  still_sent = λ l h. h;
  no_more = λ m h. h;
}

handle_bad-Keeps : (b : Bool) (m : KafkaMessage) (s : Worker) → Keeps view s (handle_bad b m s).1
handle_bad-Keeps true m s = record {
  still_handled = λ m h. h;
  still_sent = λ l h. h;
  no_more = λ m h. h;
}
handle_bad-Keeps false m s = record {
  still_handled = λ m h. inr h;
  still_sent = λ l h. h;
  no_more = λ m h. h;
}

handle_bad-tries :
    (b : Bool) (m : KafkaMessage) (s : Worker) → (handle_bad b m s).1.tries ≡ suc s.tries
handle_bad-tries true m s = refl
handle_bad-tries false m s = refl

handle-ok :
    (m : KafkaMessage) (s s' : Worker) (u : Unit {0})
    → calls.handle m s ≡ (ok u, s')
    → IsIn m s'.done
unfolding calls
handle-ok m s s' u h = elim (Bool-cases (m.value ==ᵗ lit "bad")) [
  | inl bad ↦ absurd (ground arith)
  | inr good ↦ let now : s'.done ≡ m ∷ s.done = ground arith in subst (IsIn m) (sym now) (inl refl)
]

write_messages-ok :
    (l : Message) (s s' : Worker) (u : Unit {0})
    → calls.write_messages l s ≡ (ok u, s')
    → IsIn l s'.letters
unfolding calls
write_messages-ok l s s' u h =
    let now : s'.letters ≡ l ∷ s.letters = ground arith in subst (IsIn l) (sym now) (inl refl)

watch : Watch calls view
unfolding calls
watch = record {
  fetch_keeps = λ s. fetch_from-Keeps s.queue s;
  handle_keeps = λ m. handle_bad-Keeps _ m;
  wait_keeps =
      λ time s. record { still_handled = λ m h. h; still_sent = λ l h. h; no_more = λ m h. h };
  write_keeps =
      λ l s. record { still_handled = λ m h. h; still_sent = λ l h. inr h; no_more = λ m h. h };
  handle_ok = handle-ok;
  write_ok = write_messages-ok;
  commit_handled = λ m k s h. h;
  commit_sent = λ m l s h. h;
  commit_only = λ m k s h. h;
  handle_calls = λ m. handle_bad-tries _ m;
  wait_calls = λ time s. refl;
}

abbrev good_message : KafkaMessage
good_message = record {
  topic = lit "ingest";
  partition = pos 0;
  offset = pos 7;
  key = lit "abc";
  value = lit "{}";
}

abbrev bad_message : KafkaMessage
bad_message = record good_message { offset = pos 8; value = lit "bad" }

abbrev waiting : Worker
waiting = record {
  queue = good_message ∷ bad_message ∷ [];
  done = [];
  letters = [];
  commits = [];
  tries = 0;
}

-- Both are committed: the one behind one call of the handler, the other behind three.
both_committed :
    ((run calls 3 waiting).1.commits ≡ bad_message ∷ good_message ∷ [])
    × ((run calls 3 waiting).1.tries ≡ 4)
unfolding calls run round fetched_round settle commit handle_with_retry handle_from sleep_retry
    publish_dlq is_canceled ◌==ᵗ◌
both_committed = (refl, refl)

run-IsSafe_example : IsSafe view (run calls 3 waiting).1
run-IsSafe_example = run-IsSafe calls view watch 3 waiting (λ m h. absurd h)

handle_with_retry-calls_example : (handle_with_retry calls bad_message waiting).1.tries ≤ 3 + 0
handle_with_retry-calls_example = handle_with_retry-calls calls view watch bad_message waiting

settle-new_worker_example :
    (t : Worker) × (calls.write_messages (dead_letter good_message not_implemented (calls.now t)) t
      ≡ (ok tt, (settle (new_worker calls) good_message waiting).1))
unfolding calls settle new_worker handle_with_retry handle_from sleep_retry publish_dlq
settle-new_worker_example =
    settle-new_worker calls good_message waiting (settle (new_worker calls) good_message waiting).1
      tt (λ time t. refl) refl
