-- ===== src/Memory/Races.antt =====
-- Requests that are served at the same time, on the servers in memory: two completions of one upload,
-- and two users' windows that begin the same upload.
use ragkb.Base.{ℕ, zero, suc, pos, ◌≡◌, some, refl, inl, [], ◌∷◌, ◌++◌, List, length}
use ragkb.Text.{Text, lit, last_index, to_lower}
use ragkb.Service.Documents.Types.{file_ext}
use ragkb.Service.Documents.{publish_ingest}
use ragkb.Fault.{DocumentError, document, wrapped, other}
use ragkb.Action.{ok, err}
use ragkb.Action.Program.{returns}
use ragkb.Action.Program.Pool.{Serving, quiet, arrive, go_on}
use ragkb.Service.Documents.Requests
use ragkb.Service.Documents.Requests.Interleaved.{
  initiates, sends, completes, Turn, arrives, goes_on, interleave, program, interleave-file,
}
use ragkb.Memory.Servers.{service, empty, Servers}
use ragkb.Memory.Tests.{params, merged_notes, sent_both}

times : ℕ → Turn → List Turn
times zero t = []
times (suc n) t = t ∷ times n t

-- One upload with its two parts, which are sent at the same time.
upload : List Turn
unfolding times
upload =
    arrives 0 (initiates params) ∷ times 3 (goes_on 0)
    ++ arrives 1 (sends (pos 5) (pos 1) (pos 0) (pos 2) (lit "abc") (pos 3))
      ∷ arrives 2 (sends (pos 5) (pos 1) (pos 1) (pos 2) (lit "de") (pos 2))
      ∷ goes_on 1
      ∷ goes_on 2
      ∷ goes_on 2
      ∷ goes_on 1
      ∷ goes_on 1
      ∷ goes_on 2
      ∷ []

-- Two completions, both of which join the parts before one of them removes these.
both_complete : List Turn
unfolding upload
both_complete =
    upload
    ++ (arrives 3 (completes (pos 5) (pos 1) (pos 2))
          ∷ arrives 4 (completes (pos 5) (pos 1) (pos 2))
          ∷ times 3 (goes_on 3)
        ++ (times 3 (goes_on 4) ++ (times 4 (goes_on 3) ++ times 4 (goes_on 4))))

raced : Serving Servers
unfolding both_complete interleave arrive go_on program Requests.initiate_upload
    Requests.find_upload Requests.resolve_tenant Requests.start_upload Requests.upload_part
    Requests.owned_doc Requests.complete_upload Requests.complete_found Requests.merge_upload
    Requests.compose_upload Requests.finish_upload service file_ext last_index to_lower
    publish_ingest
raced = interleave service both_complete (quiet empty)

-- Both are answered without an error, and the topic has the event twice.
two_events :
    (length raced.world.producer.log ≡ 2)
    × (raced.left 3 ≡ returns (ok tt))
    × (raced.left 4 ≡ returns (ok tt))
unfolding raced sent_both
two_events = (refl, refl, refl)

-- Where one of them removes the parts before the other joins them, the other is answered by an
-- error, though the document is merged.
late_join : Serving Servers
unfolding raced
late_join =
    interleave service
      (upload
        ++ (arrives 3 (completes (pos 5) (pos 1) (pos 2))
              ∷ arrives 4 (completes (pos 5) (pos 1) (pos 2))
              ∷ times 2 (goes_on 4)
            ++ (times 7 (goes_on 3) ++ times 1 (goes_on 4))))
      (quiet empty)

late_join_fails :
    late_join.left 4
    ≡ returns (
        err (
          wrapped
            (lit "compose merged object: ")
            (other (lit "The specified key does not exist."))))
unfolding late_join
late_join_fails = refl

-- Two windows of a user begin the same upload, and both look for it before one of them makes it.
two_begin : Serving Servers
unfolding raced
two_begin =
    interleave service
      (arrives 0 (initiates params) ∷ arrives 1 (initiates params) ∷ times 2 (goes_on 0)
        ++ (times 2 (goes_on 1) ++ goes_on 0 ∷ goes_on 1 ∷ []))
      (quiet empty)

second_conflicts :
    (two_begin.left 0 ≡ returns (ok tt))
    × (two_begin.left 1 ≡ returns (err (document DocumentError.conflict)))
unfolding two_begin
second_conflicts = (refl, refl)

interleave-file_example :
    (content : Text) × (service.objects.merged raced.world.objects (lit "abc") (lit "notes.MD")
      ≡ some content)
unfolding raced
interleave-file_example =
    interleave-file service both_complete empty (record merged_notes { updated_at = 9 }) refl
      (inl refl) refl
