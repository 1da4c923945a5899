-- ===== src/Memory/Servers.antt =====
-- Redis, MinIO, Kafka and the tenants in memory, and the document service on all of them.
use ragkb.Base.{
  ◌∙◌, ℕ, ℤ, pos, ◌≡◌, Bool, true, false, Option, none, some, List, [], ◌∷◌, ◌++◌, arith, length,
  if◌then◌else◌, pos_part, inl, inr, Option-cases, Bool-cases,
}
use ragkb.Text.{Text, Unicode, lit, ◌==ᵗ◌, ==ᵗ_refl}
use ragkb.Text.Decimal.{decimal}
use ragkb.Fault.{UserError, user, other, is_record_not_found, is_duplicate_key}
use ragkb.Action.{Result, ok, err, Action}
use ragkb.Domain.Document.{Document}
use ragkb.Domain.User.{TenantRepo}
use ragkb.Infra.Mysql.Documents
use ragkb.Infra.Mysql.Documents.{
  get_by_id, get_by_id_any, get_by_md5_and_owner, or_not_found, list_by_owner, offset, mark_merged,
  soft_delete,
}
use ragkb.Infra.Mysql.Documents.Laws.{document_repo}
use ragkb.Infra.Redis.{Redis, bit_after, expiry_after}
use ragkb.Infra.Redis.Progress.{
  progress_key, mark_part, uploaded_from, uploaded_parts, all_uploaded, clear,
}
use ragkb.Infra.Redis.Progress.Laws.{upload_progress}
use ragkb.Infra.Minio.{
  Minio, Location, is_at, contents, part_key, merged_key, put_part, sources, compose,
  compose_merged, remove_from, remove_parts,
}
use ragkb.Infra.Minio.Laws.{object_store}
use ragkb.Infra.Kafka.{Writer, publish, event_publisher}
use ragkb.Service.Documents.Ports.{Message}
use ragkb.Service.Documents.{DocumentService, World}
use ragkb.Memory.Table.{table, no_case}

pub record Bits : Type 0 where
  pub bit : Text → ℕ → Bool
  pub expiry : Text → Option ℕ

unfoldable pub redis : Redis Bits
redis = record {
  bit = λ s. s.bit;
  expiry = λ s. s.expiry;
  get_bit = λ k i s. ok (if s.bit k (pos_part i) then pos 1 else pos 0);
  exec = λ cs s. (
    ok tt,
    record {
      bit = λ k i. bit_after cs k i (s.bit k i);
      expiry = λ k. expiry_after cs k (s.expiry k);
    },
  );
  del = λ key s. (
    ok tt,
    record {
      bit = λ k i. if key ==ᵗ k then false else s.bit k i;
      expiry = λ k. if key ==ᵗ k then none else s.expiry k;
    },
  );
  get_bit_ok = λ k i s b h. ground arith;
  exec_ok = λ cs s s' u h k. (λ i. ground arith, ground arith);
  del_ok = λ key s s' u h k. (λ i. ground arith, ground arith);
}

abbrev pub Objects : Type 0
Objects = Location → Option Text

compose_object : Location → List Location → Action Objects ℤ
compose_object dst srcs s = elim (contents s srcs) [
  | none ↦ (err (other (lit "The specified key does not exist.")), s)
  | some content ↦ (ok (pos (length content)), λ k. if is_at dst k then some content else s k)
]

compose_object-ok :
    (dst : Location) (srcs : List Location) (s s' : Objects) (size : ℤ)
    → compose_object dst srcs s ≡ (ok size, s')
    → (content : Text) × (contents s srcs ≡ some content)
      × (size ≡ pos (length content))
      × ((k : Location) → s' k ≡ (if is_at dst k then some content else s k))
unfolding compose_object
compose_object-ok dst srcs s s' size h = elim (Option-cases (contents s srcs)) [
  | inl missing ↦ absurd (ground arith)
  | inr (content, e) ↦ (content, e, ground arith, λ k. ground arith)
]

compose_object-any :
    (dst : Location) (srcs : List Location) (s : Objects) (k : Location) (x : Text)
    → s k ≡ some x
    → (y : Text) × ((compose_object dst srcs s).1 k ≡ some y)
unfolding compose_object
compose_object-any dst srcs s k x h = elim (Option-cases (contents s srcs)) [
  | inl missing ↦ (x, ground arith)
  | inr (content, e) ↦ elim (Bool-cases (is_at dst k)) [
    | inl here ↦ (content, ground arith)
    | inr there ↦ (x, ground arith)
  ]
]

is_at-refl : (l : Location) → is_at l l ≡ true
is_at-refl l = ground (arith, ==ᵗ_refl l.bucket, ==ᵗ_refl l.object)

remove_object-ok :
    (l : Location) (s s' : Objects) (u : Unit {0})
    → ◌≡◌ {A = Result (Unit {0}) × Objects} (ok tt, λ k. if is_at l k then none else s k) (ok u, s')
    → s' l ≡ none
remove_object-ok l s s' u h = ground (arith, is_at-refl l)

unfoldable pub minio : Minio Objects
unfolding compose_object compose_object-any compose_object-ok remove_object-ok is_at-refl
minio = record {
  object = λ s. s;
  put_object = λ l content size s. (ok tt, λ k. if is_at l k then some content else s k);
  compose_object = compose_object;
  remove_object = λ l s. (ok tt, λ k. if is_at l k then none else s k);
  put_object_ok = λ l content s s' u h k. ground arith;
  compose_object_ok = compose_object-ok;
  put_object_other = λ l k content size s h. rw h;
  compose_object_any = compose_object-any;
  remove_object_ok = remove_object-ok;
  remove_object_other = λ l k s h. rw h;
}

-- A topic, and whether its brokers can be reached.
pub record Topic : Type 0 where
  pub log : List Message
  pub up : Bool

unfoldable pub writer : Writer Topic
writer = record {
  log = λ s. s.log;
  write_messages = λ m s.
      if s.up
      then (ok tt, record s { log = s.log ++ m ∷ [] })
      else (err (other (lit "dial tcp: connection refused")), s);
  write_messages_ok = λ m s s' u h. ground arith;
}

-- Each user belongs to the tenant "team", by default.
unfoldable pub tenants : TenantRepo (Unit {0})
tenants = record {
  collation = no_case;
  is_in = λ s owner tag. no_case.same (lit "team") tag;
  is_default = λ s owner tag. no_case.same (lit "team") tag;
  create_with_membership = λ tenant primary s. (err (user UserError.conflict), s);
  set_primary = λ owner tag s.
      if no_case.same (lit "team") tag then (ok tt, s) else (err (user UserError.not_found), s);
  list_by_user = λ owner s. ok [];
  get_primary_tag = λ owner s. ok (lit "team");
  is_member = λ owner tag s. ok (no_case.same (lit "team") tag);
  is_member_ok = λ owner tag s b h. ground arith;
  get_primary_tag_ok = λ owner s tag h. ground (arith, no_case.same_refl (lit "team"));
  default_is_in = λ owner s tag h. h;
  create_default_ok = λ tenant s s' u h tag. absurd (ground arith);
  set_primary_ok = λ owner tag s s' u h. (
    ground arith,
    λ tag' there.
        no_case.same_trans tag' (lit "team") tag (no_case.same_sym tag' (lit "team") ∙ there)
          (ground arith),
  );
}

abbrev pub ascii : Unicode
ascii = record { lower = λ s. s; trim = λ s. s; trim_right = λ s. s; quoted = λ s. s }

-- Files up to 100 bytes with the extensions pdf and md.
unfoldable pub service : DocumentService (List Document) (Unit {0}) Objects Bits Topic
unfolding document_repo table tenants object_store minio upload_progress redis event_publisher
    writer publish Documents.create get_by_id get_by_id_any get_by_md5_and_owner or_not_found
    list_by_owner offset mark_merged soft_delete is_record_not_found is_duplicate_key part_key
    merged_key put_part sources compose compose_merged remove_from remove_parts progress_key
    mark_part uploaded_from uploaded_parts all_uploaded clear decimal ◌==ᵗ◌
service = record {
  docs = document_repo ascii no_case table;
  tenants = tenants;
  objects = object_store minio (lit "ragkb");
  progress = upload_progress redis;
  producer = event_publisher writer;
  limits = record {
    max_file_size = pos 100;
    allowed_exts = λ ext. if ext ==ᵗ lit "pdf" then true else ext ==ᵗ lit "md";
  };
  unicode = ascii;
}

abbrev pub Servers : Type 0
Servers = World (List Document) (Unit {0}) Objects Bits Topic

abbrev pub empty : Servers
empty = record {
  docs = [];
  tenants = tt;
  objects = λ l. none;
  progress = record { bit = λ k i. false; expiry = λ k. none };
  producer = record { log = []; up = true };
}
