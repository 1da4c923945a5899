-- ===== src/Memory/Requests.antt =====
-- Requests in memory: bodies are lines of text, and runes are counted as in UTF-8.
use ragkb.Base.{
  ℕ, false, zero, suc, ◌+◌, ◌*◌, ◌≤◌, Bool, ◌&&◌, ◌==◌, leb, ltb, none, [], ◌∷◌, length, pos, arith,
  if◌then◌else◌,
}
use ragkb.Text.{Text, lit}
use ragkb.Fault.{other}
use ragkb.Action.{ok, err}
use ragkb.Handler.Context.{Context, Binding}
use ragkb.Handler.Documents.{InitiateUploadRequest}
use ragkb.Handler.Auth.{Credentials, Runes}

-- The text before the first end of line, and the one behind it.
unfoldable pub line : Text → Text
line [] = []
line (c ∷ cs) = let more = line cs in if c == 10 then [] else c ∷ more

unfoldable pub rest : Text → Text
rest [] = []
rest (c ∷ cs) = let more = rest cs in if c == 10 then cs else more

unfoldable pub binding : {A : Type 0} (valid : A → Bool) → (Text → A) → Binding A valid
binding valid decode = record {
  bind = λ body.
      if valid (decode body) then ok (decode body) else err (other (lit "validation failed"));
  bind_ok = λ body a h. ground arith;
}

abbrev pub credentials : Text → Credentials
credentials body = record { username = line body; password = rest body }

-- How many bytes a rune has behind its first.
more_bytes : ℕ → ℕ
more_bytes c = if ltb c 192 then 0 else if ltb c 224 then 1 else if ltb c 240 then 2 else 3

runes_from : ℕ → Text → ℕ
unfolding more_bytes
runes_from k [] = 0
runes_from zero (c ∷ cs) = suc (runes_from (more_bytes c) cs)
runes_from (suc k) (c ∷ cs) =
    let same = runes_from k cs in
    let next = suc (runes_from (more_bytes c) cs) in if leb 128 c && ltb c 192 then same else next

runes_from-le : (k : ℕ) (s : Text) → runes_from k s ≤ length s
unfolding runes_from
runes_from-le k [] = omega arith
runes_from-le zero (c ∷ cs) = omega (arith, runes_from-le (more_bytes c) cs)
runes_from-le (suc k) (c ∷ cs) = ground (arith, runes_from-le k cs, runes_from-le (more_bytes c) cs)

more_bytes-le : (c : ℕ) → more_bytes c ≤ 3
unfolding more_bytes
more_bytes-le c = ground arith

length-runes_from : (k : ℕ) (s : Text) → length s ≤ 4 * runes_from k s + k
unfolding runes_from
length-runes_from k [] = omega arith
length-runes_from zero (c ∷ cs) =
    omega (arith, length-runes_from (more_bytes c) cs, more_bytes-le c)
length-runes_from (suc k) (c ∷ cs) =
    ground (arith, length-runes_from k cs, length-runes_from (more_bytes c) cs, more_bytes-le c)

unfoldable pub runes : Runes
unfolding runes_from runes_from-le length-runes_from more_bytes more_bytes-le
runes = record {
  count = runes_from 0;
  count_le = λ s. (runes_from-le 0 s, omega (arith, length-runes_from 0 s));
}

abbrev pub request : Text → Context
request body = record {
  header = λ key. [];
  param = λ key. [];
  query = λ key. none;
  body = body;
  content_length = pos (length body);
  values = λ key. none;
}

abbrev pub upload_request : Text → InitiateUploadRequest
upload_request body = record {
  file_md5 = line body;
  file_name = rest body;
  total_size = pos 3;
  total_parts = pos 1;
  tenant_tag = [];
  is_public = false;
}
