-- ===== src/Json.antt =====
-- `json.Marshal` of encoding/json on the flat structs that the program publishes: an object with
-- the struct's tags in their order, strings escaped as the package does by default.
use ragkb.Base.{
  ℕ, ℤ, pos, zero, suc, ◌+◌, ◌/◌, ◌%◌, ◌≡◌, refl, String, Bool, true, false, not, ◌&&◌, ◌||◌, List,
  [], ◌∷◌, ◌++◌, ltb, leb, ◌==◌, if◌then◌else◌,
}
use ragkb.Text.{Text, lit}
use ragkb.Text.Decimal.{decimal}

pub data Value : Type 0 where
  text : Text → Value
  number : ℤ → Value
  bool : Bool → Value

-- A lower-case hexadecimal digit.
hex : ℕ → ℕ
hex d = if ltb d 10 then 48 + d else 87 + d

-- What stands for an ASCII byte within a string. The characters of HTML are escaped too.
escape_ascii : ℕ → Text
unfolding hex
escape_ascii c =
    if c == b'"' || c == 92
    then 92 ∷ c ∷ []
    else if c == 8
    then 92 ∷ b'b' ∷ []
    else if c == 12
    then 92 ∷ b'f' ∷ []
    else if c == 10
    then 92 ∷ b'n' ∷ []
    else if c == 13
    then 92 ∷ b'r' ∷ []
    else if c == 9
    then 92 ∷ b't' ∷ []
    else if ltb c 32 || c == b'<' || c == b'>' || c == b'&'
    then 92 ∷ b'u' ∷ b'0' ∷ b'0' ∷ hex (c / 16) ∷ hex (c % 16) ∷ []
    else c ∷ []

is_tail : ℕ → Bool
is_tail c = leb 128 c && ltb c 192

-- The bytes behind the first one in the UTF-8 sequence that begins a text; 0 if it is invalid.
sequence_tail : Text → ℕ
unfolding is_tail
sequence_tail (a ∷ b ∷ c ∷ d ∷ _) =
    if leb 194 a && ltb a 224 && is_tail b
    then 1
    else if leb 224 a
        && ltb a 240
        && is_tail b
        && is_tail c
        && (leb 160 b || not (a == 224))
        && (ltb b 160 || not (a == 237))
    then 2
    else if leb 240 a
        && ltb a 245
        && is_tail b
        && is_tail c
        && is_tail d
        && (leb 144 b || not (a == 240))
        && (ltb b 144 || not (a == 244))
    then 3
    else 0
sequence_tail (a ∷ b ∷ c ∷ []) =
    if leb 194 a && ltb a 224 && is_tail b
    then 1
    else if leb 224 a
        && ltb a 240
        && is_tail b
        && is_tail c
        && (leb 160 b || not (a == 224))
        && (ltb b 160 || not (a == 237))
    then 2
    else 0
sequence_tail (a ∷ b ∷ []) = if leb 194 a && ltb a 224 && is_tail b then 1 else 0
sequence_tail _ = 0

-- U+2028 and U+2029 end a line in JavaScript: the last digit of the code point, else 0.
line_end : Text → ℕ
line_end (a ∷ b ∷ c ∷ _) =
    if a == 226 && b == 128 && c == 168
    then b'8'
    else if a == 226 && b == 128 && c == 169
    then b'9'
    else 0
line_end _ = 0

-- The bytes of a sequence that has begun are copied or dropped.
pub data Mode : Type 0 where
  copy drop : ℕ → Mode

-- What is written for the byte at the head of a text, and how the bytes behind it are met.
escape_head : ℕ → Text → Text × Mode
unfolding escape_ascii sequence_tail line_end
escape_head c cs =
    if ltb c 128
    then (escape_ascii c, copy 0)
    else if sequence_tail (c ∷ cs) == 0
    then (92 ∷ lit "ufffd", copy 0)
    else if line_end (c ∷ cs) == 0
    then (c ∷ [], copy (sequence_tail (c ∷ cs)))
    else (92 ∷ lit "u202" ++ line_end (c ∷ cs) ∷ [], drop 2)

escape_from : Mode → Text → Text
unfolding escape_head
escape_from m [] = []
escape_from (copy zero) (c ∷ cs) = let (out, m) = escape_head c cs in out ++ escape_from m cs
escape_from (copy (suc n)) (c ∷ cs) = c ∷ escape_from (copy n) cs
escape_from (drop (suc n)) (c ∷ cs) = escape_from (drop n) cs
escape_from (drop zero) (c ∷ cs) = let (out, m) = escape_head c cs in out ++ escape_from m cs

marshal_value : Value → Text
unfolding escape_from decimal
marshal_value (text s) = b'"' ∷ escape_from (copy 0) s ++ b'"' ∷ []
marshal_value (number n) = decimal n
marshal_value (bool true) = lit "true"
marshal_value (bool false) = lit "false"

marshal_fields : List (String × Value) → Text
unfolding marshal_value
marshal_fields [] = []
marshal_fields ((tag, v) ∷ []) = b'"' ∷ lit tag ++ b'"' ∷ b':' ∷ marshal_value v
marshal_fields ((tag, v) ∷ f ∷ fs) =
    (b'"' ∷ lit tag ++ b'"' ∷ b':' ∷ marshal_value v) ++ b',' ∷ marshal_fields (f ∷ fs)

unfoldable pub marshal : List (String × Value) → Text
unfolding marshal_fields
marshal fields = b'{' ∷ marshal_fields fields ++ b'}' ∷ []

marshal_sample :
    marshal (("id", number (pos 7)) ∷ ("name", text (lit "a<b\"c")) ∷ ("ok", bool true) ∷ [])
    ≡ lit "{\"id\":7,\"name\":\"a\\u003cb\\\"c\",\"ok\":true}"
unfolding marshal
marshal_sample = refl

-- A valid sequence is copied, a stray byte and U+2028 are escaped.
marshal_unicode :
    escape_from (copy 0) (228 ∷ 184 ∷ 173 ∷ 255 ∷ 226 ∷ 128 ∷ 168 ∷ 33 ∷ [])
    ≡ 228 ∷ 184 ∷ 173 ∷ (92 ∷ lit "ufffd") ++ (92 ∷ lit "u2028") ++ 33 ∷ []
unfolding escape_from
marshal_unicode = refl
