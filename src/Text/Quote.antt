-- ===== src/Text/Quote.antt =====
-- `%q` of package fmt: a Go string literal for a text.
use ragkb.Base.{ℕ, ◌+◌, ◌-◌, ◌/◌, ◌%◌, ◌||◌, [], ◌∷◌, ◌++◌, ltb, ◌==◌, if◌then◌else◌}
use ragkb.Text.{Text, Unicode, lit, is_ascii}

hex : ℕ → ℕ
hex d = if ltb d 10 then b'0' + d else b'a' + d - 10

-- `appendEscapedRune` on one ASCII character.
escape : ℕ → Text
unfolding hex
escape c =
    if c == b'"' || c == b'\\'
    then b'\\' ∷ c ∷ []
    else if c == 7
    then lit "\\a"
    else if c == 8
    then lit "\\b"
    else if c == 12
    then lit "\\f"
    else if c == 10
    then lit "\\n"
    else if c == 13
    then lit "\\r"
    else if c == 9
    then lit "\\t"
    else if c == 11
    then lit "\\v"
    else if ltb c 32 || c == 127
    then lit "\\x" ++ hex (c / 16) ∷ hex (c % 16) ∷ []
    else c ∷ []

escaped : Text → Text
unfolding escape
escaped [] = []
escaped (c ∷ cs) = escape c ++ escaped cs

unfoldable pub quote : Unicode → Text → Text
unfolding escaped is_ascii
quote u s = if is_ascii s then b'"' ∷ (escaped s ++ b'"' ∷ []) else u.quoted s
