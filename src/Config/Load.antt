-- ===== src/Config/Load.antt =====
-- internal/config/load.go: reading the configuration file.
use ragkb.Base.{◌++◌}
use ragkb.Text.{Text, Unicode, lit}
use ragkb.Text.Quote.{quote}
use ragkb.Fault.{wrapped}
use ragkb.Action.{Action, Result, reading, map_error, ◌>>=◌}
use ragkb.Config.{Config}

-- os.ReadFile on the states `S` of the file system, and yaml.Unmarshal, are parameters.
unfoldable pub load :
    {S : Type 0}
    → Unicode
    → (Text → S → Result Text)
    → (Text → Result Config)
    → Text
    → Action S Config
load u read_file unmarshal path = do
  content ←
      map_error (wrapped (lit "read config file " ++ (quote u path ++ lit ": ")))
        (reading (read_file path))
  map_error (wrapped (lit "parse config yaml: ")) (reading (λ _. unmarshal content))
