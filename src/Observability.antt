-- ===== src/Observability.antt =====
-- internal/observability/log.go: the logger that a mode and a level ask for.
use ragkb.Base.{Bool, true, false, ◌++◌, if◌then◌else◌}
use ragkb.Text.{Text, Unicode, lit, ◌==ᵗ◌}
use ragkb.Text.Quote.{quote}
use ragkb.Fault.{wrapped}
use ragkb.Action.{Action, Result, reading, map_error, ◌>>=◌}

-- What is set of zap.Config, over the levels `L` of zapcore. The rest comes with the preset.
pub record ZapConfig (L : Type 0) : Type 0 where
  -- NewProductionConfig or NewDevelopmentConfig
  pub production : Bool
  -- Whether EncodeLevel is CapitalColorLevelEncoder
  pub colored : Bool
  pub level : L
  pub time_key : Text
  -- Whether EncodeTime is ISO8601TimeEncoder
  pub iso8601_time : Bool

unfoldable pub zap_config : {L : Type 0} → Text → L → ZapConfig L
zap_config mode level =
    let production = mode ==ᵗ lit "prod" in
    record {
      production = production;
      colored = if production then false else true;
      level = level;
      time_key = lit "ts";
      iso8601_time = true;
    }

-- zapcore.ParseLevel and Build, with zap.AddCaller, are parameters.
unfoldable pub new_logger :
    {S L Logger : Type 0}
    → Unicode
    → (Text → Result L)
    → (ZapConfig L → Action S Logger)
    → Text
    → Text
    → Action S Logger
unfolding zap_config
new_logger u parse_level build mode level = do
  l ←
      map_error (wrapped (lit "parse log level " ++ (quote u level ++ lit ": ")))
        (reading (λ _. parse_level level))
  map_error (wrapped (lit "build logger: ")) (build (zap_config mode l))
