-- ===== src/Config/Tests.antt =====
-- Runs of config/config.go and env_loader.go, and each theorem about them at a concrete input.
use agentfactory_gateway.Common.{String, ◌≡◌, refl, some, List, [], ◌∷◌, str_dec, arith}
use agentfactory_gateway.Common.Dict.{Dict, lookup}
use agentfactory_gateway.Common.Strings.{trim_space, has_prefix, after_prefix}
use agentfactory_gateway.Common.Text.{◌<>◌}
use agentfactory_gateway.Config.{get_env, load, redact, load_env}
use agentfactory_gateway.Config.Env.{chosen, or_else, file_value, get_env-load_env}
use agentfactory_gateway.Config.Redact.{redact-shows}

abbrev system : Dict String
system = ("SLACK_BOT_TOKEN", "xoxb-1") ∷ ("PYTHON_BIN", "") ∷ []

abbrev lines : List String
lines =
    "# tokens" ∷ "SLACK_BOT_TOKEN=other" ∷ " SLACK_APP_TOKEN = xapp-1=2 " ∷ "PYTHON_BIN=/opt/python"
    ∷ []

-- The system's value stays, a value may have an equals sign, and an empty system value means the
-- default.
loaded : load (load_env (some lines) system) ≡ record {
  slack_bot_token = "xoxb-1";
  slack_app_token = "xapp-1=2";
  python_bin = "python3";
  af_cli_bin = "";
  af_work_dir = "";
}
unfolding load load_env str_dec trim_space has_prefix after_prefix
loaded = refl

get_env-load_env_example :
    get_env "SLACK_APP_TOKEN" "" (load_env (some lines) system)
    ≡ chosen ""
        (or_else (lookup "SLACK_APP_TOKEN" system) (file_value "SLACK_APP_TOKEN" (some lines)))
get_env-load_env_example = get_env-load_env "SLACK_APP_TOKEN" "" (some lines) system

short : redact "xoxb-123" ≡ "(redacted)"
unfolding redact str_dec
short = refl

shown : redact ("xoxb" <> "-123-" <> "4567") ≡ "xoxb" <> "..." <> "4567"
shown = redact-shows "xoxb" "-123-" "4567" refl refl (omega arith)
