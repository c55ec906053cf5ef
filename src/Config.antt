-- ===== src/Config.antt =====
-- config/config.go and env_loader.go: the configuration from the environment and the file .env. The
-- environment is a map; the file is the list of its lines as the scanner gives them, if it can be
-- opened. `quote` is the verb %q of fmt.
pub mod Env
pub mod Redact
mod Tests
use Prim.Native.Nat.{ℕ, ◌-◌}
use Prim.Native.Char.{Char}
use Prim.Native.String.{[] as ε, ◌∷◌ as ◌▹◌, len}
use mathlib.Core.Option.{map}
use agentfactory_gateway.Common.{
  String, Bool, true, false, ◌||◌, Option, none, some, List, [], ◌∷◌, ◌++◌, if◌then◌else◌, leb,
  ◌==◌, ◌/=◌,
}
use agentfactory_gateway.Common.Dict.{Dict, lookup, insert}
use agentfactory_gateway.Common.Text.{◌<>◌, concat, join, cut}
use agentfactory_gateway.Common.Strings.{code_is, trim_space, has_prefix, drop_bytes}

-- os.Getenv
unfoldable pub getenv : String → Dict String → String
unfolding lookup
getenv key env = elim (lookup key env) [ none ↦ "" | some v ↦ v ]

-- getEnv
unfoldable pub get_env : String → String → Dict String → String
unfolding getenv
get_env key fallback env = let v = getenv key env in if v /= "" then v else fallback

pub record Config : Type 0 where
  pub slack_bot_token : String
  pub slack_app_token : String
  pub python_bin : String
  pub af_cli_bin : String
  pub af_work_dir : String

unfoldable pub load : Dict String → Config
unfolding get_env
load env = record {
  slack_bot_token = get_env "SLACK_BOT_TOKEN" "" env;
  slack_app_token = get_env "SLACK_APP_TOKEN" "" env;
  python_bin = get_env "PYTHON_BIN" "python3" env;
  af_cli_bin = get_env "AF_CLI_BIN" "" env;
  af_work_dir = get_env "AF_WORK_DIR" "" env;
}

-- the keys that Validate finds missing
unfoldable pub missing : Config → List String
missing c =
    (if c.slack_bot_token == "" then "SLACK_BOT_TOKEN" ∷ [] else [])
    ++ (if c.slack_app_token == "" then "SLACK_APP_TOKEN" ∷ [] else [])

unfoldable pub validate : Config → Option String
unfolding missing join
validate c = elim (missing c) [
  | [] ↦ none
  | key ∷ keys ↦ some ("missing required config: " <> join ", " (key ∷ keys))
]

unfoldable pub redact : String → String
unfolding cut drop_bytes
redact s =
    if s == ""
    then "(empty)"
    else if leb (len s) 8
    then "(redacted)"
    else cut 4 s <> "..." <> elim (drop_bytes (len s - 4) s) [ none ↦ "" | some last ↦ last ]

unfoldable pub show : (String → String) → Config → String
unfolding redact concat
show quote c = concat (
    "Config{SlackBotToken: "
    ∷ quote (redact c.slack_bot_token)
    ∷ ", SlackAppToken: "
    ∷ quote (redact c.slack_app_token)
    ∷ ", PythonBin: "
    ∷ quote c.python_bin
    ∷ ", AFCLIBin: "
    ∷ quote c.af_cli_bin
    ∷ ", AFWorkDir: "
    ∷ quote c.af_work_dir
    ∷ "}"
    ∷ [])

unfoldable pub has_code : ℕ → String → Bool
has_code n ε = false
has_code n (c ▹ s) = code_is n c || has_code n s

-- os.Setenv: whether the call is refused
unfoldable pub is_refused : String → String → Bool
unfolding has_code
is_refused key value = key == "" || has_code b'=' key || has_code 0 key || has_code 0 value

-- strings.SplitN(line, "=", 2), where it gives two parts
unfoldable pub split_equals : String → Option (String × String)
split_equals ε = none
split_equals (c ▹ s) =
    let rest = map (λ (p : String × String). (c ▹ p.0, p.1)) (split_equals s) in
    if code_is b'=' c then some ("", s) else rest

-- the key and the value of a line of .env
unfoldable pub env_entry : String → Option (String × String)
unfolding split_equals trim_space has_prefix
env_entry text =
    let line = trim_space text in
    if has_prefix "#" line || line == ""
    then none
    else map (λ (p : String × String). (trim_space p.0, trim_space p.1)) (split_equals line)

-- if _, exists := os.LookupEnv(key); !exists { os.Setenv(key, val) }
unfoldable pub set_if_unset : String → String → Dict String → Dict String
unfolding is_refused lookup insert
set_if_unset key value env = elim (lookup key env) [
  | some _ ↦ env
  | none ↦ if is_refused key value then env else insert key value env
]

unfoldable pub load_line : String → Dict String → Dict String
unfolding env_entry set_if_unset
load_line text env = elim (env_entry text) [
  | none ↦ env
  | some (key, value) ↦ set_if_unset key value env
]

unfoldable pub load_lines : List String → Dict String → Dict String
unfolding load_line
load_lines [] env = env
load_lines (text ∷ lines) env = load_lines lines (load_line text env)

-- none for a file that cannot be opened
unfoldable pub load_env : Option (List String) → Dict String → Dict String
unfolding load_lines
load_env none env = env
load_env (some lines) env = load_lines lines env
