-- ===== src/Config/Env.antt =====
-- config/config.go, env_loader.go: which value of a variable is used, and what a redacted token shows.
use agentfactory_gateway.Common.{
  String, not, ◌&&◌, ◌≡◌, ◌≢◌, ◌↔◌, refl, ap, ◌∙◌, sym, Option, none, some, List, [], ◌∷◌,
  if◌then◌else◌, ◌==◌, ◌/=◌, str_dec, arith,
}
use agentfactory_gateway.Common.Dict.{Dict, lookup, lookup-insert}
use agentfactory_gateway.Config.{
  set_if_unset, getenv, get_env, Config, load, missing, validate, is_refused, env_entry, load_line,
  load_lines, load_env,
}

-- The value of a line for a key, if the line sets it.
abbrev pub entry_value : String → Option (String × String) → Option String
entry_value key none = none
entry_value key (some (k, v)) = if k == key && not (is_refused k v) then some v else none

abbrev pub or_else : Option String → Option String → Option String
or_else (some v) o = some v
or_else none o = o

-- The value of the first line that sets the key.
unfoldable pub first_value : String → List String → Option String
first_value key [] = none
first_value key (text ∷ lines) = or_else (entry_value key (env_entry text)) (first_value key lines)

abbrev pub file_value : String → Option (List String) → Option String
file_value key none = none
file_value key (some lines) = first_value key lines

or_else-none : (o : Option String) → o ≡ or_else o none
or_else-none none = refl
or_else-none (some v) = refl

lookup-set_if_unset :
    (key k v : String) (env : Dict String)
    → lookup key (set_if_unset k v env)
      ≡ or_else (lookup key env) (if k == key && not (is_refused k v) then some v else none)
unfolding set_if_unset
lookup-set_if_unset key k v env = ground (arith, lookup-insert key k v env)

lookup-load_entry :
    (key : String) (o : Option (String × String)) (env : Dict String)
    → lookup key (elim o as (λ x. Dict String) [ none ↦ env | some (k, v) ↦ set_if_unset k v env ])
      ≡ or_else (lookup key env) (entry_value key o)
lookup-load_entry key none env = or_else-none (lookup key env)
lookup-load_entry key (some (k, v)) env = lookup-set_if_unset key k v env

or_else_assoc : (o p q : Option String) → or_else (or_else o p) q ≡ or_else o (or_else p q)
or_else_assoc none p q = refl
or_else_assoc (some v) p q = refl

lookup-load_lines :
    (key : String) (lines : List String) (env : Dict String)
    → lookup key (load_lines lines env) ≡ or_else (lookup key env) (first_value key lines)
unfolding load_lines first_value
lookup-load_lines key [] env = or_else-none (lookup key env)
lookup-load_lines key (text ∷ lines) env =
    lookup-load_lines key lines (load_line text env)
    ∙ ap (λ o. or_else o (first_value key lines))
        (unfold load_line in lookup-load_entry key (env_entry text) env)
    ∙ or_else_assoc (lookup key env) (entry_value key (env_entry text)) (first_value key lines)

lookup-load_env :
    (key : String) (file : Option (List String)) (env : Dict String)
    → lookup key (load_env file env) ≡ or_else (lookup key env) (file_value key file)
unfolding load_env
lookup-load_env key none env = or_else-none (lookup key env)
lookup-load_env key (some lines) env = lookup-load_lines key lines env

-- The value of a variable for the program: the system's, else that of the first line of the file that
-- sets it, else nothing. A variable that the system has as the empty text takes the default.
abbrev pub chosen : String → Option String → String
chosen fallback none = fallback
chosen fallback (some v) = if v == "" then fallback else v

-- get_env after load_env gives the chosen value.
pub get_env-load_env :
    (key fallback : String) (file : Option (List String)) (env : Dict String)
    → get_env key fallback (load_env file env)
      ≡ chosen fallback (or_else (lookup key env) (file_value key file))
unfolding get_env str_dec
get_env-load_env key fallback file env =
    rw (lookup-load_env key file env, get_env, getenv)
      (picked (or_else (lookup key env) (file_value key file)))
  where
    picked :
        (o : Option String)
        → (let v : String = elim o as (λ x. String) [ none ↦ "" | some v ↦ v ] in
            if v /= "" then v else fallback)
          ≡ chosen fallback o
    picked none = refl
    picked (some v) = ground arith

-- A token is given: the system has it and it is not empty, or the system does not have it and the
-- first line of the file that sets it gives it a value that is not empty.
abbrev pub IsGiven : String → Option (List String) → Dict String → Type 0
IsGiven key file env =
    (v : String) × (or_else (lookup key env) (file_value key file) ≡ some v) × (v ≢ "")

chosen-given : (o : Option String) → chosen "" o ≢ "" → (v : String) × (o ≡ some v) × (v ≢ "")
chosen-given none h = absurd (h refl)
chosen-given (some v) h = (v, refl, λ e. h (ground arith))

given-chosen : (o : Option String) (v : String) → o ≡ some v → v ≢ "" → chosen "" o ≢ ""
given-chosen o v found full e = ground arith

validate-full :
    (c : Config) → validate c ≡ none → (c.slack_bot_token ≢ "") × (c.slack_app_token ≢ "")
unfolding validate missing
validate-full c h = (λ e. ground arith, λ e. ground arith)

full-validate : (c : Config) → c.slack_bot_token ≢ "" → c.slack_app_token ≢ "" → validate c ≡ none
unfolding validate missing
full-validate c bot app = ground arith

-- Validate accepts the configuration that Load reads after the file is loaded exactly when both tokens
-- are given.
pub validate-load_env :
    (file : Option (List String)) (env : Dict String)
    → (validate (load (load_env file env)) ≡ none)
      ↔ (IsGiven "SLACK_BOT_TOKEN" file env × IsGiven "SLACK_APP_TOKEN" file env)
unfolding load
validate-load_env file env =
    let c = load (load_env file env) in
    let bot = get_env-load_env "SLACK_BOT_TOKEN" "" file env in
    let app = get_env-load_env "SLACK_APP_TOKEN" "" file env in
    (
      λ h.
          let (b, a) = validate-full c h in
          (
            chosen-given
                (or_else (lookup "SLACK_BOT_TOKEN" env) (file_value "SLACK_BOT_TOKEN" file))
                (λ e. b (bot ∙ e)),
            chosen-given
                (or_else (lookup "SLACK_APP_TOKEN" env) (file_value "SLACK_APP_TOKEN" file))
                (λ e. a (app ∙ e)),
          ),
      λ (b, a).
          full-validate c (λ e. given-chosen _ b.0 b.1 b.2 (sym bot ∙ e))
            (λ e. given-chosen _ a.0 a.1 a.2 (sym app ∙ e)),
    )
