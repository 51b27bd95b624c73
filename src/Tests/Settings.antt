-- ===== src/Tests/Settings.antt =====
-- An example of the configuration's theorem, and of the reading of the environment.
use goshorty.Prelude.{String, ◌≡◌, refl, Option, some, none, [], ◌∷◌, ok, str_eq, if◌then◌else◌}
use goshorty.Prelude.Int.{ℤ}
use goshorty.Go.Url.{ParsedUrl}
use goshorty.Config.{Config}
use goshorty.Config.Env.{Environment, new_config, trimmed_parts, split_commas}
use goshorty.Config.Validate.{validate}
use goshorty.Config.Checked.{IsValid, validate-IsValid}

abbrev getenv : Environment
getenv key =
    if str_eq key "GIN_MODE"
    then "release"
    else if str_eq key "PUBLIC_BASE_URL"
    then "https://a.example/"
    else if str_eq key "METRICS_TOKEN"
    then "0123456789abcdef0123456789abcdef"
    else ""

abbrev lower : String → String
lower s = s

abbrev parse : String → Option ParsedUrl
parse raw =
    some (record { scheme = "https"; host = "a.example"; path = ""; hostname = "a.example" })

abbrev no_number : String → Option ℤ
no_number raw = none

abbrev settings : Config
settings = new_config getenv lower no_number no_number

accepted_settings : validate getenv lower parse no_number settings ≡ ok tt
unfolding validate goshorty.Config.Validate.validate_base_url
    goshorty.Config.Validate.validate_origins new_config goshorty.Config.Env.split_on
    goshorty.Config.Env.trim_right goshorty.Config.Env.trim_left
    goshorty.Config.Validate.validate_token_ttl goshorty.Config.Validate.validate_label
accepted_settings = refl

validate-IsValid_example : IsValid getenv lower parse no_number settings
validate-IsValid_example = validate-IsValid getenv lower parse no_number settings accepted_settings

test_list :
    trimmed_parts (split_commas "https://a.example/, ,https://b.example//")
    ≡ "https://a.example" ∷ "https://b.example" ∷ []
unfolding goshorty.Config.Env.split_on goshorty.Config.Env.trim_left goshorty.Config.Env.trim_right
test_list = refl
