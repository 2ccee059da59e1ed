-- ===== src/Examples/Configs.antt =====
-- The default configuration of config/config.go.
use grunyas.Prelude.{Bool, true, false, ◌||◌, ◌≡◌, refl, [], ◌==◌, ◌∷◌}
use grunyas.Classifier.Text.{Text, codes}
use grunyas.Config.Types.{default_config, normalize, Config}
use grunyas.Prelude.Assoc.{get}
use grunyas.Config.ServerChecks.{validate_tokens}
use grunyas.Config.Validate.{validate, validate_policies, validate_compat}
use grunyas.Config.Valid.{IsConsistent, validate-IsConsistent}

-- A parser of addresses: a colon, and something after it.
abbrev has_port : Text → Bool
has_port [] = false
has_port (c ∷ []) = false
has_port (c ∷ d ∷ s) = c == b':' || has_port (d ∷ s)

abbrev settings : Config
settings = record default_config { server = normalize default_config.server }

accepted : validate (λ l. true) (λ a. has_port (codes a)) settings ≡ []
unfolding validate normalize get validate_tokens validate_policies validate_compat
accepted = refl

validate-IsConsistent_example : IsConsistent (λ a. has_port (codes a)) settings
validate-IsConsistent_example =
    validate-IsConsistent (λ l. true) (λ a. has_port (codes a)) settings accepted
