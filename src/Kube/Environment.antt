-- ===== src/Kube/Environment.antt =====
-- The environment that the kubelet gives a container.
use hal_agent_operator.Base.{Text, List, All, ◌≡◌, ◌≢◌}
use hal_agent_operator.Kube.{EnvSource, literal, secret_key_ref, EnvVar}

-- No `$` stands in a text.
abbrev pub IsPlain : Text → Type 0
IsPlain t = All (λ c. c ≢ b'$') t

-- The value of a variable: a literal is expanded, the key of a Secret is taken as it is.
abbrev pub value_of : (Text → Text) → (Text → Text → Text) → EnvSource → Text
value_of expand secret (literal t) = expand t
value_of expand secret (secret_key_ref name key) = secret name key

-- os.Getenv in a container with the variables `env`. In the literal value of a variable the kubelet
-- replaces `$(VAR)` by the variables that came before it and `$$` by `$`: `expand` does it, by the
-- variable's name, and leaves a text without `$` alone. Other names have what the image and the
-- kubelet set besides (`ambient`: PATH, HOSTNAME, the addresses of services).
pub record IsEnvironment (getenv ambient : Text → Text) (expand secret : Text → Text → Text)
    (env : List EnvVar) : Type 0 where
  pub provided : All (λ (v : EnvVar). getenv v.name ≡ value_of (expand v.name) secret v.source) env
  pub others : (name : Text) → All (λ (v : EnvVar). v.name ≢ name) env → getenv name ≡ ambient name
  pub plain : (name t : Text) → IsPlain t → expand name t ≡ t
