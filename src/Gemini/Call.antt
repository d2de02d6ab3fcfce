-- ===== src/Gemini/Call.antt =====
-- internal/gemini/gemini.go: Call.
use hal_agent_operator.Base.{
  ℕ, Text, Option, Error, Result, ok, err, failure, utf8, is_empty, trim_space, ◌==◌, if◌then◌else◌,
  Act, wrapped, Outcome, returns, lift, attempt, perform, require, pure, ◌>>=◌, ◌>>◌, not,
}

-- `CallOptions`
pub record CallOptions : Type 0 where
  pub response_mime_type : Text
  pub max_output_tokens : ℕ

-- The request of GenerateContent.
pub record Request : Type 0 where
  pub api_key : Text
  pub model : Text
  pub system : Text
  pub user : Text
  pub temperature : ℕ
  pub max_output_tokens : ℕ
  pub response_mime_type : Text

-- The client of google.golang.org/genai; `generate` gives the text of the response.
pub record GenAi (World : Type 0) : Type 0 where
  pub new_client : Text → Option Error
  pub generate : World → Request → World × Result Text

-- The request that Call makes of its arguments, with its defaults.
unfoldable pub request : Text → Text → Text → Text → CallOptions → Request
request api_key model system user opts = record {
  api_key = api_key;
  model = model;
  system = system;
  user = user;
  temperature = 0;
  max_output_tokens = if opts.max_output_tokens == 0 then 1024 else opts.max_output_tokens;
  response_mime_type =
      if is_empty opts.response_mime_type then utf8 "application/json" else opts.response_mime_type;
}

-- `fmt.Errorf("gemini generate: %w", err)`
unfoldable pub generated : Result Text → Outcome Text
generated (ok text) = returns (ok text)
generated (err e) = returns (err (wrapped (utf8 "gemini generate") e))

module _ {World : Type 0} (g : GenAi World) where
  unfoldable pub call : Text → Text → Text → Text → CallOptions → Act World Text
  call api_key model system user opts = do
    perform (wrapped (utf8 "create gemini client")) (λ w. (w, g.new_client api_key))
    answer ← attempt (λ w. g.generate w (request api_key model system user opts))
    text ← lift (generated answer)
    require (not (is_empty (trim_space text))) (failure (utf8 "empty model content"))
    pure text
