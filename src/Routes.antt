-- ===== src/Routes.antt =====
-- Routes and client keys: internal/policy/routes.go, and `ExtractAPIKey` of internal/policy/keys.go.
-- A header's values, as `http.Header.Get` and then a search without case find them, are a parameter:
-- the first value of a header's name; of the names that the source tries, two differ only in case.
use cpa_plugin_key_policy.Base.{
  Bool, not, ◌&&◌, ◌||◌, Option, none, some, List, [], ◌∷◌, String, string_eq, ◌==◌, if◌then◌else◌,
  any,
}
use cpa_plugin_key_policy.Text.{
  trim_space, to_lower, to_upper, has_prefix, has_suffix, contains, trim_slashes, fields,
}
use cpa_plugin_key_policy.Store.{Library}

-- `strings.TrimRight(strings.TrimSpace(path), "/")`
unfoldable pub clean : String → String
clean path = trim_slashes (trim_space path)

-- `IsModelsEndpoint`
unfoldable pub is_models_endpoint : String → Bool
unfolding clean
is_models_endpoint raw =
    let path = clean raw in
    path == "/v1/models"
    || path == "/openai/v1/models"
    || path == "/v1beta/models"
    || has_suffix "/v1/models" path

-- `mediaGenerationSuffixes`
abbrev pub media_generation_suffixes : List String
media_generation_suffixes =
    "/v1/images/generations" ∷ "/v1/images/edits" ∷ "/v1/videos" ∷ "/v1/videos/generations"
    ∷ "/v1/videos/edits" ∷ "/v1/videos/extensions" ∷ []

-- `isMediaGenerationPath`
unfoldable pub is_media_generation_path : String → Bool
unfolding clean
is_media_generation_path raw =
    any (λ suffix. has_suffix suffix (clean raw)) media_generation_suffixes

-- `isMediaResultPath`
unfoldable pub is_media_result_path : String → Bool
unfolding clean
is_media_result_path raw =
    not (is_media_generation_path (clean raw)) && contains "/v1/videos/" (clean raw)

-- `admissionStage`
pub data AdmissionStage : Type 0 where
  admit_at_auth admit_quota_at_auth admit_at_interceptor : AdmissionStage

-- `interceptedPOSTPaths`
abbrev pub intercepted_post_paths : List String
intercepted_post_paths =
    "/v1/chat/completions" ∷ "/v1/completions" ∷ "/v1/images/generations" ∷ "/v1/images/edits"
    ∷ "/v1/videos" ∷ "/v1/videos/generations" ∷ "/v1/videos/edits" ∷ "/v1/videos/extensions"
    ∷ "/openai/v1/videos" ∷ "/v1/audio/speech" ∷ "/v1/tts" ∷ "/v1/messages"
    ∷ "/v1/messages/count_tokens" ∷ "/v1/responses" ∷ "/v1/responses/compact"
    ∷ "/backend-api/codex/responses" ∷ "/backend-api/codex/responses/compact"
    ∷ "/v1beta/interactions" ∷ []

-- `websocketResponsePaths`
abbrev pub websocket_response_paths : List String
websocket_response_paths = "/v1/responses" ∷ "/backend-api/codex/responses" ∷ []

-- the values of a request: the first value of a header, and the values of a query parameter, where
-- the request has a query
pub record Request : Type 0 where
  pub method : String
  pub path : String
  pub header_value : String → String
  pub query : Option (String → List String)

-- `strings.EqualFold(a, b)` on ASCII texts
equal_fold : Library → String → String → Bool
equal_fold lib a b = to_lower lib.lower a == to_lower lib.lower b

-- `bearerToken`
unfoldable pub bearer_token : Library → String → String
unfolding equal_fold
bearer_token lib value = elim (fields value) [
  | [] ↦ ""
  | scheme ∷ rest ↦ elim rest [
    | [] ↦ ""
    | token ∷ more ↦ elim more [
      | [] ↦ if equal_fold lib scheme "Bearer" then trim_space token else ""
      | _ ∷ _ ↦ ""
    ]
  ]
]

-- the headers of a client key past Authorization, in the source's order
abbrev key_headers : List String
key_headers = "X-API-Key" ∷ "api-key" ∷ "x-api-key" ∷ "x-goog-api-key" ∷ []

first_value : (String → String) → List String → String
first_value value [] = ""
first_value value (name ∷ names) =
    let rest = first_value value names in
    let here = trim_space (value name) in if here == "" then rest else here

-- the loop of `ExtractAPIKey` over the headers; a value that is no bearer token is passed over
unfoldable pub header_key : Library → Request → String
unfolding bearer_token first_value
header_key lib request =
    let token = bearer_token lib (trim_space (request.header_value "Authorization")) in
    if token == "" then first_value request.header_value key_headers else token

first_of : List String → String
first_of [] = ""
first_of (value ∷ _) = value

query_key : Option (String → List String) → String
unfolding first_value first_of
query_key none = ""
query_key (some values) = first_value (λ name. first_of (values name)) ("api_key" ∷ "key" ∷ [])

-- `ExtractAPIKey`
unfoldable pub extract_api_key : Library → Request → String
unfolding header_key query_key
extract_api_key lib request =
    let key = header_key lib request in if key == "" then query_key request.query else key

-- `admissionStageFor`
unfoldable pub admission_stage_for : Library → Request → AdmissionStage
unfolding clean
admission_stage_for lib request =
    let path = clean request.path in
    let method = to_upper lib.upper (trim_space request.method) in
    if header_key lib request == ""
    then admit_at_auth
    else if method == "POST"
        && (any (λ p. p == path) intercepted_post_paths || has_prefix "/v1beta/models/" path)
    then admit_at_interceptor
    else if method == "GET" && any (λ p. p == path) websocket_response_paths
    then admit_quota_at_auth
    else if method == "GET" && is_media_result_path path
    then admit_at_interceptor
    else admit_at_auth
