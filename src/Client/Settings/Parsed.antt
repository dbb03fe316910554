-- ===== src/Client/Settings/Parsed.antt =====
-- What `parseAiSettings` accepts.
use mcp_project_server.Prelude.{
  ◌≡◌, refl, inl, inr, ap, Bool-cases, Bool, true, false, Option, none, some,
}
use mcp_project_server.Js.Str.{Str, codes, str_eq, str_eq_iff}
use mcp_project_server.Js.Json.{Json, property}
use mcp_project_server.Api.Settings.{
  AiSettings, AiSettingSource, EmbeddingSettings, SummarySettings,
}
use mcp_project_server.Client.Request.{Outcome, value, api_error, runtime_error}
use mcp_project_server.Client.Settings.{
  ◌>>=◌, string_of, boolean_of, number_of, source_named, source_of, ◌>>=◌, expect_string,
  expect_number, expect_boolean, expect_source, parse_embedding, parse_summary,
}

-- The name of a source in the response.
abbrev pub source_name : AiSettingSource → Str
source_name AiSettingSource.persisted = codes "persisted"
source_name AiSettingSource.environment = codes "environment"
source_name AiSettingSource.default = codes "default"

module _ {N : Type 0} where
  abbrev pub HasString : Json N → Str → Str → Type 0
  HasString r key s = property r key ≡ some (Json.string s)

  abbrev pub HasBoolean : Json N → Str → Bool → Type 0
  HasBoolean r key b = property r key ≡ some (Json.boolean b)

  module _ (is_finite : N → Bool) where
    abbrev pub HasNumber : Json N → Str → N → Type 0
    HasNumber r key n = (property r key ≡ some (Json.number n)) × (is_finite n ≡ true)

    pub record HasEmbedding (r : Json N) (s : EmbeddingSettings N) : Type 0 where
      pub backend : HasString r (codes "backend") s.backend
      pub base_url : HasString r (codes "base_url") s.base_url
      pub model : HasString r (codes "model") s.model
      pub dimensions : HasNumber r (codes "dimensions") s.dimensions
      pub batch_size : HasNumber r (codes "batch_size") s.batch_size
      pub timeout_seconds : HasNumber r (codes "timeout_seconds") s.timeout_seconds
      pub api_key_configured : HasBoolean r (codes "api_key_configured") s.api_key_configured
      pub source : HasString r (codes "source") (source_name s.source)

    pub record HasSummary (r : Json N) (s : SummarySettings N) : Type 0 where
      pub backend : HasString r (codes "backend") s.backend
      pub base_url : HasString r (codes "base_url") s.base_url
      pub model : HasString r (codes "model") s.model
      pub timeout_seconds : HasNumber r (codes "timeout_seconds") s.timeout_seconds
      pub api_key_configured : HasBoolean r (codes "api_key_configured") s.api_key_configured
      pub source : HasString r (codes "source") (source_name s.source)

    pub record HasSettings (v : Json N) (s : AiSettings N) : Type 0 where
      pub embedding :
          (r : Json N) × (property v (codes "embedding") ≡ some r) × HasEmbedding r s.embedding
      pub summary : (r : Json N) × (property v (codes "summary") ≡ some r) × HasSummary r s.summary
      pub reindex_required : HasBoolean v (codes "reindex_required") s.reindex_required

  -- A value for which the predicate holds, or the client's error with status 502.
  unfoldable pub Yields : {A : Type 0} → (A → Type 0) → Outcome N A → Type 0
  Yields P (value a) = P a
  Yields P (api_error e) = e.status ≡ 502
  Yields P runtime_error = false ≡ true

  pub bind-Yields :
      {A B : Type 0} (P : A → Type 0) (Q : B → Type 0) (o : Outcome N A) (f : A → Outcome N B)
      → Yields P o
      → ((a : A) → P a → Yields Q (f a))
      → Yields Q (o >>= f)
  unfolding Yields ◌>>=◌
  bind-Yields P Q (value a) f h next = next a h
  bind-Yields P Q (api_error x) f h next = h
  bind-Yields P Q runtime_error f h next = h

  Yields-map :
      {A : Type 0} (P Q : A → Type 0) (o : Outcome N A)
      → ((a : A) → P a → Q a)
      → Yields P o
      → Yields Q o
  unfolding Yields
  Yields-map P Q (value a) f h = f a h
  Yields-map P Q (api_error x) f h = h
  Yields-map P Q runtime_error f h = h

  string_of-Yields :
      (key : Str) (o : Option (Json N)) → Yields (λ s. o ≡ some (Json.string s)) (string_of key o)
  unfolding Yields
  string_of-Yields key none = refl
  string_of-Yields key (some Json.null) = refl
  string_of-Yields key (some (Json.boolean b)) = refl
  string_of-Yields key (some (Json.number n)) = refl
  string_of-Yields key (some (Json.string s)) = refl
  string_of-Yields key (some (Json.array a)) = refl
  string_of-Yields key (some (Json.object o)) = refl

  string-Yields : (r : Json N) (key : Str) → Yields (HasString r key) (expect_string r key)
  unfolding expect_string
  string-Yields r key = string_of-Yields key (property r key)

  boolean_of-Yields :
      (key : Str) (o : Option (Json N)) → Yields (λ b. o ≡ some (Json.boolean b)) (boolean_of key o)
  unfolding Yields
  boolean_of-Yields key none = refl
  boolean_of-Yields key (some Json.null) = refl
  boolean_of-Yields key (some (Json.boolean b)) = refl
  boolean_of-Yields key (some (Json.number n)) = refl
  boolean_of-Yields key (some (Json.string s)) = refl
  boolean_of-Yields key (some (Json.array a)) = refl
  boolean_of-Yields key (some (Json.object o)) = refl

  pub boolean-Yields : (r : Json N) (key : Str) → Yields (HasBoolean r key) (expect_boolean r key)
  unfolding expect_boolean
  boolean-Yields r key = boolean_of-Yields key (property r key)

pub value-Yields :
    (N : Type 0) {A : Type 0} (P : A → Type 0) (a : A) → P a → Yields {N = N} P (value a)
unfolding Yields
value-Yields N P a h = h

source_named-Yields :
    (N : Type 0) (s : Str) → Yields (λ x. s ≡ source_name x) (source_named {N = N} s)
unfolding Yields
source_named-Yields N s = elim (Bool-cases (str_eq s (codes "persisted"))) [
  | inl e ↦ rw e ((str_eq_iff s (codes "persisted")).0 e)
  | inr a ↦ elim (Bool-cases (str_eq s (codes "environment"))) [
    | inl e ↦ rw (a, e) ((str_eq_iff s (codes "environment")).0 e)
    | inr b ↦ elim (Bool-cases (str_eq s (codes "default"))) [
      | inl e ↦ rw (a, b, e) ((str_eq_iff s (codes "default")).0 e)
      | inr c ↦ rw (a, b, c) refl
    ]
  ]
]

module _ {N : Type 0} where
  source_of-Yields :
      (o : Option (Json N)) → Yields (λ x. o ≡ some (Json.string (source_name x))) (source_of o)
  unfolding Yields
  source_of-Yields none = refl
  source_of-Yields (some Json.null) = refl
  source_of-Yields (some (Json.boolean b)) = refl
  source_of-Yields (some (Json.number n)) = refl
  source_of-Yields (some (Json.string s)) =
      Yields-map (λ x. s ≡ source_name x)
        (λ x. some (Json.string s) ≡ some (Json.string (source_name x))) (source_named s)
        (λ x e. ap (λ (t : Str). some (Json.string t)) e) (source_named-Yields N s)
  source_of-Yields (some (Json.array a)) = refl
  source_of-Yields (some (Json.object o)) = refl

  source-Yields :
      (r : Json N) → Yields (λ x. HasString r (codes "source") (source_name x)) (expect_source r)
  unfolding expect_source
  source-Yields r = source_of-Yields (property r (codes "source"))

  module _ (is_finite : N → Bool) where
    number_of-Yields :
        (key : Str) (o : Option (Json N))
        → Yields
            (λ n. (o ≡ some (Json.number n)) × (is_finite n ≡ true))
            (number_of is_finite key o)
    unfolding Yields
    number_of-Yields key none = refl
    number_of-Yields key (some Json.null) = refl
    number_of-Yields key (some (Json.boolean b)) = refl
    number_of-Yields key (some (Json.number n)) = elim (Bool-cases (is_finite n)) [
      | inl e ↦ rw e (refl, e)
      | inr e ↦ rw e refl
    ]
    number_of-Yields key (some (Json.string s)) = refl
    number_of-Yields key (some (Json.array a)) = refl
    number_of-Yields key (some (Json.object o)) = refl

    number-Yields :
        (r : Json N) (key : Str)
        → Yields (HasNumber is_finite r key) (expect_number is_finite r key)
    unfolding expect_number
    number-Yields r key = number_of-Yields key (property r key)

    pub embedding-Yields :
        (r : Json N) → Yields (HasEmbedding is_finite r) (parse_embedding is_finite r)
    unfolding parse_embedding
    embedding-Yields r = bind-Yields _ _ _ _ (string-Yields r (codes "backend")) λ _ backend.
        bind-Yields _ _ _ _ (string-Yields r (codes "base_url")) λ _ base_url.
          bind-Yields _ _ _ _ (string-Yields r (codes "model")) λ _ model.
            bind-Yields _ _ _ _ (number-Yields r (codes "dimensions")) λ _ dimensions.
              bind-Yields _ _ _ _ (number-Yields r (codes "batch_size")) λ _ batch_size.
                bind-Yields _ _ _ _ (number-Yields r (codes "timeout_seconds")) λ _ timeout.
                  bind-Yields _ _ _ _ (boolean-Yields r (codes "api_key_configured")) λ _ key.
                    bind-Yields _ _ _ _ (source-Yields r) λ _ source.
                      value-Yields N (HasEmbedding is_finite r) _ (record {
                        backend = backend;
                        base_url = base_url;
                        model = model;
                        dimensions = dimensions;
                        batch_size = batch_size;
                        timeout_seconds = timeout;
                        api_key_configured = key;
                        source = source;
                      })

    pub summary-Yields : (r : Json N) → Yields (HasSummary is_finite r) (parse_summary is_finite r)
    unfolding parse_summary
    summary-Yields r = bind-Yields _ _ _ _ (string-Yields r (codes "backend")) λ _ backend.
        bind-Yields _ _ _ _ (string-Yields r (codes "base_url")) λ _ base_url.
          bind-Yields _ _ _ _ (string-Yields r (codes "model")) λ _ model.
            bind-Yields _ _ _ _ (number-Yields r (codes "timeout_seconds")) λ _ timeout.
              bind-Yields _ _ _ _ (boolean-Yields r (codes "api_key_configured")) λ _ key.
                bind-Yields _ _ _ _ (source-Yields r) λ _ source.
                  value-Yields N (HasSummary is_finite r) _ (record {
                    backend = backend;
                    base_url = base_url;
                    model = model;
                    timeout_seconds = timeout;
                    api_key_configured = key;
                    source = source;
                  })
