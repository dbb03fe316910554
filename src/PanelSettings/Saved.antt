-- ===== src/PanelSettings/Saved.antt =====
-- What the provider cards send.
use mcp_project_server.Prelude.{
  ◌≡◌, ◌≢◌, refl, true, false, ◌||◌, Option, none, some, [], arith, if-cases,
}
use mcp_project_server.Js.Str.{Str, str_eq, str_eq_iff}
use mcp_project_server.Js.Number.{Numbers}
use mcp_project_server.Api.Settings.{AiSettingsInput, EmbeddingSettingsInput, SummarySettingsInput}
use mcp_project_server.PanelSettings.{
  EmbeddingForm, SummaryForm, Card, typed_key, not_positive, save_embedding, save_summary,
}

-- A key in a payload is one that was typed: it is never empty, and the saved one is never cleared.
unfoldable pub IsTyped : Str → Option (Option Str) → Type 0
IsTyped api_key none = api_key ≡ []
IsTyped api_key (some none) = ⊥
IsTyped api_key (some (some key)) = (key ≡ api_key) × (key ≢ [])

typed_key-IsTyped : (api_key : Str) → IsTyped api_key (typed_key api_key)
unfolding IsTyped typed_key
typed_key-IsTyped api_key =
    if-cases (IsTyped api_key) (str_eq api_key []) (λ empty. (str_eq_iff api_key []).0 empty)
      (λ named. (refl, λ e. absurd (ground (arith, str_eq_iff api_key []))))

ne_empty : (s : Str) → str_eq s [] ≡ false → s ≢ []
ne_empty s f e = absurd (ground (arith, str_eq_iff s []))

module _ {N : Type 0} (numbers : Numbers N) where
  -- A finite number that is not at most 0.
  unfoldable pub IsPositive : N → Type 0
  IsPositive n = (numbers.is_finite n ≡ true) × (numbers.le n (numbers.literal 0) ≡ false)

  pub record IsEmbedding (form : EmbeddingForm) (input : AiSettingsInput N) : Type 0 where
    pub sent : EmbeddingSettingsInput N
    pub alone : (input.embedding ≡ some sent) × (input.summary ≡ none)
    pub texts :
        (sent.backend ≡ form.backend) × (sent.base_url ≡ form.base_url) × (sent.model ≡ form.model)
    pub named : (sent.base_url ≢ []) × (sent.model ≢ [])
    pub read :
        (sent.dimensions ≡ numbers.number form.dimensions)
        × (sent.batch_size ≡ numbers.number form.batch_size)
        × (sent.timeout_seconds ≡ numbers.number form.timeout_seconds)
    pub positive :
        IsPositive sent.dimensions × IsPositive sent.batch_size × IsPositive sent.timeout_seconds
    pub key : IsTyped form.api_key sent.api_key

  pub record IsSummary (form : SummaryForm) (input : AiSettingsInput N) : Type 0 where
    pub sent : SummarySettingsInput N
    pub alone : (input.summary ≡ some sent) × (input.embedding ≡ none)
    pub texts :
        (sent.backend ≡ form.backend) × (sent.base_url ≡ form.base_url) × (sent.model ≡ form.model)
    pub named : (sent.base_url ≢ []) × (sent.model ≢ [])
    pub read : sent.timeout_seconds ≡ numbers.number form.timeout_seconds
    pub positive : IsPositive sent.timeout_seconds
    pub key : IsTyped form.api_key sent.api_key

  -- A save sends what is fit for the form and clears the error, or sends nothing and shows an
  -- error; the form stays.
  unfoldable pub IsSaved :
      {F : Type 0}
      → (F → AiSettingsInput N → Type 0)
      → Card F
      → Card F
      → Option (AiSettingsInput N)
      → Type 0
  IsSaved fit card after none = (after.form ≡ card.form) × (after.error ≢ none)
  IsSaved fit card after (some input) =
      (after.form ≡ card.form) × (after.error ≡ none) × fit card.form input

  is_positive : (n : N) → not_positive numbers n ≡ false → IsPositive n
  unfolding not_positive IsPositive
  is_positive n e = (ground arith, ground arith)

  save_embedding-IsSaved :
      (card : Card EmbeddingForm)
      → IsSaved IsEmbedding card (save_embedding numbers card).0 (save_embedding numbers card).1
  unfolding save_embedding IsSaved
  save_embedding-IsSaved card =
      let form = card.form in
      let dimensions = numbers.number form.dimensions in
      let batch_size = numbers.number form.batch_size in
      let timeout_seconds = numbers.number form.timeout_seconds in
      let P : Card EmbeddingForm × Option (AiSettingsInput N) → Type 0 =
        λ r. IsSaved IsEmbedding card r.0 r.1 in
      if-cases P
        (str_eq form.base_url []
          || (str_eq form.model []
              || (not_positive numbers dimensions
                  || (not_positive numbers batch_size || not_positive numbers timeout_seconds))))
        (λ refused. (refl, λ e. absurd (cc)))
        (λ good. (
          refl,
          refl,
          record {
            sent = record {
              backend = form.backend;
              base_url = form.base_url;
              model = form.model;
              dimensions = dimensions;
              batch_size = batch_size;
              timeout_seconds = timeout_seconds;
              api_key = typed_key form.api_key;
            };
            alone = (refl, refl);
            texts = (refl, refl, refl);
            named = (ne_empty form.base_url (ground arith), ne_empty form.model (ground arith));
            read = (refl, refl, refl);
            positive = (
              is_positive dimensions (ground arith),
              is_positive batch_size (ground arith),
              is_positive timeout_seconds (ground arith),
            );
            key = typed_key-IsTyped form.api_key;
          },
        ))

  save_summary-IsSaved :
      (card : Card SummaryForm)
      → IsSaved IsSummary card (save_summary numbers card).0 (save_summary numbers card).1
  unfolding save_summary IsSaved
  save_summary-IsSaved card =
      let form = card.form in
      let timeout_seconds = numbers.number form.timeout_seconds in
      let P : Card SummaryForm × Option (AiSettingsInput N) → Type 0 =
        λ r. IsSaved IsSummary card r.0 r.1 in
      if-cases P
        (str_eq form.base_url [] || (str_eq form.model [] || not_positive numbers timeout_seconds))
        (λ refused. (refl, λ e. absurd (cc)))
        (λ good. (
          refl,
          refl,
          record {
            sent = record {
              backend = form.backend;
              base_url = form.base_url;
              model = form.model;
              timeout_seconds = timeout_seconds;
              api_key = typed_key form.api_key;
            };
            alone = (refl, refl);
            texts = (refl, refl, refl);
            named = (ne_empty form.base_url (ground arith), ne_empty form.model (ground arith));
            read = refl;
            positive = is_positive timeout_seconds (ground arith);
            key = typed_key-IsTyped form.api_key;
          },
        ))

  -- A save of either card sends the settings of that card alone, with its texts, of which the URL
  -- and the model are not empty, with its numbers, which are finite and not at most 0, and with a
  -- key only if one was typed; or it sends nothing and shows an error. The form stays as it is.
  pub saves-IsSaved :
      (embedding : Card EmbeddingForm) (summary : Card SummaryForm)
      → IsSaved IsEmbedding embedding
          (save_embedding numbers embedding).0
          (save_embedding numbers embedding).1
        × IsSaved IsSummary summary
            (save_summary numbers summary).0
            (save_summary numbers summary).1
  saves-IsSaved embedding summary = (save_embedding-IsSaved embedding, save_summary-IsSaved summary)
