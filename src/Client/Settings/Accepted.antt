-- ===== src/Client/Settings/Accepted.antt =====
-- `parseAiSettings`: the settings that it returns, and the responses that it accepts.
use mcp_project_server.Prelude.{
  ◌≡◌, refl, ◌||◌, not, inl, inr, Bool-cases, Bool, true, Option, none, some, arith,
}
use mcp_project_server.Js.Str.{Str, codes, str_eq}
use mcp_project_server.Js.Json.{Json, property}
use mcp_project_server.Api.Settings.{
  AiSettings, AiSettingSource, EmbeddingSettings, SummarySettings,
}
use mcp_project_server.Client.Request.{value}
use mcp_project_server.Client.Settings.{
  ◌>>=◌, record_or_null, source_named, expect_string, expect_number, expect_boolean, expect_source,
  parse_embedding, parse_summary, parse_ai_settings, is_record,
}
use mcp_project_server.Client.Settings.Parsed.{
  HasEmbedding, HasSummary, HasSettings, Yields, embedding-Yields, summary-Yields, boolean-Yields,
  bind-Yields, value-Yields, source_name,
}

record_some :
    {N : Type 0} (o : Option (Json N))
    → is_record (record_or_null o) ≡ true
    → o ≡ some (record_or_null o)
unfolding is_record
record_some none h = absurd (cc)
record_some (some v) h = refl

property-is_record :
    {N : Type 0} (r : Json N) (key : Str) (v : Json N)
    → property r key ≡ some v
    → is_record r ≡ true
unfolding is_record property
property-is_record Json.null key v h = absurd (ground arith)
property-is_record (Json.boolean b) key v h = absurd (ground arith)
property-is_record (Json.number n) key v h = absurd (ground arith)
property-is_record (Json.string s) key v h = absurd (ground arith)
property-is_record (Json.array a) key v h = absurd (ground arith)
property-is_record (Json.object o) key v h = refl

source_named-name :
    {N : Type 0} (x : AiSettingSource) → source_named {N = N} (source_name x) ≡ value x
unfolding str_eq
source_named-name AiSettingSource.persisted = refl
source_named-name AiSettingSource.environment = refl
source_named-name AiSettingSource.default = refl

module _ {N : Type 0} (is_finite : N → Bool) where
  -- What `parseAiSettings` returns is the settings that stand in the response, key by key;
  -- otherwise it throws the client's error with status 502.
  pub parse_ai_settings_sound :
      (v : Json N) → Yields (HasSettings is_finite v) (parse_ai_settings is_finite v)
  unfolding parse_ai_settings
  parse_ai_settings_sound v =
      let embedding = record_or_null (property v (codes "embedding")) in
      let summary = record_or_null (property v (codes "summary")) in
      elim (Bool-cases
        (not (is_record v) || (not (is_record embedding) || not (is_record summary)))) [
          | inl bad ↦ rw bad (unfold Yields in refl)
          | inr good ↦ rw good (
              bind-Yields _ _ _ _ (embedding-Yields is_finite embedding) λ e has_e.
                bind-Yields _ _ _ _ (summary-Yields is_finite summary) λ s has_s.
                  bind-Yields _ _ _ _ (boolean-Yields v (codes "reindex_required")) λ b has_b.
                    value-Yields N (HasSettings is_finite v) _ (record {
                      embedding = (
                        embedding,
                        record_some (property v (codes "embedding")) (ground arith),
                        has_e,
                      );
                      summary = (
                        summary,
                        record_some (property v (codes "summary")) (ground arith),
                        has_s,
                      );
                      reindex_required = has_b;
                    }))
        ]

  embedding_complete :
      (r : Json N) (s : EmbeddingSettings N)
      → HasEmbedding is_finite r s
      → (parse_embedding is_finite r ≡ value s) × (is_record r ≡ true)
  unfolding parse_embedding ◌>>=◌ expect_string expect_number expect_boolean expect_source
  embedding_complete r s h = (
    rw
        (
          h.backend,
          h.base_url,
          h.model,
          h.dimensions.0,
          h.dimensions.1,
          h.batch_size.0,
          h.batch_size.1,
          h.timeout_seconds.0,
          h.timeout_seconds.1,
          h.api_key_configured,
          h.source,
          source_named-name s.source,
        )
        refl,
    property-is_record r (codes "model") _ h.model,
  )

  summary_complete :
      (r : Json N) (s : SummarySettings N)
      → HasSummary is_finite r s
      → (parse_summary is_finite r ≡ value s) × (is_record r ≡ true)
  unfolding parse_summary ◌>>=◌ expect_string expect_number expect_boolean expect_source
  summary_complete r s h = (
    rw
        (
          h.backend,
          h.base_url,
          h.model,
          h.timeout_seconds.0,
          h.timeout_seconds.1,
          h.api_key_configured,
          h.source,
          source_named-name s.source,
        )
        refl,
    property-is_record r (codes "model") _ h.model,
  )

  -- A response that holds settings under all their keys, with finite numbers and a known source,
  -- is accepted, and these settings are returned.
  pub parse_ai_settings_complete :
      (v : Json N) (s : AiSettings N)
      → HasSettings is_finite v s
      → parse_ai_settings is_finite v ≡ value s
  unfolding parse_ai_settings ◌>>=◌ expect_boolean
  parse_ai_settings_complete v s h =
      let (e, has_e, embedding) = h.embedding in
      let (u, has_u, summary) = h.summary in
      let (parsed_e, record_e) = embedding_complete e s.embedding embedding in
      let (parsed_u, record_u) = summary_complete u s.summary summary in
      rw
        (
          has_e,
          has_u,
          record_e,
          record_u,
          property-is_record v (codes "embedding") e has_e,
          parsed_e,
          parsed_u,
          h.reindex_required,
        )
        refl
