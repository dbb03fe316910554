-- ===== src/Summaries/Shown.antt =====
-- What the views show of counts, of the semantic search and of features.
use mcp_project_server.Prelude.{
  ◌≡◌, ◌≢◌, ◌≤◌, refl, ap, sym, ◌∙◌, ◌⊎◌, inl, inr, false, Option, none, some, List, [], ◌∷◌, All,
  map, foldl, arith, if-cases, if-both,
}
use mcp_project_server.Js.Str.{Str, str_eq, str_eq_iff, trim}
use mcp_project_server.Js.Map.{Map, get, put, from_entries, Each, put-Each, Each-get}
use mcp_project_server.Api.Search.{IndexStatus}
use mcp_project_server.Api.Requirements.{Requirement}
use mcp_project_server.Summaries.{
  ℤ, done_of_total, semantic_indicator, or_default, trimmed_note, FeatureEntry, ResolvedFeature,
  linked, resolve_feature_requirements,
}

-- A summary never says that more is done than there is.
pub done_of_total-le :
    (done total : ℤ) → (done_of_total done total).0 ≤ (done_of_total done total).1
unfolding done_of_total
done_of_total-le done total = omega arith

-- A note that is shown is not empty.
unfoldable IsNote : Option Str → Type 0
IsNote none = Unit
IsNote (some note) = note ≢ []

trimmed_note-IsNote : (o : Option Str) → IsNote (trimmed_note o)
unfolding IsNote
trimmed_note-IsNote none = tt
trimmed_note-IsNote (some note) =
    if-cases IsNote (str_eq (trim note) []) (λ blank. tt)
      (λ told e. ground (arith, str_eq_iff (trim note) []))

reason : (o : Option Str) → IsNote o → or_default o ≢ []
unfolding IsNote
reason none h = λ e. absurd (cc)
reason (some note) h = h

-- Where the semantic search is not available, a reason is shown, and it is not empty.
pub unavailable-reason :
    (status : IndexStatus)
    → status.semantic_available ≡ false
    → (note : Str) × ((semantic_indicator status).note ≡ some note) × (note ≢ [])
unfolding semantic_indicator
unavailable-reason status off =
    let note = trimmed_note status.semantic_note in
    (or_default note, rw off refl, reason note (trimmed_note-IsNote status.semantic_note))

-- Every requirement in the map stands under its own id.
requirements-Each :
    (requirements : List Requirement) (m : Map Requirement)
    → Each (λ id r. r.entry_id ≡ id) m
    → Each
        (λ id r. r.entry_id ≡ id)
        (foldl
          (λ (m : Map Requirement) (e : Str × Requirement). put m e.0 e.1)
          m
          (map (λ (r : Requirement). (r.entry_id, r)) requirements))
requirements-Each [] m h = h
requirements-Each (r ∷ requirements) m h =
    requirements-Each requirements (put m r.entry_id r) (put-Each _ m r.entry_id r refl h)

-- A requirement that is shown with a feature is the one that the feature points at.
abbrev pub IsOwn : ResolvedFeature → Type 0
IsOwn f =
    (f.requirement ≡ none)
    ⊎ ((r : Requirement) × (f.requirement ≡ some r)
        × (f.feature.entry.related_entry_id ≡ some r.entry_id))

found-IsOwn :
    (by_id : Map Requirement) (f : FeatureEntry) (id : Str) (o : Option Requirement)
    → Each (λ id r. r.entry_id ≡ id) by_id
    → f.entry.related_entry_id ≡ some id
    → get by_id id ≡ o
    → IsOwn (record { feature = f; requirement = o })
found-IsOwn by_id f id none own e found = inl refl
found-IsOwn by_id f id (some r) own e found =
    inr (r, refl, e ∙ ap some (sym (Each-get _ by_id id r own found)))

linked-IsOwn :
    (by_id : Map Requirement) (f : FeatureEntry) (related : Option Str)
    → Each (λ id r. r.entry_id ≡ id) by_id
    → f.entry.related_entry_id ≡ related
    → IsOwn (record { feature = f; requirement = linked by_id related })
linked-IsOwn by_id f none own e = inl refl
linked-IsOwn by_id f (some id) own e =
    if-both (λ o. IsOwn (record { feature = f; requirement = o })) (str_eq id []) (inl refl)
      (found-IsOwn by_id f id (get by_id id) own e refl)

features-IsOwn :
    (by_id : Map Requirement) (features : List FeatureEntry)
    → Each (λ id r. r.entry_id ≡ id) by_id
    → All IsOwn (
        map
          (λ (f : FeatureEntry). record {
            feature = f;
            requirement = linked by_id f.entry.related_entry_id;
          })
          features)
features-IsOwn by_id [] own = tt
features-IsOwn by_id (f ∷ features) own =
    (linked-IsOwn by_id f f.entry.related_entry_id own refl, features-IsOwn by_id features own)

-- Every feature is resolved to nothing, or to the requirement of the list that it points at.
pub resolve_feature_requirements-IsOwn :
    (features : List FeatureEntry) (requirements : List Requirement)
    → All IsOwn (resolve_feature_requirements features requirements)
unfolding resolve_feature_requirements from_entries
resolve_feature_requirements-IsOwn features requirements =
    features-IsOwn _ features (requirements-Each requirements [] tt)
