-- ===== src/CodeMap/Related/Touch.antt =====
-- Which entries are related to a path.
use mcp_project_server.Prelude.{
  ◌≡◌, refl, sym, ap, subst, ◌↔◌, ◌⊎◌, inl, inr, true, false, ◌||◌, List, [], ◌∷◌, ◌++◌, any, In,
  In-append, In-append_left, In-append_right, any_sound, any_complete, if-both, arith, Bool-cases,
}
use mcp_project_server.Js.Str.{Str, codes, str_eq_iff, starts_with}
use mcp_project_server.Api.Types.{Entry}
use mcp_project_server.CodeMap.Locate.Paths.{IsAncestor, is_ancestor_path_iff}
use mcp_project_server.CodeMap.Locate.{is_ancestor_path}
use mcp_project_server.CodeMap.Related.{
  RelatedEntry, link_path, path_touches, related_in, related_entries,
}

-- One of two paths is the other, or a directory above it.
abbrev pub IsOnOnePath : Str → Str → Type 0
IsOnOnePath p q = IsAncestor p q ⊎ IsAncestor q p

starts_with_nil : (s p : Str) → s ≡ [] → starts_with s (p ++ codes "/") ≡ false
unfolding starts_with
starts_with_nil [] [] e = refl
starts_with_nil [] (c ∷ p) e = refl
starts_with_nil (c ∷ s) p e = absurd (cc)

path_touches-eq :
    (linked target : Str)
    → path_touches linked target
      ≡ (is_ancestor_path (link_path linked) target || is_ancestor_path target (link_path linked))
unfolding path_touches is_ancestor_path
path_touches-eq linked target =
    let p = link_path linked in
    ground (
      arith,
      str_eq_iff p [],
      str_eq_iff target [],
      str_eq_iff p target,
      str_eq_iff target p,
      starts_with_nil p target,
      starts_with_nil target p,
    )

-- A linked file touches a path exactly if, rid of white space and slashes at its ends, it is the
-- path, a directory above it, or something below it.
pub path_touches_iff :
    (linked target : Str)
    → (path_touches linked target ≡ true) ↔ IsOnOnePath (link_path linked) target
path_touches_iff linked target =
    let p = link_path linked in
    let (down, up) = is_ancestor_path_iff p target in
    let (down', up') = is_ancestor_path_iff target p in
    rw path_touches-eq (
      λ h. elim (Bool-cases (is_ancestor_path p target)) [
        | inl above ↦ inl (down above)
        | inr other ↦ inr (down' (ground arith))
      ],
      λ h. elim h [ inl above ↦ rw (up above) refl | inr below ↦ ground (arith, up' below) ],
    )

-- What makes an entry of a section related.
pub record IsRelated (by_section : List (Str × List Entry)) (path : Str) (r : RelatedEntry)
    : Type 0 where
  pub entries : List Entry
  pub listed : In (r.section, entries) by_section
  pub among : In r.entry entries
  pub file : Str
  pub linked : In file r.entry.linked_files
  pub touches : IsOnOnePath (link_path file) path

-- An entry of one section, with a linked file that touches the path.
record IsFound (section : Str) (es : List Entry) (path : Str) (r : RelatedEntry) : Type 0 where
  same : r.section ≡ section
  among : In r.entry es
  file : Str
  linked : In file r.entry.linked_files
  touches : IsOnOnePath (link_path file) path

related_here :
    (section : Str) (e : Entry) (es : List Entry) (path : Str)
    → any (λ f. path_touches f path) e.linked_files ≡ true
    → IsFound section (e ∷ es) path (record { section = section; entry = e })
related_here section e es path touches =
    let (f, linked, touch) = any_sound (λ f. path_touches f path) e.linked_files touches in
    record {
      same = refl;
      among = inl refl;
      file = f;
      linked = linked;
      touches = (path_touches_iff f path).0 touch;
    }

related_later :
    (section : Str) (e : Entry) (es : List Entry) (path : Str) (r : RelatedEntry)
    → IsFound section es path r
    → IsFound section (e ∷ es) path r
related_later section e es path r h = record {
  same = h.same;
  among = inr h.among;
  file = h.file;
  linked = h.linked;
  touches = h.touches;
}

related_in_sound :
    (section : Str) (es : List Entry) (path : Str) (r : RelatedEntry)
    → In r (related_in section es path)
    → IsFound section es path r
unfolding related_in
related_in_sound section [] path r m = absurd m
related_in_sound section (e ∷ es) path r m =
    elim (Bool-cases (any (λ f. path_touches f path) e.linked_files)) [
      | inr other ↦
          related_later section e es path r (related_in_sound section es path r (rw other at m))
      | inl touches ↦
          let m' : (r ≡ record { section = section; entry = e })
              ⊎ In r (related_in section es path) =
            rw touches at m in
          elim m' [
            | inl same ↦
                subst (IsFound section (e ∷ es) path) (sym same)
                  (related_here section e es path touches)
            | inr later ↦
                related_later section e es path r (related_in_sound section es path r later)
          ]
    ]

related_in_complete :
    (section : Str) (es : List Entry) (path : Str) (e : Entry) (f : Str)
    → In e es
    → In f e.linked_files
    → IsOnOnePath (link_path f) path
    → In (record { section = section; entry = e }) (related_in section es path)
unfolding related_in
related_in_complete section [] path e f m l t = absurd m
related_in_complete section (x ∷ es) path e f (inl same) l t =
    let touch : any (λ f. path_touches f path) x.linked_files ≡ true =
      any_complete (λ f. path_touches f path) x.linked_files f
        (subst (λ (y : Entry). In f y.linked_files) same l) ((path_touches_iff f path).1 t) in
    rw touch (inl (ap (λ (y : Entry). record { section = section; entry = y }) same))
related_in_complete section (x ∷ es) path e f (inr m) l t =
    if-both (In (record { section = section; entry = e }))
      (any (λ f. path_touches f path) x.linked_files)
      (inr (related_in_complete section es path e f m l t))
      (related_in_complete section es path e f m l t)

-- Every entry that is found stands in its section, and has a linked file on one path with the
-- path asked for.
related_entries_sound :
    (by_section : List (Str × List Entry)) (path : Str) (r : RelatedEntry)
    → In r (related_entries by_section path)
    → IsRelated by_section path r
unfolding related_entries
related_entries_sound [] path r m = absurd m
related_entries_sound ((section, es) ∷ rest) path r m =
    elim (In-append r (related_in section es path) (related_entries rest path) m) [
      | inl here ↦
          let h = related_in_sound section es path r here in
          record {
            entries = es;
            listed = inl (ap (λ (s : Str). (s, es)) h.same);
            among = h.among;
            file = h.file;
            linked = h.linked;
            touches = h.touches;
          }
      | inr later ↦
          let h = related_entries_sound rest path r later in
          record {
            entries = h.entries;
            listed = inr h.listed;
            among = h.among;
            file = h.file;
            linked = h.linked;
            touches = h.touches;
          }
    ]

related_entries-listed :
    (by_section : List (Str × List Entry)) (path : Str) (r : RelatedEntry) (es : List Entry)
    → In (r.section, es) by_section
    → In r.entry es
    → (f : Str) → In f r.entry.linked_files
    → IsOnOnePath (link_path f) path
    → In r (related_entries by_section path)
unfolding related_entries
related_entries-listed [] path r es listed m f l t = absurd listed
related_entries-listed ((section, fs) ∷ rest) path r es (inl same) m f l t =
    In-append_left r (related_in section fs path) _ (
      rw (← ap (λ (p : Str × List Entry). p.0) same, ← ap (λ (p : Str × List Entry). p.1) same)
        (related_in_complete r.section es path r.entry f m l t))
related_entries-listed ((section, fs) ∷ rest) path r es (inr later) m f l t =
    In-append_right r (related_in section fs path) _
      (related_entries-listed rest path r es later m f l t)

-- Every entry of a section with such a file is found, under its section.
related_entries_complete :
    (by_section : List (Str × List Entry)) (path : Str) (r : RelatedEntry)
    → IsRelated by_section path r
    → In r (related_entries by_section path)
related_entries_complete by_section path r h =
    related_entries-listed by_section path r h.entries h.listed h.among h.file h.linked h.touches

-- An entry is found, under a section, exactly if it stands in that section and has a linked file
-- that, rid of white space and slashes at its ends, is the path asked for, a directory above it, or
-- something below it.
pub related_entries_iff :
    (by_section : List (Str × List Entry)) (path : Str) (r : RelatedEntry)
    → In r (related_entries by_section path) ↔ IsRelated by_section path r
related_entries_iff by_section path r =
    (related_entries_sound by_section path r, related_entries_complete by_section path r)
