-- ===== src/Web/Filter.antt =====
-- apps/web/src/lib/key-entry-filter.ts: the tags of the dashboard. `localeCompare`, by which the
-- facets are sorted for the page, is not modelled.
pub mod Facets
use key_page.Prelude.{
  ℕ, suc, ◌+◌, String, Bool, true, false, not, ◌&&◌, ◌||◌, Option, none, some, List, [], ◌∷◌, ◌++◌,
  map, ◌==◌, if◌then◌else◌,
}
use key_page.Tables.{select, all, any, contains, find}
use key_page.Db.Rows.{KeyEntryRow}
use key_page.Shared.Text.{TextOps}

-- TagFacet
pub record TagFacet : Type 0 where
  pub key : String
  pub label : String
  pub count : ℕ

-- the map of the facets in the order of insertion: one more of a key that is there
unfoldable pub bump : String → List TagFacet → List TagFacet
bump key [] = []
bump key (f ∷ fs) = if f.key == key then record f { count = suc f.count } ∷ fs else f ∷ bump key fs

-- `facets.get(key)`, and either `existing.count += 1` or `facets.set`
unfoldable pub add_facet : (key label : String) → List TagFacet → List TagFacet
add_facet key label facets =
    if any (λ f. f.key == key) facets
    then bump key facets
    else facets ++ (record { key = key; label = label; count = 1 } ∷ [])

-- toggleTagKey
unfoldable pub toggle_tag_key : List String → String → List String
toggle_tag_key selected key =
    if contains key selected
    then select (λ item. not (item == key)) selected
    else selected ++ (key ∷ [])

module _ (t : TextOps) where
  -- toTagKey
  unfoldable pub to_tag_key : String → String
  to_tag_key tag = t.to_lower_case (t.trim tag)

  -- filterByTags
  unfoldable pub filter_by_tags : List KeyEntryRow → List String → List KeyEntryRow
  filter_by_tags entries [] = entries
  filter_by_tags entries (key ∷ keys) =
      select (λ e. all (λ k. contains k (map to_tag_key e.tags)) (key ∷ keys)) entries

  -- the loop over the tags of one entry, with the keys that were seen in it
  unfoldable pub add_tags : List String → (seen : List String) → List TagFacet → List TagFacet
  add_tags [] seen facets = facets
  add_tags (tag ∷ tags) seen facets =
      let key = to_tag_key tag in
      let skipped = add_tags tags seen facets in
      let added = add_tags tags (key ∷ seen) (add_facet key (t.trim tag) facets) in
      if key == "" || contains key seen then skipped else added

  -- the loop of collectTagFacets over the entries, with the facets so far
  unfoldable pub add_entries : List KeyEntryRow → List TagFacet → List TagFacet
  add_entries [] facets = facets
  add_entries (e ∷ es) facets = add_entries es (add_tags e.tags [] facets)

  -- collectTagFacets, before it sorts
  unfoldable pub collect_tag_facets : List KeyEntryRow → List TagFacet
  collect_tag_facets entries = add_entries entries []
