-- ===== src/Web/Filter/Facets.antt =====
-- The counts of the tag facets.
use key_page.Prelude.{
  ℕ, ◌+◌, ◌≡◌, ap, String, Bool, true, false, not, ◌&&◌, List, [], ◌∷◌, ◌++◌, map, arith, ◌==◌,
  Bool-cases, inl, inr, eq_iff, if◌then◌else◌,
}
use key_page.Tables.{count, any, contains}
use key_page.Db.Rows.{KeyEntryRow}
use key_page.Shared.Text.{TextOps}
use key_page.Web.Filter.{
  TagFacet, bump, add_facet, to_tag_key, add_tags, add_entries, collect_tag_facets,
}

-- the number that the facets show for a key
unfoldable pub shown_for : String → List TagFacet → ℕ
shown_for k [] = 0
shown_for k (f ∷ fs) = if f.key == k then f.count else shown_for k fs

abbrev one_if : Bool → ℕ
one_if true = 1
one_if false = 0

shown_for-bump :
    (k key : String) (fs : List TagFacet)
    → any (λ f. f.key == key) fs ≡ true
    → shown_for k (bump key fs) ≡ shown_for k fs + one_if (key == k)
unfolding shown_for bump any
shown_for-bump k key [] h = absurd (ground (arith, h))
shown_for-bump k key (f ∷ fs) h =
    ground (arith, h, shown_for-bump k key fs, eq_iff f.key key, eq_iff f.key k, eq_iff key k)

shown_for-end :
    (k key label : String) (fs : List TagFacet)
    → any (λ f. f.key == key) fs ≡ false
    → shown_for k (fs ++ (record { key = key; label = label; count = 1 } ∷ []))
      ≡ shown_for k fs + one_if (key == k)
unfolding shown_for any
shown_for-end k key label [] h = ground (arith, h)
shown_for-end k key label (f ∷ fs) h =
    ground (arith, h, shown_for-end k key label fs, eq_iff f.key key, eq_iff f.key k, eq_iff key k)

shown_for-add_facet :
    (k key label : String) (fs : List TagFacet)
    → shown_for k (add_facet key label fs) ≡ shown_for k fs + one_if (key == k)
unfolding add_facet
shown_for-add_facet k key label fs = elim (Bool-cases (any (λ f. f.key == key) fs)) [
  | inl old ↦ rw old (shown_for-bump k key fs old)
  | inr new ↦ rw new (shown_for-end k key label fs new)
]

module _ (t : TextOps) where
  -- the entry has the tag
  unfoldable pub has_tag : String → KeyEntryRow → Bool
  has_tag k e = contains k (map (to_tag_key t) e.tags)

  shown_for-add_tags :
      (k : String) (tags seen : List String) (fs : List TagFacet)
      → (k == "") ≡ false
      → shown_for k (add_tags t tags seen fs)
        ≡ shown_for k fs + one_if (not (contains k seen) && contains k (map (to_tag_key t) tags))
  unfolding add_tags contains
  shown_for-add_tags k [] seen fs h = ground arith
  shown_for-add_tags k (tag ∷ tags) seen fs h =
      let key = to_tag_key t tag in
      let same : key ≡ k → contains key seen ≡ contains k seen = ap (λ x. contains x seen) in
      ground (
        arith,
        h,
        shown_for-add_tags k tags seen fs h,
        shown_for-add_tags k tags (key ∷ seen) (add_facet key (t.trim tag) fs) h,
        shown_for-add_facet k key (t.trim tag) fs,
        eq_iff key k,
        eq_iff key "",
        same,
      )

  shown_for-add_entries :
      (k : String) (es : List KeyEntryRow) (fs : List TagFacet)
      → (k == "") ≡ false
      → shown_for k (add_entries t es fs) ≡ shown_for k fs + count (has_tag k) es
  unfolding add_entries count has_tag contains
  shown_for-add_entries k [] fs h = omega arith
  shown_for-add_entries k (e ∷ es) fs h = ground (
    arith,
    shown_for-add_entries k es (add_tags t e.tags [] fs) h,
    shown_for-add_tags k e.tags [] fs h,
  )

  -- The count of a tag's facet is the number of the entries that have the tag, whatever its case and
  -- however often an entry repeats it; 0 stands for a tag without a facet.
  pub collect_tag_facets-count :
      (entries : List KeyEntryRow) (k : String)
      → (k == "") ≡ false
      → shown_for k (collect_tag_facets t entries) ≡ count (has_tag k) entries
  unfolding collect_tag_facets shown_for
  collect_tag_facets-count entries k h = omega (arith, shown_for-add_entries k entries [] h)
