-- ===== src/ResourceGetter/Selection.antt =====
-- Which types the loops of ResourceGetter.Get over the discovered resources select: a description
-- of the filters without maps and accumulators, and that the groups take no part.
use achilles_sdk.GoMap
use achilles_sdk.GoMap.{GoMap}
use achilles_sdk.GoMap.Laws.{member-insert}
use achilles_sdk.Api.{gvk_eq, Gvk}
use achilles_sdk.ResourceGetter.{
  ApiGroupResources, ApiResource, FilterOptions, is_skipped, has_suffix, intersects,
  scope_namespace, scope_root, select_groups, select_resources, select_versions,
}
use achilles_sdk.Prelude.{
  Bool, List, Option, String, [], ap, arith, contains, false, if◌then◌else◌, none, not, refl, some,
  string_eq, true, ◌&&◌, ◌==◌, ◌||◌, ◌∙◌, ◌∷◌, ◌≡◌,
}

-- A resource is none of the two subresources, its version is one of those asked for, its scope is
-- the one asked for, and one of its categories is asked for, where anything is asked for.
abbrev pub passes : FilterOptions → String → ApiResource → Bool
passes opts version resource =
    not (has_suffix resource.name "/status")
    && not (has_suffix resource.name "/scale")
    && elim opts.versions [ none ↦ true | some versions ↦ contains versions version ]
    && (opts.scope == ""
        || opts.scope == (if resource.namespaced then scope_namespace else scope_root))
    && elim opts.categories [
      | none ↦ true
      | some categories ↦ intersects categories resource.categories
    ]

is_skipped-passes :
    (opts : FilterOptions) (version : String) (resource : ApiResource)
    → is_skipped opts version resource ≡ not (passes opts version resource)
unfolding is_skipped
is_skipped-passes opts version resource = ground arith

-- Discovery has a resource of this type that passes the filters by version, scope and category.
abbrev pub offers_kind : FilterOptions → String → String → List ApiResource → Bool
offers_kind opts version kind [] = false
offers_kind opts version kind (resource ∷ rest) =
    (passes opts version resource && resource.kind == kind) || offers_kind opts version kind rest

abbrev pub offers_version : FilterOptions → String → String → GoMap String (List ApiResource) → Bool
offers_version opts asked kind [] = false
offers_version opts asked kind ((version, resources) ∷ rest) =
    (version == asked && offers_kind opts version kind resources)
    || offers_version opts asked kind rest

abbrev pub offers : FilterOptions → List ApiGroupResources → Gvk → Bool
offers opts [] gvk = false
offers opts (group ∷ rest) gvk =
    (group.group == gvk.group && offers_version opts gvk.version gvk.kind group.versioned_resources)
    || offers opts rest gvk

member-select_resources :
    (opts : FilterOptions) (group version : String) (resources : List ApiResource)
    (selected : GoMap Gvk ApiResource) (gvk : Gvk)
    → GoMap.member gvk (select_resources opts group version resources selected) ≡ (
        (group == gvk.group
          && (version == gvk.version && offers_kind opts version gvk.kind resources))
        || GoMap.member gvk selected)
unfolding select_resources
member-select_resources opts group version [] selected gvk = ground arith
member-select_resources opts group version (resource ∷ rest) selected gvk = ground (
  arith,
  member-select_resources opts group version rest
      (if is_skipped opts version resource
        then selected
        else GoMap.insert (record { group = group; version = version; kind = resource.kind })
            resource selected)
      gvk,
  member-insert (record { group = group; version = version; kind = resource.kind }) gvk resource
      selected,
)

member-select_versions :
    (opts : FilterOptions) (group : String) (versions : GoMap String (List ApiResource))
    (selected : GoMap Gvk ApiResource) (gvk : Gvk)
    → GoMap.member gvk (select_versions opts group versions selected) ≡ (
        (group == gvk.group && offers_version opts gvk.version gvk.kind versions)
        || GoMap.member gvk selected)
unfolding select_versions
member-select_versions opts group [] selected gvk = ground arith
member-select_versions opts group ((version, resources) ∷ rest) selected gvk = ground (
  arith,
  member-select_versions opts group rest (select_resources opts group version resources selected)
      gvk,
  member-select_resources opts group version resources selected gvk,
)

pub member-select_groups :
    (opts : FilterOptions) (groups : List ApiGroupResources) (selected : GoMap Gvk ApiResource)
    (gvk : Gvk)
    → GoMap.member gvk (select_groups opts groups selected)
      ≡ (offers opts groups gvk || GoMap.member gvk selected)
unfolding select_groups
member-select_groups opts [] selected gvk = refl
member-select_groups opts (group ∷ rest) selected gvk = ground (
  arith,
  member-select_groups opts rest
      (select_versions opts group.group group.versioned_resources selected) gvk,
  member-select_versions opts group.group group.versioned_resources selected gvk,
)

-- The groups take no part in the selection.
module _ (opts : FilterOptions) (groups : Option (List String)) where
  abbrev pub regrouped : FilterOptions
  regrouped = record opts { groups = groups }

  select_resources-regrouped :
      (group version : String) (resources : List ApiResource) (selected : GoMap Gvk ApiResource)
      → select_resources regrouped group version resources selected
        ≡ select_resources opts group version resources selected
  unfolding select_resources is_skipped
  select_resources-regrouped group version [] selected = refl
  select_resources-regrouped group version (resource ∷ rest) selected =
      select_resources-regrouped group version rest (
        if is_skipped opts version resource
        then selected
        else GoMap.insert (record { group = group; version = version; kind = resource.kind })
            resource selected)

  select_versions-regrouped :
      (group : String) (versions : GoMap String (List ApiResource))
      (selected : GoMap Gvk ApiResource)
      → select_versions regrouped group versions selected
        ≡ select_versions opts group versions selected
  unfolding select_versions
  select_versions-regrouped group [] selected = refl
  select_versions-regrouped group ((version, resources) ∷ rest) selected =
      ap (select_versions regrouped group rest)
        (select_resources-regrouped group version resources selected)
      ∙ select_versions-regrouped group rest
          (select_resources opts group version resources selected)

  pub select_groups-regrouped :
      (discovered : List ApiGroupResources) (selected : GoMap Gvk ApiResource)
      → select_groups regrouped discovered selected ≡ select_groups opts discovered selected
  unfolding select_groups
  select_groups-regrouped [] selected = refl
  select_groups-regrouped (group ∷ rest) selected =
      ap (select_groups regrouped rest)
        (select_versions-regrouped group.group group.versioned_resources selected)
      ∙ select_groups-regrouped rest
          (select_versions opts group.group group.versioned_resources selected)
