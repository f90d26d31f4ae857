-- ===== src/ResourceGetter/Laws.antt =====
-- What ResourceGetter.Get returns, against the description of the selection.
use achilles_sdk.GoMap
use achilles_sdk.GoMap.{GoMap}
use achilles_sdk.GoMap.Laws.{member-insert}
use achilles_sdk.Api.{gvk_eq, Gvk, Try, ok, same_gvk_iff}
use achilles_sdk.ResourceGetter.{
  ApiGroupResources, ApiResource, KnownType, Resource, ResourceGetter, add_known_types,
  known_resource, known_resources, put_known_type, get, has_suffix, item_gvk, new_resource,
  resource_name, select_groups, with_groups, with_known_type,
}
use achilles_sdk.ResourceGetter.Selection.{
  member-select_groups, offers, regrouped, select_groups-regrouped,
}
use achilles_sdk.Prelude.{
  All, Bool, List, Option, String, [], ap, arith, false, is_some, map, none, refl, some, string_eq,
  ◌&&◌, ◌==◌, ◌||◌, ◌∙◌, ◌∷◌, ◌≡◌,
}

module _ {Object ObjectList : Type 0} where
  -- The scheme knows the type, or the type of its lists.
  abbrev pub knows : GoMap Gvk (KnownType Object ObjectList) → Gvk → Bool
  knows [] gvk = false
  knows ((known, t) ∷ rest) gvk = item_gvk known == gvk || knows rest gvk

  abbrev pub resource_gvk : Resource Object ObjectList → Gvk
  resource_gvk r = record { group = r.group; version = r.version; kind = r.kind }

  -- One of the resources is of this type.
  abbrev pub has_gvk : List (Resource Object ObjectList) → Gvk → Bool
  has_gvk [] gvk = false
  has_gvk (r ∷ rest) gvk = resource_gvk r == gvk || has_gvk rest gvk

  -- A resource stands under its own type.
  abbrev Keyed : GoMap Gvk (Resource Object ObjectList) → Type 0
  Keyed = All (λ entry. resource_gvk entry.1 ≡ entry.0)

  insert-Keyed :
      (gvk : Gvk) (r : Resource Object ObjectList) (m : GoMap Gvk (Resource Object ObjectList))
      → resource_gvk r ≡ gvk
      → Keyed m
      → Keyed (GoMap.insert gvk r m)
  unfolding GoMap.insert
  insert-Keyed gvk r [] e k = (e, tt)
  insert-Keyed gvk r ((first, old) ∷ m) e k =
      ground (arith, insert-Keyed gvk r m, same_gvk_iff first gvk)

  values-Keyed :
      (m : GoMap Gvk (Resource Object ObjectList)) (gvk : Gvk)
      → Keyed m
      → has_gvk (map (λ entry. entry.1) m) gvk ≡ GoMap.member gvk m
  unfolding GoMap.member GoMap.lookup
  values-Keyed [] gvk k = refl
  values-Keyed ((first, r) ∷ m) gvk (e, k) =
      ground
        (arith, values-Keyed m gvk k, same_gvk_iff first gvk, same_gvk_iff (resource_gvk r) gvk)

  lookup-Keyed :
      (m : GoMap Gvk (Resource Object ObjectList)) (gvk : Gvk) (r : Resource Object ObjectList)
      → Keyed m
      → GoMap.lookup gvk m ≡ some r
      → resource_gvk r ≡ gvk
  unfolding GoMap.lookup
  lookup-Keyed [] gvk r k e = ground arith
  lookup-Keyed ((first, old) ∷ m) gvk r (e, k) found =
      ground (arith, lookup-Keyed m gvk r k, same_gvk_iff first gvk)

  with_known_type-gvk :
      (is_list_kind : Bool) (t : KnownType Object ObjectList) (r : Resource Object ObjectList)
      → resource_gvk (with_known_type is_list_kind t r) ≡ resource_gvk r
  unfolding with_known_type
  with_known_type-gvk is_list_kind t r = ground arith

  module _ (pluralize : String → String) where
    known_resource-gvk :
        (gvk : Gvk) (is_list_kind : Bool) (t : KnownType Object ObjectList)
        (api_resource : ApiResource) (old : Option (Resource Object ObjectList))
        → ((r : Resource Object ObjectList) → old ≡ some r → resource_gvk r ≡ gvk)
        → resource_gvk (known_resource pluralize gvk is_list_kind t api_resource old) ≡ gvk
    unfolding known_resource new_resource
    known_resource-gvk gvk is_list_kind t api_resource none h =
        with_known_type-gvk is_list_kind t
          (new_resource gvk (resource_name pluralize is_list_kind api_resource))
    known_resource-gvk gvk is_list_kind t api_resource (some r) h =
        with_known_type-gvk is_list_kind t r ∙ h r refl

    put_known_type-Keyed :
        (gvk : Gvk) (is_list_kind : Bool) (t : KnownType Object ObjectList)
        (selected : Option ApiResource) (found : GoMap Gvk (Resource Object ObjectList))
        → Keyed found
        → Keyed (put_known_type pluralize gvk is_list_kind t selected found)
    unfolding put_known_type
    put_known_type-Keyed gvk is_list_kind t none found k = k
    put_known_type-Keyed gvk is_list_kind t (some api_resource) found k =
        let old = GoMap.lookup gvk found in
        insert-Keyed gvk (known_resource pluralize gvk is_list_kind t api_resource old) found
          (known_resource-gvk gvk is_list_kind t api_resource old
            (λ r e. lookup-Keyed found gvk r k e))
          k

    member-put_known_type :
        (gvk asked : Gvk) (is_list_kind : Bool) (t : KnownType Object ObjectList)
        (selected : Option ApiResource) (found : GoMap Gvk (Resource Object ObjectList))
        → GoMap.member asked (put_known_type pluralize gvk is_list_kind t selected found)
          ≡ ((is_some selected && gvk == asked) || GoMap.member asked found)
    unfolding put_known_type
    member-put_known_type gvk asked is_list_kind t none found = refl
    member-put_known_type gvk asked is_list_kind t (some api_resource) found =
        member-insert gvk asked
          (known_resource pluralize gvk is_list_kind t api_resource (GoMap.lookup gvk found)) found

    add_known_types-Keyed :
        (selected : GoMap Gvk ApiResource) (scheme : GoMap Gvk (KnownType Object ObjectList))
        (found : GoMap Gvk (Resource Object ObjectList))
        → Keyed found
        → Keyed (add_known_types pluralize selected scheme found)
    unfolding add_known_types
    add_known_types-Keyed selected [] found k = k
    add_known_types-Keyed selected ((known, t) ∷ rest) found k =
        let gvk = item_gvk known in
        let is_list_kind = has_suffix known.kind "List" in
        add_known_types-Keyed selected rest
          (put_known_type pluralize gvk is_list_kind t (GoMap.lookup gvk selected) found)
          (put_known_type-Keyed gvk is_list_kind t (GoMap.lookup gvk selected) found k)

    member-add_known_types :
        (selected : GoMap Gvk ApiResource) (scheme : GoMap Gvk (KnownType Object ObjectList))
        (found : GoMap Gvk (Resource Object ObjectList)) (gvk : Gvk)
        → GoMap.member gvk (add_known_types pluralize selected scheme found)
          ≡ ((GoMap.member gvk selected && knows scheme gvk) || GoMap.member gvk found)
    unfolding add_known_types GoMap.member
    member-add_known_types selected [] found gvk = ground arith
    member-add_known_types selected ((known, t) ∷ rest) found gvk =
        let item = item_gvk known in
        let is_list_kind = has_suffix known.kind "List" in
        ground (
          arith,
          member-add_known_types selected rest
              (put_known_type pluralize item is_list_kind t (GoMap.lookup item selected) found) gvk,
          member-put_known_type item gvk is_list_kind t (GoMap.lookup item selected) found,
          same_gvk_iff item gvk,
        )

    -- Where discovery answers, Get returns a resource for exactly the types that pass the filters
    -- by version, scope and category and that the scheme knows, or knows the lists of. A filter by
    -- version or category that was given no values lets nothing pass. WithGroups changes nothing of
    -- what Get returns.
    pub get_lem :
        (r : ResourceGetter Object ObjectList) (groups : List ApiGroupResources)
        (wanted : List String) (gvk : Gvk)
        → r.discovery_client ≡ ok groups
        → (resources : List (Resource Object ObjectList)) × (get pluralize r ≡ ok resources)
          × (get pluralize (with_groups wanted r) ≡ ok resources)
          × (has_gvk resources gvk ≡ (offers r.opts groups gvk && knows r.scheme gvk))
    unfolding get known_resources with_groups GoMap.member GoMap.lookup
    get_lem r groups wanted gvk discovered =
        let selected = select_groups r.opts groups [] in
        let found = add_known_types pluralize selected r.scheme [] in
        let of_selected : GoMap Gvk ApiResource → Try (List (Resource Object ObjectList)) =
          λ s. ok (map (λ entry. entry.1) (add_known_types pluralize s r.scheme [])) in
        (
          map (λ entry. entry.1) found,
          ap (known_resources pluralize r.opts r.scheme) discovered,
          ap (known_resources pluralize (regrouped r.opts (some wanted)) r.scheme) discovered
              ∙ ap of_selected (select_groups-regrouped r.opts (some wanted) groups []),
          values-Keyed found gvk (add_known_types-Keyed selected r.scheme [] tt)
              ∙ ground (
                arith,
                member-add_known_types selected r.scheme [] gvk,
                member-select_groups r.opts groups [] gvk,
              ),
        )
