-- ===== src/Manifest/Laws.antt =====
-- Which objects come out of a manifest (pkg/manifest/manifest_utils.go).
use achilles_sdk.Api.{Error, Try, err, ok, wrap}
use achilles_sdk.Manifest.{
  Document, copy_objects, decode_from, decode_objects, fetch_objects_from_yaml, item_list, nothing,
  object,
}
use achilles_sdk.Prelude.{
  List, Option, [], append-nil, append_assoc, arith, if◌then◌else◌, is_some, none, some, ◌++◌, ◌∷◌,
  ◌≡◌,
}

module _ {Unstructured : Type 0} where
  -- The objects of one document.
  abbrev pub contents : Try (Document Unstructured) → List Unstructured
  contents (err e) = []
  contents (ok (item_list items e)) = items
  contents (ok nothing) = []
  contents (ok (object o)) = o ∷ []

  -- Why reading ends with a document, if it does.
  abbrev pub failure : Try (Document Unstructured) → Option Error
  failure (err e) = some (wrap "decoding object from YAML" e)
  failure (ok (item_list items e)) = e
  failure (ok nothing) = none
  failure (ok (object o)) = none

  -- The documents up to the first that fails, that one included.
  abbrev pub until_failure : List (Try (Document Unstructured)) → List (Try (Document Unstructured))
  until_failure [] = []
  until_failure (d ∷ rest) = d ∷ (if is_some (failure d) then [] else until_failure rest)

  abbrev pub first_failure : List (Try (Document Unstructured)) → Option Error
  first_failure [] = none
  first_failure (d ∷ rest) = if is_some (failure d) then failure d else first_failure rest

  abbrev pub all_contents : List (Try (Document Unstructured)) → List Unstructured
  all_contents [] = []
  all_contents (d ∷ rest) = contents d ++ all_contents rest

  decode_from_lem :
      (reader : List (Try (Document Unstructured))) (objects : List Unstructured)
      → decode_from reader objects
        ≡ (objects ++ all_contents (until_failure reader), first_failure reader)
  unfolding decode_from
  decode_from_lem [] objects = simp append-nil
  decode_from_lem (err e ∷ rest) objects = simp append-nil
  decode_from_lem (ok (item_list items none) ∷ rest) objects =
      simp (decode_from_lem rest, append_assoc)
  decode_from_lem (ok (item_list items (some e)) ∷ rest) objects = simp append-nil
  decode_from_lem (ok nothing ∷ rest) objects = simp (decode_from_lem rest)
  decode_from_lem (ok (object o) ∷ rest) objects = simp (decode_from_lem rest, append_assoc)

  copy_objects_lem :
      (objects copied : List Unstructured) → copy_objects objects copied ≡ copied ++ objects
  unfolding copy_objects
  copy_objects_lem [] copied = simp append-nil
  copy_objects_lem (o ∷ rest) copied = simp (copy_objects_lem rest, append_assoc)

  -- DecodeObjects returns the objects of the documents up to the first that fails, in their order,
  -- with the items of a list in its place and nothing for an empty document, and it returns that
  -- failure. FetchObjectsFromYaml returns the same objects if no document fails, and otherwise only
  -- the first failure.
  pub decode_objects_lem :
      (reader : List (Try (Document Unstructured)))
      → (decode_objects reader ≡ (all_contents (until_failure reader), first_failure reader))
        × (fetch_objects_from_yaml reader ≡ elim (first_failure reader) [
          | some e ↦ err e
          | none ↦ ok (all_contents (until_failure reader))
        ])
  unfolding decode_objects fetch_objects_from_yaml
  decode_objects_lem reader = (
    decode_from_lem reader [],
    ground (
      arith,
      decode_from_lem reader [],
      copy_objects_lem (all_contents (until_failure reader)) [],
    ),
  )
