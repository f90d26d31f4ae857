-- ===== src/Manifest.antt =====
-- pkg/manifest/manifest_utils.go and pkg/yaml/marshal.go. The decoder of YAML documents is the list
-- of what it returns until the end of the input; an object without a type is a parameter.
pub mod Laws
use achilles_sdk.Api.{Env, Error, Gvk, Object, Try, err, ok, plain, wrap}
use achilles_sdk.Prelude.{List, Option, String, [], if◌then◌else◌, none, some, ◌++◌, ◌∷◌}

-- unstructured.Unstructured: a list, with the items that `EachListItem` visits and the error that
-- it ends with, if any; no object at all, as an empty document is decoded; or an object.
pub data Document (Unstructured : Type 0) : Type 0 where
  item_list : List Unstructured → Option Error → Document Unstructured
  nothing : Document Unstructured
  object : Unstructured → Document Unstructured

module _ {Unstructured : Type 0} where
  -- The loop of DecodeObjects, with the objects so far.
  unfoldable pub decode_from :
      List (Try (Document Unstructured)) → List Unstructured → List Unstructured × Option Error
  decode_from [] objects = (objects, none)
  decode_from (err e ∷ rest) objects = (objects, some (wrap "decoding object from YAML" e))
  decode_from (ok (item_list items none) ∷ rest) objects = decode_from rest (objects ++ items)
  decode_from (ok (item_list items (some e)) ∷ rest) objects = (objects ++ items, some e)
  decode_from (ok nothing ∷ rest) objects = decode_from rest objects
  decode_from (ok (object o) ∷ rest) objects = decode_from rest (objects ++ o ∷ [])

  unfoldable pub decode_objects :
      List (Try (Document Unstructured)) → List Unstructured × Option Error
  unfolding decode_from
  decode_objects reader = decode_from reader []

  -- The loop that copies the objects.
  unfoldable pub copy_objects : List Unstructured → List Unstructured → List Unstructured
  copy_objects [] objects = objects
  copy_objects (o ∷ rest) objects = copy_objects rest (objects ++ o ∷ [])

  unfoldable pub fetch_objects_from_yaml :
      List (Try (Document Unstructured)) → Try (List Unstructured)
  unfolding decode_objects copy_objects
  fetch_objects_from_yaml reader =
      let (objects, e) = decode_objects reader in
      elim e [ some e' ↦ err e' | none ↦ ok (copy_objects objects []) ]

-- MarshalWithTypeMeta, with the type that stands in the object, which it changes.
unfoldable pub marshal_with_type_meta :
    Env → (Gvk → Object → Try String) → Gvk → Object → Try String × Gvk
marshal_with_type_meta env marshal type_meta o =
    if env.recognizes o.gvk
    then (
      elim (marshal o.gvk o) [
        | ok text ↦ ok text
        | err e ↦ err (wrap "marshalling object to yaml" e)
      ],
      o.gvk,
    )
    else (
      err (wrap "getting GVK for object" (plain "no kind is registered for the type")),
      type_meta,
    )
