-- ===== src/Json/Laws.antt =====
-- What the merge of two JSON objects is, and when it panics.
use achilles_sdk.GoMap.{GoMap}
use achilles_sdk.Api.{Try, ok}
use achilles_sdk.Maps.{merge_maps}
use achilles_sdk.Json.{after_copy, copy_into, merge_api_extensions_json, merge_decoded}
use achilles_sdk.Prelude.{Option, String, nat_eq, none, some, string_eq, ◌∷◌, ◌≡◌}

module _ (unmarshal : String → Try (Option (GoMap String String)))
    (marshal : Option (GoMap String String) → Try String) (a b : String) where
  -- Two objects that can be decoded are merged into the text of the map that MergeMaps returns.
  merged_lem :
      (first second : GoMap String String) (raw : String)
      → unmarshal a ≡ ok (some first)
      → unmarshal b ≡ ok (some second)
      → marshal (some (merge_maps first second)) ≡ ok raw
      → merge_api_extensions_json unmarshal marshal (some a) (some b) ≡ some (ok raw)
  unfolding merge_api_extensions_json merge_decoded after_copy copy_into merge_maps
  merged_lem first second raw d e f = simp (d, e, f)

  -- A first text "null", which is decoded as nil, makes the merge with an object that has a key
  -- panic.
  null_panics :
      (k v : String) (rest : GoMap String String)
      → unmarshal a ≡ ok none
      → unmarshal b ≡ ok (some ((k, v) ∷ rest))
      → merge_api_extensions_json unmarshal marshal (some a) (some b) ≡ none
  unfolding merge_api_extensions_json merge_decoded after_copy copy_into
  null_panics k v rest d e = simp (d, e)
