-- ===== src/Json.antt =====
-- pkg/json/merge.go. `unmarshal` and `marshal` are those of encoding/json, for objects whose values
-- are opaque: what is decoded is a map, or nil for the text "null". What panics is `none`.
pub mod Laws
use achilles_sdk.GoMap.{GoMap}
use achilles_sdk.Api.{Error, Try, err, ok, wrap}
use achilles_sdk.Maps.{copy}
use achilles_sdk.Prelude.{Option, String, [], nat_eq, none, some, string_eq, ◌∷◌}

-- `maps.Copy(dst, src)` for a map that may be nil: an assignment to an entry of nil panics.
unfoldable pub copy_into :
    Option (GoMap String String) → GoMap String String → Option (Option (GoMap String String))
copy_into none [] = some none
copy_into none (entry ∷ src) = none
copy_into (some dst) src = some (some (copy dst src))

-- A nil map is read as an empty one.
abbrev pub entries : Option (GoMap String String) → GoMap String String
entries none = []
entries (some m) = m

module _ (unmarshal : String → Try (Option (GoMap String String)))
    (marshal : Option (GoMap String String) → Try String) where
  abbrev wrapped : String → Try String → Try String
  wrapped text (ok a) = ok a
  wrapped text (err e) = err (wrap text e)

  -- After the copy.
  unfoldable pub after_copy : Option (Option (GoMap String String)) → Option (Try String)
  after_copy none = none
  after_copy (some merged) = some (wrapped "marshalling merged maps" (marshal merged))

  -- With both decoded.
  unfoldable pub merge_decoded :
      Try (Option (GoMap String String)) → Try (Option (GoMap String String)) → Option (Try String)
  unfolding after_copy copy_into
  merge_decoded (err e) b = some (err (wrap "unmarshalling first JSON variable" e))
  merge_decoded (ok a) (err e) = some (err (wrap "unmarshalling second JSON variable" e))
  merge_decoded (ok a) (ok b) = after_copy (copy_into a (entries b))

  -- The first is an empty map and the second a nil one where the argument is nil.
  abbrev pub decoded_or :
      Option (GoMap String String) → Option String → Try (Option (GoMap String String))
  decoded_or m none = ok m
  decoded_or m (some raw) = unmarshal raw

  -- The raw texts of the two arguments, each of which may be nil, and that of the result.
  unfoldable pub merge_api_extensions_json : Option String → Option String → Option (Try String)
  unfolding merge_decoded
  merge_api_extensions_json none none = some (ok "")
  merge_api_extensions_json none (some b) =
      merge_decoded (decoded_or (some []) none) (decoded_or none (some b))
  merge_api_extensions_json (some a) b =
      merge_decoded (decoded_or (some []) (some a)) (decoded_or none b)
