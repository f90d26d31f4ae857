-- ===== src/Fsm/Metrics/Prometheus.antt =====
-- What the sink uses of prometheus/client_golang, which is not part of the repository. A vector is
-- made for a list of label names and holds one series for each list of label values that was used.
-- The value of a series is a number: of a gauge its value, of a counter its count, of a histogram
-- how often it has observed a value.
use achilles_sdk.GoMap.{GoMap}
use achilles_sdk.Prelude.{
  Bool, List, Option, String, [], arith, eq_refl, false, if◌then◌else◌, is_some, length, nat_eq,
  none, refl, some, string_eq, suc, true, ℕ, ◌&&◌, ◌==◌, ◌||◌, ◌∷◌, ◌≡◌,
}

-- Two lists of texts are equal.
abbrev pub same_texts : List String → List String → Bool
same_texts [] [] = true
same_texts [] (t ∷ ts) = false
same_texts (s ∷ ss) [] = false
same_texts (s ∷ ss) (t ∷ ts) = s == t && same_texts ss ts

pub same_texts_refl : (ss : List String) → same_texts ss ss ≡ true
same_texts_refl [] = refl
same_texts_refl (s ∷ ss) = ground (arith, same_texts_refl ss, eq_refl s)

-- The labels of a series: each name with its value.
abbrev pub labels : List String → List String → GoMap String String
labels [] values = []
labels (n ∷ names) [] = []
labels (n ∷ names) (v ∷ values) = (n, v) ∷ labels names values

-- The series has a label with the name and the value.
abbrev pub has_label : String → String → GoMap String String → Bool
has_label name value [] = false
has_label name value ((n, v) ∷ rest) = (n == name && v == value) || has_label name value rest

-- The series has all the labels.
abbrev pub matches : GoMap String String → GoMap String String → Bool
matches [] series_labels = true
matches ((name, value) ∷ rest) series_labels =
    has_label name value series_labels && matches rest series_labels

-- A series that does not exist begins at zero.
abbrev pub or_zero : Option ℕ → ℕ
or_zero none = 0
or_zero (some n) = n

-- The operations that write a series, `WithLabelValues(values...)` followed by `Set`, `Inc` or
-- `Observe`, are for as many values as there are names: otherwise `WithLabelValues` panics.
pub record MetricVecs : Type 1 where
  pub Vec : List String → Type 0
  pub new : (names : List String) → Vec names
  pub series : {names : List String} → List String → Vec names → Option ℕ
  pub set : {names : List String} → List String → ℕ → Vec names → Vec names
  pub inc : {names : List String} → List String → Vec names → Vec names
  pub observe : {names : List String} → List String → ℕ → Vec names → Vec names
  pub delete_label_values : {names : List String} → List String → Vec names → Vec names × Bool
  pub delete_partial_match : {names : List String} → GoMap String String → Vec names → Vec names × ℕ
  pub reset : {names : List String} → Vec names → Vec names
  pub series-new : (names asked : List String) → series asked (new names) ≡ none
  pub series-set :
      {names : List String} (values asked : List String) (x : ℕ) (v : Vec names)
      → length values ≡ length names
      → series asked (set values x v) ≡ (if same_texts values asked then some x else series asked v)
  pub series-inc :
      {names : List String} (values asked : List String) (v : Vec names)
      → length values ≡ length names
      → series asked (inc values v) ≡ (
          if same_texts values asked
          then some (suc (or_zero (series values v)))
          else series asked v)
  pub series-observe :
      {names : List String} (values asked : List String) (x : ℕ) (v : Vec names)
      → length values ≡ length names
      → series asked (observe values x v) ≡ (
          if same_texts values asked
          then some (suc (or_zero (series values v)))
          else series asked v)
  pub series-delete_label_values :
      {names : List String} (values asked : List String) (v : Vec names)
      → series asked (delete_label_values values v).0
        ≡ (if same_texts values asked then none else series asked v)
  pub deleted_label_values :
      {names : List String} (values : List String) (v : Vec names)
      → (delete_label_values values v).1 ≡ is_some (series values v)
  pub series-delete_partial_match :
      {names : List String} (partial : GoMap String String) (asked : List String) (v : Vec names)
      → series asked (delete_partial_match partial v).0
        ≡ (if matches partial (labels names asked) then none else series asked v)
  pub series-reset :
      {names : List String} (asked : List String) (v : Vec names) → series asked (reset v) ≡ none
