-- ===== src/Tests/SortedTree/Series.antt =====
-- Vectors of Prometheus' kind: the series in a map from their label values.
use achilles_sdk.GoMap
use achilles_sdk.GoMap.{GoMap}
use achilles_sdk.GoMap.Laws.{lookup-delete, lookup-insert}
use achilles_sdk.Fsm.Metrics.Prometheus.{
  MetricVecs, labels, matches, or_zero, same_texts, same_texts_refl,
}
use achilles_sdk.Prelude.{
  Bool, Bool-cases, Eq, List, String, [], ap, arith, eq_iff, if◌then◌else◌, inl, inr, is_some,
  nat_eq, none, refl, string_eq, subst, suc, true, ℕ, ◌↔◌, ◌∷◌, ◌≡◌,
}

same_texts_iff : (ss ts : List String) → (same_texts ss ts ≡ true) ↔ (ss ≡ ts)
same_texts_iff ss ts =
    (equal ss ts, λ e. subst (λ us. same_texts ss us ≡ true) e (same_texts_refl ss))
  where
    equal : (ss ts : List String) → same_texts ss ts ≡ true → ss ≡ ts
    equal [] [] e = refl
    equal [] (t ∷ ts) e = ground arith
    equal (s ∷ ss) [] e = ground arith
    equal (s ∷ ss) (t ∷ ts) e = ground (arith, equal ss ts, eq_iff s t)

instance abbrev texts_eq : Eq (List String)
texts_eq = record { same = same_texts; same_iff = same_texts_iff }

abbrev Series : List String → Type 0
Series names = GoMap (List String) ℕ

abbrev without : (List String → Bool) → GoMap (List String) ℕ → GoMap (List String) ℕ
without test [] = []
without test ((values, x) ∷ rest) =
    if test values then without test rest else (values, x) ∷ without test rest

lookup-without :
    (test : List String → Bool) (asked : List String) (m : GoMap (List String) ℕ)
    → GoMap.lookup asked (without test m) ≡ (if test asked then none else GoMap.lookup asked m)
unfolding GoMap.lookup
lookup-without test asked [] = ground arith
lookup-without test asked ((values, x) ∷ rest) = elim (Bool-cases (same_texts values asked)) [
  | inl e ↦
      ground (arith, lookup-without test asked rest, e, ap test ((same_texts_iff values asked).0 e))
  | inr e ↦ ground (arith, lookup-without test asked rest, e)
]

no_series : (asked : List String) → GoMap.lookup {V = ℕ} asked [] ≡ none
unfolding GoMap.lookup
no_series asked = refl

pub series_map : MetricVecs
series_map = record {
  Vec = Series;
  new = λ names. [];
  series = λ asked v. GoMap.lookup asked v;
  set = λ values x v. GoMap.insert values x v;
  inc = λ values v. GoMap.insert values (suc (or_zero (GoMap.lookup values v))) v;
  observe = λ values x v. GoMap.insert values (suc (or_zero (GoMap.lookup values v))) v;
  delete_label_values = λ values v. (GoMap.delete values v, is_some (GoMap.lookup values v));
  delete_partial_match =
      λ {names} partial v. (without (λ values. matches partial (labels names values)) v, 0);
  reset = λ v. [];
  series-new = λ names asked. no_series asked;
  series-set = λ values asked x v e. lookup-insert values asked x v;
  series-inc =
      λ values asked v e. lookup-insert values asked (suc (or_zero (GoMap.lookup values v))) v;
  series-observe =
      λ values asked x v e. lookup-insert values asked (suc (or_zero (GoMap.lookup values v))) v;
  series-delete_label_values = λ values asked v. lookup-delete values asked v;
  deleted_label_values = λ values v. refl;
  series-delete_partial_match = λ {names} partial asked v.
      lookup-without (λ values. matches partial (labels names values)) asked v;
  series-reset = λ asked v. no_series asked;
}
