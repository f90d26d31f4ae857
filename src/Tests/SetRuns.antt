-- ===== src/Tests/SetRuns.antt =====
-- Runs of the sets of pkg/sets.
use achilles_sdk.Prelude.{
  String, [], arith, eq_iff, if◌then◌else◌, nat_eq, none, refl, string_eq, ◌∷◌, ◌≡◌,
}
use achilles_sdk.GoMap
use achilles_sdk.GoMap.{IsMap}
use achilles_sdk.Sets.ComparableSet
use achilles_sdk.Sets.ComparableSet.{ComparableSet}
use achilles_sdk.Sets.ObjectSet
use achilles_sdk.Sets.ObjectSet.{ObjectSet}
use achilles_sdk.Sets.ObjectSet.Algebra.{either, object_operations}
use achilles_sdk.Sets.ObjectSet.Laws.{IsValid, at_key, insert-IsValid, new-IsValid}
use achilles_sdk.Sets.ObjectSet.Listing.{list_stable}
use achilles_sdk.Sets.Sorting.{IsSorted, sort_pairs}
use achilles_sdk.Tests.World.{db, empty_server, other_web, web}

abbrev ab : ComparableSet String
ab = record { set = ("a", tt) ∷ ("b", tt) ∷ [] }

abbrev bc : ComparableSet String
bc = record { set = ("b", tt) ∷ ("c", tt) ∷ [] }

abbrev ba : ComparableSet String
ba = record { set = ("b", tt) ∷ ("a", tt) ∷ [] }

-- The shared member is in the intersection.
intersection_run : ComparableSet.unordered_list (ComparableSet.intersection ab bc) ≡ "b" ∷ []
unfolding ComparableSet.intersection ComparableSet.unordered_list ComparableSet.has
    ComparableSet.insert GoMap.insert ComparableSet.new_comparable_set
intersection_run = refl

ab-IsMap : IsMap ab.set
unfolding GoMap.member GoMap.lookup
ab-IsMap = (refl, (refl, tt))

ba-IsMap : IsMap ba.set
unfolding GoMap.member GoMap.lookup
ba-IsMap = (refl, (refl, tt))

abbrev no_objects : ObjectSet
no_objects = ObjectSet.new_object_set empty_server []

abbrev web_set : ObjectSet
web_set = ObjectSet.insert empty_server no_objects (web ∷ [])

abbrev both_set : ObjectSet
both_set = ObjectSet.insert empty_server no_objects (other_web ∷ db ∷ [])

both_set-IsValid : IsValid empty_server both_set
both_set-IsValid =
    insert-IsValid empty_server no_objects (other_web ∷ db ∷ []) (new-IsValid empty_server)

object_operations_example :
    (at_key (ObjectSet.union empty_server web_set both_set) "ConfigMap:web"
      ≡ either (at_key web_set "ConfigMap:web") (at_key both_set "ConfigMap:web"))
    × (at_key (ObjectSet.intersection empty_server web_set both_set) "ConfigMap:web" ≡ (
        if GoMap.member "ConfigMap:web" both_set.set then at_key web_set "ConfigMap:web" else none))
    × (at_key (ObjectSet.difference empty_server web_set both_set) "ConfigMap:web" ≡ (
        if GoMap.member "ConfigMap:web" both_set.set then none else at_key web_set "ConfigMap:web"))
object_operations_example =
    object_operations empty_server web_set both_set "ConfigMap:web"
      (insert-IsValid empty_server no_objects (web ∷ []) (new-IsValid empty_server))
      both_set-IsValid

abbrev web_db : ObjectSet
web_db = record { set = ("web", web) ∷ ("db", db) ∷ [] }

abbrev db_web : ObjectSet
db_web = record { set = ("db", db) ∷ ("web", web) ∷ [] }

-- The list is in the order of the keys.
list_run : ObjectSet.list web_db ≡ db ∷ web ∷ []
unfolding ObjectSet.list
list_run = refl

web_db-IsMap : IsMap web_db.set
unfolding GoMap.member GoMap.lookup
web_db-IsMap = (refl, (refl, tt))

db_web-IsMap : IsMap db_web.set
unfolding GoMap.member GoMap.lookup
db_web-IsMap = (refl, (refl, tt))

same_objects : (k : String) → at_key web_db k ≡ at_key db_web k
unfolding GoMap.lookup
same_objects k = ground (arith, eq_iff "web" k, eq_iff "db" k, eq_iff "web" "db")

list_stable_example :
    (ObjectSet.list web_db ≡ ObjectSet.list db_web)
    × IsSorted (sort_pairs web_db.set)
    × (ObjectSet.list web_db ≡ ObjectSet.values (sort_pairs web_db.set))
    × ((k : String) → GoMap.lookup k (sort_pairs web_db.set) ≡ at_key web_db k)
list_stable_example = list_stable web_db db_web web_db-IsMap db_web-IsMap same_objects
