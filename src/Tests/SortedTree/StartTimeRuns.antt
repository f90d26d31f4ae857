-- ===== src/Tests/SortedTree/StartTimeRuns.antt =====
-- Runs of pkg/fsm/metrics/internal/processing_duration.go on a tree that is a sorted list.
use achilles_sdk.Prelude.{All, List, [], decimal, nat_eq, none, refl, string_eq, true, ◌∷◌, ◌≡◌}
use achilles_sdk.Tests.SortedTree.{start_tree}
use achilles_sdk.Fsm.Metrics.StartTimes.{asked_for, get_range, set, delete_range}
use achilles_sdk.Fsm.Metrics.StartTimes.Laws.{IsPlainTree}
use achilles_sdk.Fsm.Metrics.StartTimes.Refinement.{
  IsPlainChange, Change, apply_changes, changes, changes-Implements, start_times_refine, time_of,
}
use achilles_sdk.Fsm.Metrics.StartTimes.Refinement.Change.{set_start}
use achilles_sdk.Fsm.Metrics.StartTimes.TextOrder.{delete_range_by_text}

-- Generations 9 and 10 of one object, and generation 1 of another.
abbrev pub starts : List Change
starts = set_start "app" "team" 9 5 ∷ set_start "app" "team" 10 7 ∷ set_start "box" "team" 1 3 ∷ []

abbrev pub tree : start_tree.Tree
tree = apply_changes start_tree starts start_tree.empty

starts-IsPlain : All IsPlainChange starts
starts-IsPlain = ((refl, refl), ((refl, refl), ((refl, refl), tt)))

pub tree-IsPlainTree : IsPlainTree start_tree tree
tree-IsPlainTree = (changes-Implements start_tree starts starts-IsPlain).0

times_of_nine : get_range start_tree "app" "team" 9 true tree ≡ 5 ∷ 7 ∷ []
unfolding start_tree get_range set decimal
times_of_nine = refl

start_times_refine_example :
    time_of (start_tree.get (asked_for "app" "team" 9) tree)
    ≡ changes starts (λ name namespace g. none) "app" "team" 9
start_times_refine_example =
    start_times_refine start_tree starts "app" "team" 9 starts-IsPlain refl refl

delete_range_by_text_example :
    (start_tree.get (asked_for "app" "team" 9) (delete_range start_tree "app" "team" 10 tree)
      ≡ start_tree.get (asked_for "app" "team" 9) tree)
    × (start_tree.get (asked_for "app" "team" 10) (delete_range start_tree "app" "team" 9 tree)
        ≡ none)
delete_range_by_text_example =
    delete_range_by_text start_tree "app" "team" tree refl refl tree-IsPlainTree
