-- ===== src/Views/Examples.antt =====
-- The theorems of the saved views on small tables.
use gamma_scope.Prelude.{String, string_eq, ◌≡◌, refl, Bool, true, false, some, [], ◌∷◌}
use gamma_scope.Prelude.Deleted.{Deleted}
use gamma_scope.Prelude.Order.{str_ord, lex_le}
use gamma_scope.Prelude.Sort.{sorted, insert}
use gamma_scope.Capture.Examples.{platform, platform-RoundTrips}
use gamma_scope.Views.Store.{
  View, ViewTable, view_row, remember_view, list_views, save_view, cleanup_before,
}
use gamma_scope.Views.Listed.{SavesIn, save_view-SavesIn}
use gamma_scope.Views.Refined.{
  IsOld, in_memory, payloads, save_view-Agrees, cleanup_before-IsCounted,
}

abbrev view_at : String → String → View
view_at view_id time = record {
  view_id = view_id;
  owner_scope = "public";
  name = "Open";
  mode = "live";
  created_at = time;
  others = [];
}

abbrev two_views : ViewTable
two_views = ("a", view_row 9 (view_at "a" "|||") 3) ∷ ("b", view_row 9 (view_at "b" "|||||") 5) ∷ []

abbrev equal_texts : String → String → Bool
equal_texts view_id pattern = true

save_view-Agrees_example :
    in_memory (save_view platform 10 (view_at "a" "||||") two_views)
    ≡ remember_view platform (view_at "a" "||||") (payloads two_views)
save_view-Agrees_example =
    save_view-Agrees platform 10 (view_at "a" "||||") two_views platform-RoundTrips

cleanup_before-IsCounted_example :
    Deleted
      (IsOld equal_texts 4 (some ""))
      two_views
      (cleanup_before equal_texts 4 false (some "") two_views).0
      (cleanup_before equal_texts 4 false (some "") two_views).1
    × (cleanup_before equal_texts 4 true (some "") two_views
        ≡ ((cleanup_before equal_texts 4 false (some "") two_views).0, two_views))
cleanup_before-IsCounted_example = cleanup_before-IsCounted equal_texts 4 (some "") two_views

-- One of the views is older.
one_is_older : (cleanup_before equal_texts 4 false (some "") two_views).0 ≡ 1
unfolding cleanup_before
one_is_older = refl

save_view-SavesIn_example : SavesIn platform (save_view platform 10 (view_at "a" "||||") two_views)
save_view-SavesIn_example =
    save_view-SavesIn platform 10 (view_at "a" "||||") two_views platform-RoundTrips
      ((refl, refl, refl, refl, refl), ((refl, refl, refl, refl, refl), tt))

-- The newest view comes first.
newest_first : list_views str_ord two_views ≡ view_at "b" "|||||" ∷ view_at "a" "|||" ∷ []
unfolding list_views sorted insert lex_le
newest_first = refl
