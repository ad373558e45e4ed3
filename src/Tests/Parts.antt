-- ===== src/Tests/Parts.antt =====
-- The parts of a run of `analyze`, with stores that count their calls.
use hm.Prelude.{ℕ, suc, false, [], ◌∷◌, none, some, ok, if◌then◌else◌, ◌==◌}
use hm.Prelude.Int.{pos}
use hm.Prelude.Text.{GoString, codes, string_eq}
use hm.Models.Priority.Insertion.{by_insertion}
use hm.Store.Interface.{StoreOps, Outcome}
use hm.Fetcher.{World, DesiredStateServerResponse}
use hm.Manage.{Parts}
use hm.Tests.Components.{counting_store, whole_analyzer}
use hm.Tests.Fetching.{one_page_world}
use hm.Tests.Data.{three_wanted, all_accepted, noon, app_name}

abbrev pub count_up : GoString → ℕ → ℕ → ℕ × Outcome
count_up name n s = (suc s, none)

abbrev pub parts_in : World → Parts ℕ
parts_in world = record {
  world = world;
  analyzer = whole_analyzer;
  store = counting_store;
  add_to_counter = count_up;
  sorting = by_insertion;
  respond = all_accepted;
  sent_at = noon;
}

abbrev pub lost_world : World
lost_world = record one_page_world { is_url = λ url. false }

-- A store without apps.
abbrev pub bare_store : StoreOps ℕ
bare_store = record counting_store { get_apps = λ n. (n, ok []) }

abbrev pub light_page : DesiredStateServerResponse
light_page = record {
  results = (app_name, record three_wanted { number_of_instances = pos 1 }) ∷ [];
  bulk_token = pos 7;
}

abbrev pub light_world : World
light_world = record one_page_world {
  parse = λ body.
      if body == codes "one"
      then some light_page
      else some (record { results = []; bulk_token = pos 8 });
}

abbrev pub whole_run : Parts ℕ
whole_run = record (parts_in light_world) { store = bare_store }
