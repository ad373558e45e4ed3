-- ===== src/Tests/Dumping.antt =====
-- What a dump prints of one app.
use hm.Prelude.{ℕ, ◌≡◌, refl, List, [], ◌∷◌, ◌++◌}
use hm.Prelude.Text.{GoString, codes}
use hm.Models.App.{App}
use hm.Commands.Dump.{Printing, dump_app, all_printed, crashed, line}
use hm.Tests.Data.{sample_app, start_1, noon}

abbrev printing : Printing
printing = record {
  two_decimals = λ x. codes "1.00";
  duration = λ d. codes "1h0m0s";
  error_text = λ e. codes "failed";
  sorted = λ keys. keys;
}

-- The GUID of its DEA has three bytes.
short_dea_guid : (dump_app printing noon sample_app [] []).1 ≡ crashed
unfolding dump_app
short_dea_guid = refl

abbrev idle_app : App
idle_app = record sample_app { instance_heartbeats = []; crash_counts = [] }

one_start : dump_app printing noon idle_app ((codes "key", start_1) ∷ []) [] ≡ (
  line []
      ++ line (codes "Guid: app | Version: v1")
      ++ line (codes "  Desired: [3] instances, (STARTED, STAGED)")
      ++ line (codes "  Heartbeats: NONE")
      ++ line (codes "  Pending Starts:")
      ++ line (codes "    [1] priority:1.00 send:1h0m0s"),
  all_printed,
)
unfolding dump_app hm.Models.App.is_desired hm.Prelude.Text.str_eqb hm.Prelude.Text.itoa
one_start = refl
