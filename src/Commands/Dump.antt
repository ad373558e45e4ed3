-- ===== src/Commands/Dump.antt =====
-- hm/store.go: what a structured dump prints. The formats of fmt for a fraction and a duration, the
-- texts of errors and the sorting of the keys are arguments; one instant stands for all the calls of
-- clock.Now, and the messages and crash counts of a map are printed in the order of their list.
use hm.Prelude.{
  ℕ, zero, suc, Bool, ◌&&◌, List, [], ◌∷◌, ◌++◌, Option, none, some, ok, err, map, select, ◌==◌,
  if◌then◌else◌,
}
use hm.Prelude.Int.{ℤ, pos, ◌+ℤ◌, ◌*ℤ◌, int_eq, wrap}
use hm.Prelude.Text.{GoString, codes, itoa, string_eq}
use hm.Prelude.Time.{Time, second, unix}
use hm.Prelude.Float.{Float64}
use hm.Prelude.Map.{Map, keys, values, lookup}
use hm.Models.Instance.{InstanceHeartbeat, CrashCount}
use hm.Models.Pending.{PendingMessage, PendingStartMessage, PendingStopMessage}
use hm.Models.App.{App, is_desired}
use hm.Store.Interface.{StoreOps, StoreError}
use hm.Store.Freshness.{sub_time}

pub record Printing : Type 0 where
  -- %.2f
  pub two_decimals : Float64 → GoString
  -- %s of a time.Duration
  pub duration : ℤ → GoString
  -- err.Error()
  pub error_text : StoreError → GoString
  -- sort.Sort on a sort.StringSlice
  pub sorted : List GoString → List GoString

-- How a dump ends: after its last line, by os.Exit(1), or by a panic.
pub data Ending : Type 0 where
  all_printed exited crashed : Ending

-- What has been printed, and how the printing ended.
abbrev pub Printed : Type 0
Printed = GoString × Ending

abbrev pub line : GoString → GoString
line s = s ++ (10 ∷ [])

-- Prints the first, and the second unless the process has ended.
unfoldable pub then_print : Printed → Printed → Printed
then_print (s, all_printed) (s', ending) = (s ++ s', ending)
then_print (s, exited) later = (s, exited)
then_print (s, crashed) later = (s, crashed)

-- strings.Join(words, " ")
unfoldable pub join_words : List GoString → GoString
join_words [] = []
join_words (w ∷ []) = w
join_words (w ∷ v ∷ ws) = w ++ codes " " ++ join_words (v ∷ ws)

-- s[0:n], or none where it is out of range
unfoldable pub first_bytes : ℕ → GoString → Option GoString
first_bytes zero s = some []
first_bytes (suc n) [] = none
first_bytes (suc n) (c ∷ s) = elim (first_bytes n s) [ none ↦ none | some t ↦ some (c ∷ t) ]

unfoldable pub dump_desired : App → GoString
dump_desired app =
    if is_desired app
    then line (
        codes "  Desired: ["
        ++ itoa app.desired.number_of_instances
        ++ codes "] instances, ("
        ++ app.desired.state
        ++ codes ", "
        ++ app.desired.package_state
        ++ codes ")")
    else line (codes "  Desired: NO")

unfoldable pub dump_heartbeat : InstanceHeartbeat → Printed
unfolding first_bytes
dump_heartbeat h = elim (first_bytes 5 h.dea_guid) [
  | none ↦ ([], crashed)
  | some dea ↦ (
    line (
        codes "    ["
        ++ itoa h.instance_index
        ++ codes " "
        ++ h.state
        ++ codes "] "
        ++ h.instance_guid
        ++ codes " on "
        ++ dea),
    all_printed,
  )
]

unfoldable pub dump_heartbeat_lines : List InstanceHeartbeat → Printed
unfolding dump_heartbeat then_print
dump_heartbeat_lines [] = ([], all_printed)
dump_heartbeat_lines (h ∷ hs) = then_print (dump_heartbeat h) (dump_heartbeat_lines hs)

unfoldable pub dump_heartbeats : List InstanceHeartbeat → Printed
unfolding dump_heartbeat_lines then_print
dump_heartbeats [] = (line (codes "  Heartbeats: NONE"), all_printed)
dump_heartbeats (h ∷ hs) =
    then_print (line (codes "  Heartbeats:"), all_printed) (dump_heartbeat_lines (h ∷ hs))

unfoldable pub crash_count_words : List CrashCount → GoString
crash_count_words [] = []
crash_count_words (c ∷ cs) =
    codes " [" ++ itoa c.instance_index ++ codes "]:" ++ itoa c.crash_count ++ crash_count_words cs

unfoldable pub dump_crash_counts : Map ℤ CrashCount → GoString
unfolding crash_count_words
dump_crash_counts [] = []
dump_crash_counts (p ∷ m) = line (codes "  CrashCounts:" ++ crash_count_words (values (p ∷ m)))

module _ (printing : Printing) (now : Time) where
  -- time.Unix(t, 0).Sub(clock.Now())
  abbrev until : ℤ → GoString
  until t = printing.duration (sub_time (t *ℤ pos second) now)

  -- The words on when a message is sent or deleted.
  unfoldable pub due_words : PendingMessage → List GoString
  unfolding sub_time
  due_words m =
      if m.sent_on == pos 0
      then (codes "send:" ++ until m.send_on) ∷ []
      else codes "send:SENT" ∷ (codes "delete:" ++ until (wrap (m.sent_on +ℤ m.keep_alive))) ∷ []

  unfoldable pub dump_start : PendingStartMessage → GoString
  unfolding due_words join_words
  dump_start start =
      let checked = if start.skip_verification then codes "NO VERIFICATION" ∷ [] else [] in
      line (
        codes "    "
        ++ join_words (
            (codes "[" ++ itoa start.index_to_start ++ codes "]")
            ∷ (codes "priority:" ++ printing.two_decimals start.priority)
            ∷ (checked ++ due_words start.pending)))

  unfoldable pub dump_stop : PendingStopMessage → GoString
  unfolding due_words join_words
  dump_stop stop = line (codes "    " ++ join_words (stop.instance_guid ∷ due_words stop.pending))

  -- The lines under a heading, if there are any.
  unfoldable pub under : GoString → List GoString → GoString
  under heading [] = []
  under heading (l ∷ ls) = line heading ++ concat_lines (l ∷ ls)
    where
      concat_lines : List GoString → GoString
      concat_lines [] = []
      concat_lines (x ∷ xs) = x ++ concat_lines xs

  unfoldable pub is_for : App → PendingMessage → Bool
  is_for app m = m.app_guid == app.app_guid && m.app_version == app.app_version

  unfoldable pub dump_app :
      App → Map GoString PendingStartMessage → Map GoString PendingStopMessage → Printed
  unfolding dump_desired dump_heartbeats dump_crash_counts dump_start dump_stop under is_for
      then_print
  dump_app app starts stops =
      let heading =
        line []
        ++ line (codes "Guid: " ++ app.app_guid ++ codes " | Version: " ++ app.app_version)
        ++ dump_desired app in
      let app_starts = select (λ m. is_for app m.pending) (values starts) in
      let app_stops = select (λ m. is_for app m.pending) (values stops) in
      then_print (then_print (heading, all_printed) (dump_heartbeats app.instance_heartbeats)) (
        dump_crash_counts app.crash_counts
            ++ under (codes "  Pending Starts:") (map dump_start app_starts)
            ++ under (codes "  Pending Stops:") (map dump_stop app_stops),
        all_printed,
      )

  unfoldable pub dump_apps :
      List GoString
      → Map GoString App
      → Map GoString PendingStartMessage
      → Map GoString PendingStopMessage
      → Printed
  unfolding dump_app then_print
  dump_apps [] apps starts stops = ([], all_printed)
  dump_apps (key ∷ keys) apps starts stops =
      then_print
        (elim (lookup key apps) [ none ↦ ([], crashed) | some app ↦ dump_app app starts stops ])
        (dump_apps keys apps starts stops)

  -- The line on what could not be fetched, before os.Exit(1).
  unfoldable pub give_up : GoString → StoreError → Printed
  give_up what e =
      (line (codes "Failed to fetch " ++ what ++ codes ": " ++ printing.error_text e), exited)

  unfoldable pub dump_heading : Option StoreError → GoString
  dump_heading outcome =
      let fresh : GoString = elim outcome [
        | none ↦ codes "Store is fresh"
        | some e ↦ codes "STORE IS NOT FRESH: " ++ printing.error_text e
      ] in
      line (codes "Dump - Current timestamp " ++ itoa (unix now))
      ++ line fresh
      ++ line (codes "====================")

  module _ {S : Type 0} (store : StoreOps S) where
    unfoldable pub dump_stored : S → S × Printed
    unfolding dump_apps give_up
    dump_stored s =
        let (s1, apps) = store.get_apps s in
        elim apps [
          | err e ↦ (s1, give_up (codes "apps") e)
          | ok apps ↦
              let (s2, starts) = store.get_pending_start_messages s1 in
              elim starts [
                | err e ↦ (s2, give_up (codes "starts") e)
                | ok starts ↦
                    let (s3, stops) = store.get_pending_stop_messages s2 in
                    elim stops [
                      | err e ↦ (s3, give_up (codes "stops") e)
                      | ok stops ↦ (s3, dump_apps (printing.sorted (keys apps)) apps starts stops)
                    ]
              ]
        ]

    unfoldable pub dump_structured : S → S × Printed
    unfolding dump_stored dump_heading then_print
    dump_structured s =
        let (s1, outcome) = store.verify_freshness now s in
        let (s2, printed) = dump_stored s1 in
        (s2, then_print (dump_heading outcome, all_printed) printed)
