-- ===== src/Analyzer/Analyze/Removal.antt =====
-- Which apps analyzer.go treats as removed, and what a failed analysis leaves in the store.
use mathlib.Core.Path.{subst}
use hm.Prelude.{
  ◌≡◌, ◌≢◌, refl, ap, ◌∙◌, Bool, false, ◌||◌, List, [], ◌∷◌, none, ok, any, ◌==◌, ==_iff,
  if◌then◌else◌, arith, for_each, Option-cases, inl, inr, ◌⊎◌,
}
use hm.Prelude.Text.{GoString, string_eq}
use hm.Prelude.Map.{Map, lookup, lookup-insert, lookup-delete}
use hm.Models.Desired.{DesiredAppState, desired_store_key}
use hm.Models.Pending.{PendingStartMessage, PendingStopMessage}
use hm.Models.App.{App, new_app}
use hm.Store.Interface.{StoreOps}
use hm.Analyzer.Analyze.{
  Analyzer, AppQueue, Analyzing, Analyzed, analyzing, collect_stops, collect_starts, claim_app,
  analyze_desired, analyze_batch, analyze_queue, analyze_with, analyze,
}

-- Some desired state of the batch has the key.
abbrev pub batch_has : GoString → List DesiredAppState → Bool
batch_has key batch = any (λ d. desired_store_key d == key) batch

abbrev pub queue_has : GoString → List (List DesiredAppState) → Bool
queue_has key batches = any (batch_has key) batches

reorder : (a b c : Bool) → (b || (a || c)) ≡ ((a || b) || c)
reorder a b c = ground arith

or_false : (b : Bool) → (b || false) ≡ b
or_false b = ground arith

module _ (an : Analyzer) (starts : Map GoString PendingStartMessage)
    (stops : Map GoString PendingStopMessage) (key : GoString) where
  -- The key is still to be removed exactly if it was found and no batch has had it; where it is not to
  -- be removed and was found, it is among the apps.
  abbrev Removes : Map GoString App → Bool → Analyzing → Type 0
  Removes apps seen z =
      (lookup key z.apps_pending_removal ≡ (if seen then none else lookup key apps))
      × (seen ≡ false → lookup key z.actual_apps ≡ lookup key apps)

  claim-Removes :
      (apps : Map GoString App) (seen : Bool) (d : DesiredAppState) (z : Analyzing)
      → Removes apps seen z
      → Removes apps (desired_store_key d == key || seen) (claim_app an starts stops d z).1
  unfolding claim_app
  claim-Removes apps seen d z (pending, actual) =
      let sk = desired_store_key d in
      elim (Option-cases (lookup sk z.actual_apps)) [
        | inl missing ↦
            rw (claim_app, missing)
              (ground (
                arith,
                ==_iff sk key,
                lookup-insert sk key (new_app d.app_guid d.app_version d [] []) z.actual_apps,
              ))
        | inr (app, found) ↦
            rw (claim_app, found)
              (ground (
                arith,
                ==_iff sk key,
                lookup-insert sk key (record app { desired = d }) z.actual_apps,
                lookup-delete sk key z.apps_pending_removal,
              ))
      ]

  desired-Removes :
      (apps : Map GoString App) (seen : Bool) (d : DesiredAppState) (z : Analyzing)
      → Removes apps seen z
      → Removes apps (desired_store_key d == key || seen) (analyze_desired an starts stops d z)
  unfolding analyze_desired collect_stops collect_starts
  desired-Removes apps seen d z h = claim-Removes apps seen d z h

  batch-Removes :
      (apps : Map GoString App) (batch : List DesiredAppState) (seen : Bool) (z : Analyzing)
      → Removes apps seen z
      → Removes apps (batch_has key batch || seen) (analyze_batch an starts stops batch z)
  unfolding analyze_batch
  batch-Removes apps [] seen z h = h
  batch-Removes apps (d ∷ batch) seen z h =
      subst
        (λ b.
          Removes apps b (
            for_each (analyze_desired an starts stops) batch (analyze_desired an starts stops d z)))
        (reorder (desired_store_key d == key) (batch_has key batch) seen)
        (batch-Removes apps batch _ _ (desired-Removes apps seen d z h))

  queue-Removes :
      (apps : Map GoString App) (batches : List (List DesiredAppState)) (seen : Bool)
      (z : Analyzing)
      → Removes apps seen z
      → Removes apps (queue_has key batches || seen) (analyze_queue an starts stops batches z)
  unfolding analyze_queue
  queue-Removes apps [] seen z h = h
  queue-Removes apps (b ∷ batches) seen z h =
      subst
        (λ c.
          Removes apps c
            (for_each (analyze_batch an starts stops) batches (analyze_batch an starts stops b z)))
        (reorder (batch_has key b) (queue_has key batches) seen)
        (queue-Removes apps batches _ _ (batch-Removes apps b seen z h))

-- After all batches of desired apps, the apps pending removal are the actual apps whose key no desired
-- state has, each as it was found; every other key is gone.
pub pending_removal :
    (an : Analyzer) (starts : Map GoString PendingStartMessage)
    (stops : Map GoString PendingStopMessage) (apps : Map GoString App)
    (batches : List (List DesiredAppState)) (key : GoString)
    → lookup key
        (analyze_queue an starts stops batches
          (analyzing an starts stops apps)).apps_pending_removal
      ≡ (if queue_has key batches then none else lookup key apps)
unfolding analyzing
pending_removal an starts stops apps batches key =
    (queue-Removes an starts stops key apps batches false (analyzing an starts stops apps)
      (refl, λ e. refl)).0
    ∙ ap (λ b. if b then none else lookup key apps) (or_false (queue_has key batches))

module _ {S : Type 0} (store : StoreOps S) (an : Analyzer) where
  -- If the desired apps were not all fetched, the analysis reports an error and saves nothing, whatever
  -- the batches were: the state is the one after the four reads, or after the first of them that failed.
  pub failed_fetch_saves_nothing :
      (queue : AppQueue) (s : S)
      → queue.fetch_desired_apps_success ≡ false
      → let s1 = (store.verify_freshness (an.clock 0) s).0 in
        let s2 = (store.get_apps s1).0 in
        let s3 = (store.get_pending_start_messages s2).0 in
        let s4 = (store.get_pending_stop_messages s3).0 in
        ((analyze store an queue s).0 ≡ s1
          ⊎ (analyze store an queue s).0 ≡ s2
          ⊎ (analyze store an queue s).0 ≡ s3
          ⊎ (analyze store an queue s).0 ≡ s4)
        × ((r : Analyzed store an) → (analyze store an queue s).1 ≢ ok r)
  unfolding analyze analyze_with
  failed_fetch_saves_nothing queue s failed = ground arith
