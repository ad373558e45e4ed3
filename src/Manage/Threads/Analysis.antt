-- ===== src/Manage/Threads/Analysis.antt =====
-- The turns of the analyzer of hm/manage_desired_state.go keep what is sound.
use hm.Prelude.{
  ◌≡◌, refl, sym, subst, ◌⊎◌, inl, inr, Bool, true, List, [], ◌∷◌, ◌++◌, Option, none, some, Result,
  ok, err, for_each, arith,
}
use hm.Store.Interface.{StoreError, Outcome}
use hm.Analyzer.Analyze.{AnalyzeError, store_failed}
use hm.Sender.{Request}
use hm.Manage.{Parts, fetch_error, analyze_error, send_error}
use hm.Manage.Threads.State.{
  Batch, AnalyzeOutput, AnalyzerAt, getting_apps, analyzed, reported, analyzer_ended, MainAt,
  selecting, sending, returned, System,
}
use hm.Manage.Threads.{analysis_returns, after_read, after_check}
use hm.Manage.Threads.Fetching.{Fetching}
use hm.Manage.Threads.Sound.{IsSound, IsWhole, Waiting, Reading, IsUnsaved}

pub for_each-last :
    {A S : Type 0} (f : A → S → S) (xs : List A) (x : A) (s : S)
    → for_each f (xs ++ (x ∷ [])) s ≡ f x (for_each f xs s)
for_each-last f [] x s = refl
for_each-last f (y ∷ ys) x s = for_each-last f ys x (f y s)

module _ {S : Type 0} (p : Parts S) (s0 : S) where
  Waiting-on :
      (main : MainAt) (s s' : S) (requests : List Request) (at at' : AnalyzerAt)
      → (o o' : Option (Option AnalyzeOutput)) → (at ≡ analyzer_ended → ⊥)
      → Waiting p s0 main s requests at o
      → Waiting p s0 main s' requests at' o'
  Waiting-on selecting s s' requests at at' o o' busy w = w
  Waiting-on (sending out) s s' requests at at' o o' busy w = absurd (busy w.1)
  Waiting-on (returned none) s s' requests at at' o o' busy w = absurd (busy w.0)
  Waiting-on (returned (some (fetch_error f))) s s' requests at at' o o' busy w = w
  Waiting-on (returned (some (analyze_error e))) s s' requests at at' o o' busy w = w
  Waiting-on (returned (some (send_error e))) s s' requests at at' o o' busy w = absurd (busy w.0)

  not_sending :
      (t : System S)
      → IsSound p s0 t
      → (t.analyzer ≡ analyzer_ended → ⊥)
      → (out : AnalyzeOutput) → t.main ≡ sending out
      → ⊥
  not_sending t h busy out e =
      busy
        (subst (λ m. Waiting p s0 m t.state t.requests t.analyzer t.analyze_state_output) e
          h.waiting).1

  module _ (t : System S) (h : IsSound p s0 t) (busy : t.analyzer ≡ analyzer_ended → ⊥) where
    abbrev pub moved :
        S
        → AnalyzerAt
        → List Batch
        → Bool
        → Option (Option AnalyzeError)
        → Option (Option AnalyzeOutput)
        → System S
    moved s at batches done error output = record t {
      state = s;
      analyzer = at;
      desired_apps = batches;
      done_analyzing = done;
      analyze_state_err = error;
      analyze_state_output = output;
    }

    pub analyzer-IsSound :
        (s : S) (at : AnalyzerAt) (taken batches : List Batch) (done : Bool)
        → (error : Option (Option AnalyzeError)) (output : Option (Option AnalyzeOutput))
        → taken ++ batches ≡ h.taken ++ t.desired_apps
        → Reading p s0 at taken s
        → t.fetch_desired_apps_success ≡ true ⊎ IsUnsaved p s0 s
        → ((out : AnalyzeOutput)
            → at ≡ analyzed (ok out) ⊎ at ≡ reported (ok out) ⊎ output ≡ some (some out)
            → IsWhole p s0 taken (moved s at batches done error output) out)
        → ((o : Option AnalyzeOutput) → output ≡ some o → at ≡ analyzer_ended)
        → IsSound p s0 (moved s at batches done error output)
    analyzer-IsSound s at taken batches done error output same reading unsaved whole mailed =
        record {
          taken = taken;
          fetching =
              subst (λ bs. Fetching p t.fetcher bs t.fetch_desired_apps_success t.is_closed)
                (sym same) h.fetching;
          reading = reading;
          unsaved = unsaved;
          whole = λ out held. elim held [
            | inl a ↦ whole out (inl a)
            | inr (inl b) ↦ whole out (inr (inl b))
            | inr (inr (inl c)) ↦ whole out (inr (inr c))
            | inr (inr (inr d)) ↦ absurd (not_sending t h busy out d)
          ];
          mailed = mailed;
          failed = h.failed;
          waiting =
              Waiting-on t.main t.state s t.requests t.analyzer at t.analyze_state_output output
                busy h.waiting;
        }

    pub not_mailed : (o : Option AnalyzeOutput) → t.analyze_state_output ≡ some o → ⊥
    not_mailed o e = busy (h.mailed o e)

    -- A place from which no output is on its way.
    abbrev pub IsEarly : AnalyzerAt → Type 0
    IsEarly at = (out : AnalyzeOutput) → at ≡ analyzed (ok out) ⊎ at ≡ reported (ok out) → ⊥

    pub early-IsSound :
        (s : S) (at : AnalyzerAt) (taken batches : List Batch) (done : Bool)
        → taken ++ batches ≡ h.taken ++ t.desired_apps
        → IsEarly at
        → Reading p s0 at taken s
        → IsUnsaved p s0 s
        → IsSound p s0 (moved s at batches done t.analyze_state_err t.analyze_state_output)
    early-IsSound s at taken batches done same early reading unsaved =
        analyzer-IsSound s at taken batches done _ _ same reading (inr unsaved)
          (λ out held. elim held [
            | inl a ↦ absurd (early out (inl a))
            | inr (inl b) ↦ absurd (early out (inr b))
            | inr (inr c) ↦ absurd (not_mailed (some out) c)
          ])
          (λ o e. absurd (not_mailed o e))

    failed-IsEarly : (e : AnalyzeError) → IsEarly (analyzed (err e))
    failed-IsEarly e out (inl a) = absurd (ground (arith, a))
    failed-IsEarly e out (inr b) = absurd (ground (arith, b))

    pub failed-IsSound :
        (s : S) (e : AnalyzeError)
        → IsUnsaved p s0 s
        → IsSound p s0 (analysis_returns p s (err e) t)
    unfolding analysis_returns
    failed-IsSound s e unsaved =
        early-IsSound s (analyzed (err e)) h.taken t.desired_apps true refl (failed-IsEarly e) tt
          unsaved

    pub after_read-IsSound :
        {A : Type 0} (o : Result StoreError A) (go_on : A → AnalyzerAt) (s : S)
        → IsUnsaved p s0 s
        → ((a : A) → IsEarly (go_on a))
        → ((a : A) → o ≡ ok a → Reading p s0 (go_on a) h.taken s)
        → IsSound p s0 (after_read p o go_on s t)
    unfolding after_read
    after_read-IsSound (err e) go_on s unsaved early reading =
        failed-IsSound s (store_failed e) unsaved
    after_read-IsSound (ok a) go_on s unsaved early reading =
        early-IsSound s (go_on a) h.taken t.desired_apps t.done_analyzing refl (early a)
          (reading a refl) unsaved

    pub after_check-IsSound :
        (o : Outcome) (s : S)
        → IsUnsaved p s0 s
        → (o ≡ none → Reading p s0 getting_apps h.taken s)
        → IsSound p s0 (after_check p o s t)
    unfolding after_check
    after_check-IsSound (some e) s unsaved reading = failed-IsSound s (store_failed e) unsaved
    after_check-IsSound none s unsaved reading =
        early-IsSound s getting_apps h.taken t.desired_apps t.done_analyzing refl
          (λ out held. elim held [ inl a ↦ cc | inr b ↦ cc ]) (reading refl) unsaved
