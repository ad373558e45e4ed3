-- ===== src/Manage/Threads/Moves.antt =====
-- The turns of the fetcher and of the analyzer of hm/manage_desired_state.go keep what is sound.
use mathlib.Core.List.{append_assoc}
use hm.Prelude.{
  ℕ, ◌≡◌, refl, sym, subst, ◌∙◌, ◌⊎◌, inl, inr, Bool, true, false, if◌then◌else◌, List, [], ◌∷◌,
  ◌++◌, Option, none, some, arith,
}
use hm.Fetcher.{FetchError, DesiredStateServerResponse, success, failure, batch_of, not_analyzing}
use hm.Manage.{Parts, fetch_error}
use hm.Manage.Threads.State.{
  Batch, AnalyzeOutput, FetcherAt, asking, queueing, fetched, reporting, closing, fetcher_ended,
  returned, System, has_room,
}
use hm.Manage.Threads.{fetcher_turn, queue_batch, ask_page, next_page}
use hm.Manage.Threads.Fetching.{Fetching, ask_page-Fetching}
use hm.Manage.Threads.Sound.{IsSound, Holds}

module _ {S : Type 0} (p : Parts S) (s0 : S) where
  -- While the queue is open no output is on its way.
  none_whole :
      (t : System S)
      → IsSound p s0 t
      → t.is_closed ≡ false
      → (out : AnalyzeOutput) → Holds p s0 t out
      → ⊥
  none_whole t h is_open out held =
      let closed = (h.whole out held).closed in ground (arith, is_open, closed)

  fetcher-IsSound :
      (t : System S) (h : IsSound p s0 t)
      → t.is_closed ≡ false
      → (at : FetcherAt) (batches : List Batch) (flag is_closed : Bool)
      → (mail : Option (Option FetchError)) → Fetching p at (h.taken ++ batches) flag is_closed
      → (t.fetch_desired_apps_success ≡ true → flag ≡ true)
      → ((f : FetchError)
          → mail ≡ some (some f) ⊎ t.main ≡ returned (some (fetch_error f))
          → (flag ≡ false) × (at ≡ closing ⊎ at ≡ fetcher_ended))
      → IsSound p s0 (record t {
        fetcher = at;
        desired_apps = batches;
        fetch_desired_apps_success = flag;
        is_closed = is_closed;
        fetch_desired_err = mail;
      })
  fetcher-IsSound t h is_open at batches flag is_closed mail fetching grows failed = record {
    taken = h.taken;
    fetching = fetching;
    reading = h.reading;
    unsaved = elim h.unsaved [ inl up ↦ inl (grows up) | inr kept ↦ inr kept ];
    whole = λ out held. absurd (none_whole t h is_open out held);
    mailed = h.mailed;
    failed = failed;
    waiting = h.waiting;
  }

  true_false : {A : Type 0} (b : Bool) → b ≡ false → b ≡ true → A
  true_false b n y = absurd (ground (arith, n, y))

  -- A fetcher that has not yet reported has not failed.
  not_failed :
      {A : Type 0} (t : System S) (h : IsSound p s0 t) (at : FetcherAt)
      → t.fetcher ≡ at
      → (at ≡ closing → ⊥)
      → (at ≡ fetcher_ended → ⊥)
      → (f : FetchError)
      → t.fetch_desired_err ≡ some (some f) ⊎ t.main ≡ returned (some (fetch_error f))
      → A
  not_failed t h at e c d f m = elim (h.failed f m).1 [
    | inl k ↦ absurd (c (sym e ∙ k))
    | inr k ↦ absurd (d (sym e ∙ k))
  ]

  Fetching-at :
      (t : System S) (h : IsSound p s0 t) (at : FetcherAt)
      → t.fetcher ≡ at
      → Fetching p at (h.taken ++ t.desired_apps) t.fetch_desired_apps_success t.is_closed
  Fetching-at t h at e =
      subst (λ a. Fetching p a (h.taken ++ t.desired_apps) t.fetch_desired_apps_success t.is_closed)
        e h.fetching

  no_error : (g : FetchError) → ◌≡◌ {A = Option (Option FetchError)} (some none) (some (some g)) → ⊥
  no_error g k = ground (arith, k)

  -- The select of sendBatch stops, queues the batch, or is blocked.
  pub queue_batch-cases :
      (b : Bool) (n : ℕ) (response : DesiredStateServerResponse) (seen : ℕ) (t : System S)
      → queue_batch p b n response seen t ≡ record t { fetcher = fetched (failure not_analyzing) }
        ⊎ queue_batch p b n response seen t ≡ record t {
          fetcher = next_page p n response seen;
          desired_apps = t.desired_apps ++ (batch_of response ∷ []);
        }
        ⊎ queue_batch p b n response seen t ≡ t
  unfolding queue_batch
  queue_batch-cases b n response seen t = by_room (has_room t.desired_apps) t.done_analyzing b
    where
      stopped : System S
      stopped = record t { fetcher = fetched (failure not_analyzing) }

      queued : System S
      queued = record t {
        fetcher = next_page p n response seen;
        desired_apps = t.desired_apps ++ (batch_of response ∷ []);
      }

      choice : Bool → Bool → Bool → System S
      choice room done prefers =
          if room
          then (if done then (if prefers then stopped else queued) else queued)
          else if done
          then stopped
          else t

      by_room :
          (room done prefers : Bool)
          → choice room done prefers ≡ stopped
            ⊎ choice room done prefers ≡ queued
            ⊎ choice room done prefers ≡ t
      by_room true true true = inl refl
      by_room true true false = inr (inl refl)
      by_room true false prefers = inr (inl refl)
      by_room false true prefers = inl refl
      by_room false false prefers = inr (inr refl)

  next_page-Fetching :
      (n : ℕ) (response : DesiredStateServerResponse) (seen : ℕ) (t : System S)
      → (h : IsSound p s0 t)
      → Fetching p
          (queueing n response seen)
          (h.taken ++ t.desired_apps)
          t.fetch_desired_apps_success
          t.is_closed
      → Fetching p
          (next_page p n response seen)
          (h.taken ++ (t.desired_apps ++ (batch_of response ∷ [])))
          t.fetch_desired_apps_success
          t.is_closed
  unfolding next_page
  next_page-Fetching n response seen t h f =
      subst
        (λ bs. Fetching p (next_page p n response seen) bs t.fetch_desired_apps_success t.is_closed)
        (append_assoc h.taken t.desired_apps (batch_of response ∷ [])) f

  pub fetcher_turn-IsSound :
      (b : Bool) (at : FetcherAt) (t : System S)
      → t.fetcher ≡ at
      → IsSound p s0 t
      → IsSound p s0 (fetcher_turn p b at t)
  unfolding fetcher_turn
  fetcher_turn-IsSound b (asking n token seen) t e h =
      let f = Fetching-at t h _ e in
      fetcher-IsSound t h f.0.1 (ask_page p n token seen) t.desired_apps
        t.fetch_desired_apps_success t.is_closed t.fetch_desired_err
        (ask_page-Fetching p n token seen _ _ _ f) (λ up. up)
        (not_failed t h _ e (λ k. cc) (λ k. cc))
  fetcher_turn-IsSound b (queueing n response seen) t e h =
      let f = Fetching-at t h _ e in
      elim (queue_batch-cases b n response seen t) [
        | inl stopped ↦ subst (IsSound p s0) (sym stopped) (
            fetcher-IsSound t h f.0.1 (fetched (failure not_analyzing)) t.desired_apps
              t.fetch_desired_apps_success t.is_closed t.fetch_desired_err f.0 (λ up. up)
              (not_failed t h _ e (λ k. cc) (λ k. cc)))
        | inr (inl queued) ↦ subst (IsSound p s0) (sym queued) (
            fetcher-IsSound t h f.0.1 (next_page p n response seen)
              (t.desired_apps ++ (batch_of response ∷ [])) t.fetch_desired_apps_success t.is_closed
              t.fetch_desired_err (next_page-Fetching n response seen t h f) (λ up. up)
              (not_failed t h _ e (λ k. cc) (λ k. cc)))
        | inr (inr blocked) ↦ subst (IsSound p s0) (sym blocked) h
      ]
  fetcher_turn-IsSound b (fetched (success total)) t e h =
      let f = Fetching-at t h _ e in
      fetcher-IsSound t h f.0.1 (reporting none) t.desired_apps true t.is_closed t.fetch_desired_err
        (refl, f.0.1, f.1) (λ up. refl) (not_failed t h _ e (λ k. cc) (λ k. cc))
  fetcher_turn-IsSound b (fetched (failure error)) t e h =
      let f = Fetching-at t h _ e in
      fetcher-IsSound t h f.1 (reporting (some error)) t.desired_apps t.fetch_desired_apps_success
        t.is_closed t.fetch_desired_err f (λ up. up) (not_failed t h _ e (λ k. cc) (λ k. cc))
  fetcher_turn-IsSound b (reporting none) t e h =
      let f = Fetching-at t h _ e in
      fetcher-IsSound t h f.1 closing t.desired_apps t.fetch_desired_apps_success t.is_closed
        (some none) (f.1, λ up. f.2) (λ up. up)
        (λ g m. elim m [
          | inl k ↦ absurd (no_error g k)
          | inr k ↦ not_failed t h _ e (λ c. cc) (λ c. cc) g (inr k)
        ])
  fetcher_turn-IsSound b (reporting (some error)) t e h =
      let f = Fetching-at t h _ e in
      fetcher-IsSound t h f.1 closing t.desired_apps t.fetch_desired_apps_success t.is_closed
        (some (some error)) (f.1, λ up. true_false _ f.0 up) (λ up. up) (λ g m. (f.0, inl refl))
  fetcher_turn-IsSound b closing t e h =
      let f = Fetching-at t h _ e in
      fetcher-IsSound t h f.0 fetcher_ended t.desired_apps t.fetch_desired_apps_success true
        t.fetch_desired_err (refl, f.1) (λ up. up) (λ g m. ((h.failed g m).0, inr refl))
  fetcher_turn-IsSound b fetcher_ended t e h = h
