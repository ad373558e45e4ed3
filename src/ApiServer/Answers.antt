-- ===== src/ApiServer/Answers.antt =====
-- Which apps the bulk handler answers with (apiserver/handlers/bulk_app_state.go).
use hm.Prelude.{
  Option, none, for_each, select, ◌≡◌, refl, sym, ap, ◌∙◌, subst, inl, inr, List, [], ◌∷◌, some,
  Result, ok, err, if◌then◌else◌, for_each-keeps, In, arith, ◌==◌, ==_iff, Bool-cases,
}
use hm.Prelude.Text.{GoString, string_eq}
use hm.Prelude.Map.{Map, insert, lookup, lookup-insert}
use hm.Models.App.{App}
use hm.Store.Interface.{StoreError}
use hm.ApiServer.{AppStateRequest, Handler, add_requested, requested_apps}

module _ {S : Type 0} (h : Handler S) (requests : List AppStateRequest) where
  -- The store has given this app for one of the requests.
  unfoldable IsGiven : App → Type 0
  IsGiven app =
      (request : AppStateRequest) × (s : S) × In request requests
      × ((h.get_app request.app_guid request.app_version s).1 ≡ ok app)

  -- Each app stands under its GUID and was given by the store.
  unfoldable IsAnswer : S × Map GoString App → Type 0
  IsAnswer (s, apps) =
      (guid : GoString) (app : App)
      → lookup guid apps ≡ some app
      → (app.app_guid ≡ guid) × IsGiven app

  some_injective : (a b : App) → some a ≡ some b → a ≡ b
  some_injective a b q = cc

  add_requested-IsAnswer :
      (request : AppStateRequest) (state : S × Map GoString App)
      → In request requests
      → IsAnswer state
      → IsAnswer (add_requested h request state)
  unfolding IsAnswer IsGiven add_requested
  add_requested-IsAnswer request (s, apps) m k =
      by_result (h.get_app request.app_guid request.app_version s).1 refl
    where
      held :
          (guid : GoString) (asked app : App)
          → (h.get_app request.app_guid request.app_version s).1 ≡ ok app
          → (if app.app_guid == guid then some app else lookup guid apps) ≡ some asked
          → (asked.app_guid ≡ guid) × IsGiven asked
      held guid asked app got q = elim (Bool-cases (app.app_guid == guid)) [
        | inl hit ↦
            let same : app ≡ asked = some_injective app asked (rw hit at q) in
            (
              ap (λ (a : App). a.app_guid) (sym same) ∙ (==_iff app.app_guid guid).0 hit,
              subst IsGiven same (request, s, m, got),
            )
        | inr miss ↦ k guid asked (rw miss at q)
      ]

      by_result :
          (r : Result StoreError App)
          → (h.get_app request.app_guid request.app_version s).1 ≡ r
          → IsAnswer (add_requested h request (s, apps))
      by_result (err e) got = rw (add_requested, got) k
      by_result (ok app) got =
          rw (add_requested, got)
            (λ guid asked q.
              held guid asked app got (sym (lookup-insert app.app_guid guid app apps) ∙ q))

  -- Every app in the answer stands under its own GUID, and is one that the store gave, at that moment,
  -- for one of the requests.
  requested_apps-IsAnswer : (s : S) → IsAnswer (requested_apps h requests s)
  unfolding requested_apps IsAnswer lookup
  requested_apps-IsAnswer s =
      for_each-keeps (add_requested h) IsAnswer requests
        (λ request state m k. add_requested-IsAnswer request state m k) (s, [])
        (λ guid app q. absurd (ground (arith, q)))

-- The last app of a list, or what there was before it.
abbrev pub last_app : Option App → List App → Option App
last_app before [] = before
last_app before (app ∷ apps) = last_app (some app) apps

module _ {S : Type 0} (h : Handler S) (s0 : S) where
  -- What the store gives for the requests one by one.
  abbrev pub given_apps : List AppStateRequest → List App
  given_apps [] = []
  given_apps (request ∷ requests) =
      let later = given_apps requests in
      elim (h.get_app request.app_guid request.app_version s0).1 [
        | err e ↦ later
        | ok app ↦ app ∷ later
      ]

  added-err :
      (e : StoreError) (request : AppStateRequest) (s : S) (apps : Map GoString App)
      → (h.get_app request.app_guid request.app_version s).1 ≡ err e
      → add_requested h request (s, apps)
        ≡ ((h.get_app request.app_guid request.app_version s).0, apps)
  unfolding add_requested
  added-err e request s apps got = rw (add_requested, got) refl

  added-ok :
      (app : App) (request : AppStateRequest) (s : S) (apps : Map GoString App)
      → (h.get_app request.app_guid request.app_version s).1 ≡ ok app
      → add_requested h request (s, apps)
        ≡ ((h.get_app request.app_guid request.app_version s).0, insert app.app_guid app apps)
  unfolding add_requested
  added-ok app request s apps got = rw (add_requested, got) refl

  given-err :
      (e : StoreError) (request : AppStateRequest) (requests : List AppStateRequest)
      → (h.get_app request.app_guid request.app_version s0).1 ≡ err e
      → given_apps (request ∷ requests) ≡ given_apps requests
  given-err e request requests got = rw (given_apps, got) refl

  given-ok :
      (app : App) (request : AppStateRequest) (requests : List AppStateRequest)
      → (h.get_app request.app_guid request.app_version s0).1 ≡ ok app
      → given_apps (request ∷ requests) ≡ app ∷ given_apps requests
  given-ok app request requests got = rw (given_apps, got) refl

module _ {S : Type 0} (h : Handler S) (s0 : S)
    (steady : (guid version : GoString) (s : S)
      → (h.get_app guid version s).1 ≡ (h.get_app guid version s0).1) where
  add_requested-last_app :
      (guid : GoString) (requests : List AppStateRequest) (s : S) (apps : Map GoString App)
      → lookup guid (for_each (add_requested h) requests (s, apps)).1
        ≡ last_app
            (lookup guid apps)
            (select (λ app. app.app_guid == guid) (given_apps h s0 requests))
  add_requested-last_app guid [] s apps = refl
  add_requested-last_app guid (request ∷ requests) s apps =
      by_result
        (λ kept.
          add_requested-last_app guid requests (h.get_app request.app_guid request.app_version s).0
            kept)
        (h.get_app request.app_guid request.app_version s0).1 refl
    where
      chosen :
          (app : App) (later : List App)
          → last_app
              (lookup guid (insert app.app_guid app apps))
              (select (λ given. given.app_guid == guid) later)
            ≡ last_app (lookup guid apps) (select (λ given. given.app_guid == guid) (app ∷ later))
      chosen app later =
          let found = lookup-insert app.app_guid guid app apps in
          elim (Bool-cases (app.app_guid == guid)) [
            | inl hit ↦ rw (found, hit) refl
            | inr miss ↦ rw (found, miss) refl
          ]

      by_result :
          ((kept : Map GoString App)
            → lookup guid
                (for_each
                  (add_requested h)
                  requests
                  ((h.get_app request.app_guid request.app_version s).0, kept)).1
              ≡ last_app
                  (lookup guid kept)
                  (select (λ app. app.app_guid == guid) (given_apps h s0 requests)))
          → (r : Result StoreError App) → (h.get_app request.app_guid request.app_version s0).1 ≡ r
          → lookup guid (for_each (add_requested h) (request ∷ requests) (s, apps)).1
            ≡ last_app
                (lookup guid apps)
                (select (λ app. app.app_guid == guid) (given_apps h s0 (request ∷ requests)))
      by_result rest (err e) got =
          ap (λ t. lookup guid (for_each (add_requested h) requests t).1)
            (added-err h s0 e request s apps (steady request.app_guid request.app_version s ∙ got))
          ∙ rest apps
          ∙ ap (λ given. last_app (lookup guid apps) (select (λ app. app.app_guid == guid) given))
              (sym (given-err h s0 e request requests got))
      by_result rest (ok app) got =
          ap (λ t. lookup guid (for_each (add_requested h) requests t).1)
            (added-ok h s0 app request s apps (steady request.app_guid request.app_version s ∙ got))
          ∙ rest (insert app.app_guid app apps)
          ∙ chosen app (given_apps h s0 requests)
          ∙ ap (λ given. last_app (lookup guid apps) (select (λ app. app.app_guid == guid) given))
              (sym (given-ok h s0 app request requests got))

  -- If the store gives the same answers throughout, then the answer has, under each GUID, the last app
  -- of this GUID that the store gives for the requests, and none if it gives none.
  pub requested_apps-last_app :
      (guid : GoString) (requests : List AppStateRequest)
      → lookup guid (requested_apps h requests s0).1
        ≡ last_app none (select (λ app. app.app_guid == guid) (given_apps h s0 requests))
  unfolding requested_apps lookup
  requested_apps-last_app guid requests = add_requested-last_app guid requests s0 []
