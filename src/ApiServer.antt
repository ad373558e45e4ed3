-- ===== src/ApiServer.antt =====
-- apiserver/handlers/bulk_app_state.go: the states of the apps that a request asks for. The JSON of the
-- request and of the apps is an argument; logging is left out.
pub mod Answers
use hm.Prelude.{
  Bool, true, false, List, [], ◌∷◌, ◌++◌, Option, none, some, Result, ok, err, if◌then◌else◌,
  for_each,
}
use hm.Prelude.Text.{GoString, codes, string_eq}
use hm.Prelude.Time.{Time}
use hm.Prelude.Map.{Map, insert}
use hm.Models.App.{App}
use hm.Store.Interface.{StoreError, Outcome}

pub record AppStateRequest : Type 0 where
  pub app_guid : GoString
  pub app_version : GoString

-- What the handler calls: two operations of the store, and encoding/json.
pub record Handler (S : Type 0) : Type 0 where
  pub verify_freshness : Time → S → S × Outcome
  pub get_app : GoString → GoString → S → S × Result StoreError App
  pub parse : GoString → Option (List AppStateRequest)
  pub marshal : Map GoString App → Option GoString

abbrev pub empty_answer : GoString
empty_answer = codes "{}"

module _ {S : Type 0} (h : Handler S) where
  -- apps[app.AppGuid] = app, unless the app cannot be had.
  unfoldable pub add_requested : AppStateRequest → S × Map GoString App → S × Map GoString App
  add_requested request (s, apps) =
      let (s', found) = h.get_app request.app_guid request.app_version s in
      elim found [ err e ↦ (s', apps) | ok app ↦ (s', insert app.app_guid app apps) ]

  unfoldable pub requested_apps : List AppStateRequest → S → S × Map GoString App
  unfolding add_requested
  requested_apps requests s = for_each add_requested requests (s, [])

  -- w.Write([]byte(appsJson)), which writes nothing when the apps have no JSON.
  unfoldable pub written_apps : Option GoString → GoString
  written_apps none = []
  written_apps (some json) = json

  -- The answer to a body that has been read.
  unfoldable pub answer : Time → GoString → S → S × GoString
  unfolding requested_apps written_apps
  answer now body s = elim (h.parse body) [
    | none ↦ (s, empty_answer)
    | some requests ↦
        let (s1, fresh) = h.verify_freshness now s in
        let (s2, apps) = requested_apps requests s1 in
        elim fresh [ some e ↦ (s1, empty_answer) | none ↦ (s2, written_apps (h.marshal apps)) ]
  ]

  -- A body that cannot be read is answered by {}, and what was read of it is answered besides, since
  -- the handler goes on.
  unfoldable pub serve_bulk : Time → GoString → Bool → S → S × GoString
  unfolding answer
  serve_bulk now body unreadable s =
      let (s', written) = answer now body s in
      (s', if unreadable then empty_answer ++ written else written)
