-- ===== src/Fetcher.antt =====
-- desiredstatefetcher/*.go: the desired apps, page by page. The HTTP client, the parsing of URLs and
-- JSON are arguments. A callback is the rest of the function; the recursion of fetchBatch, which only
-- the server's answers end, is on fuel, and `none` as a result means that it has run out.
pub mod Pages
pub mod Wanted
pub mod Runs
use hm.Prelude.{
  ℕ, zero, suc, ◌+◌, Bool, true, false, not, ◌&&◌, ◌||◌, List, [], ◌∷◌, ◌++◌, Option, none, some,
  ◌==◌, if◌then◌else◌, eqb, length, map,
}
use hm.Prelude.Int.{ℤ}
use hm.Prelude.Text.{GoString, codes, string_eq, itoa}
use hm.Prelude.Map.{Map, insert, values}
use hm.Config.{Config}
use hm.Models.Desired.{
  DesiredAppState, desired_store_key, app_started, package_staged, package_pending,
}
use hm.Models.Auth.{Base64, BasicAuthInfo, encode}

-- DesiredStateServerResponse, with the token's id
pub record DesiredStateServerResponse : Type 0 where
  pub results : Map GoString DesiredAppState
  pub bulk_token : ℤ

-- The status of a response, and its body if that can be read.
pub record HttpResponse : Type 0 where
  pub status_code : ℕ
  pub body : Option GoString

pub record Request : Type 0 where
  pub url : GoString
  pub authorization : GoString

-- What the fetcher meets of the world: Go's library and the Cloud Controller.
pub record World : Type 0 where
  pub base64 : Base64
  -- http.NewRequest accepts the URL
  pub is_url : GoString → Bool
  -- The answer to the nth request, unless it fails.
  pub respond : ℕ → Request → Option HttpResponse
  pub parse : GoString → Option DesiredStateServerResponse
  -- json.Marshal of a bulk token
  pub token_json : ℤ → GoString
  -- Whether the nth batch finds that the analyzer is done; else it is queued.
  pub is_done_analyzing : ℕ → Bool

pub data FetchError : Type 0 where
  bad_url request_failed unauthorized unreadable unparsable not_analyzing : FetchError
  bad_status : ℕ → FetchError

-- DesiredStateFetcherResult
pub data FetchResult : Type 0 where
  success : ℕ → FetchResult
  failure : FetchError → FetchResult

-- What a fetch has put into the queue, and its result once it has ended.
pub record Fetched : Type 0 where
  pub batches : List (List DesiredAppState)
  pub result : Option FetchResult

abbrev pub initial_bulk_token : GoString
initial_bulk_token = codes "{}"

unfoldable pub is_wanted : DesiredAppState → Bool
is_wanted d =
    d.state == app_started
    && (d.package_state == package_staged || d.package_state == package_pending)

-- The loop of sendBatch.
unfoldable pub cache_wanted :
    List DesiredAppState → Map GoString DesiredAppState → Map GoString DesiredAppState
unfolding is_wanted
cache_wanted [] cache = cache
cache_wanted (d ∷ ds) cache =
    cache_wanted ds (if is_wanted d then insert (desired_store_key d) d cache else cache)

unfoldable pub batch_of : DesiredStateServerResponse → List DesiredAppState
unfolding cache_wanted
batch_of response = values (cache_wanted (values response.results) [])

-- What the callback makes of an answer before it looks at the results.
unfoldable pub read_response :
    World → Option HttpResponse → FetchError × Option DesiredStateServerResponse
read_response w none = (request_failed, none)
read_response w (some resp) =
    if eqb resp.status_code 401
    then (unauthorized, none)
    else if eqb resp.status_code 200
    then elim resp.body [ none ↦ (unreadable, none) | some body ↦ (unparsable, w.parse body) ]
    else (bad_status resp.status_code, none)

module _ (w : World) (conf : Config) where
  unfoldable pub bulk_url : GoString → GoString
  bulk_url token =
      conf.cc_base_url
      ++ (codes "/bulk/apps?batch_size="
          ++ (itoa conf.desired_state_batch_size ++ (codes "&bulk_token=" ++ token)))

  -- The answer to the nth request, for a token.
  unfoldable pub page_at : GoString → ℕ → GoString → FetchError × Option DesiredStateServerResponse
  unfolding read_response bulk_url
  page_at authorization n token =
      if w.is_url (bulk_url token)
      then read_response w
          (w.respond n (record { url = bulk_url token; authorization = authorization }))
      else (bad_url, none)

  unfoldable pub fetch_batch : ℕ → GoString → ℕ → GoString → ℕ → Fetched
  unfolding page_at batch_of
  fetch_batch zero authorization n token num_results = record { batches = []; result = none }
  fetch_batch (suc fuel) authorization n token num_results =
      let (error, page) = page_at authorization n token in
      elim page [
        | none ↦ record { batches = []; result = some (failure error) }
        | some response ↦ elim response.results [
          | [] ↦ record { batches = []; result = some (success num_results) }
          | first ∷ more ↦
              if w.is_done_analyzing n
              then record { batches = []; result = some (failure not_analyzing) }
              else (let rest =
                    fetch_batch fuel authorization (suc n) (w.token_json response.bulk_token)
                      (num_results + suc (length more)) in
                  record rest { batches = batch_of response ∷ rest.batches })
        ]
      ]

  unfoldable pub fetch : ℕ → Fetched
  unfolding fetch_batch
  fetch fuel =
      fetch_batch fuel
        (encode w.base64 (record { user = conf.cc_auth_user; password = conf.cc_auth_password })) 0
        initial_bulk_token 0
