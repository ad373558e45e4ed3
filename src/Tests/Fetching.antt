-- ===== src/Tests/Fetching.antt =====
-- The fetcher on a Cloud Controller with one page of two apps, of which one is wanted, and the header
-- of its requests.
use hm.Prelude.{
  In, inl, inr, ℕ, suc, ◌≡◌, refl, sym, ap, Bool, true, false, List, [], ◌∷◌, ◌++◌, Option, none,
  some, ok, map, All, arith, ◌<◌, if◌then◌else◌, ◌==◌, eqb, length,
}
use hm.Prelude.Int.{pos}
use hm.Prelude.Text.{GoString, codes, itoa, string_eq, Lacks}
use hm.Prelude.Map.{Map, insert}
use hm.Config.{defaults}
use hm.Models.Auth.{Base64, decode_basic_auth_info, encode, decode-encode}
use hm.Models.Desired.{DesiredAppState, desired_store_key, package_failed}
use hm.Fetcher.{
  World, HttpResponse, Request, DesiredStateServerResponse, FetchResult, Fetched, success, failure,
  fetch, page_at, batch_of, initial_bulk_token, not_analyzing,
}
use hm.Fetcher.Pages.{Pages, last, next, total_results}
use hm.Fetcher.Wanted.{IsWanted, batch_of_complete}
use hm.Fetcher.Runs.{authorization, fetch-ends, fetch-of-Pages, fetch-success, fetch-IsWanted}
use hm.Tests.Data.{three_wanted}

-- Stands for Base64 where its alphabet does not matter.
abbrev pub plain_base64 : Base64
plain_base64 = record { encode_to_string = λ s. s; decode_string = λ s. some s }

abbrev one_page : DesiredStateServerResponse
one_page = record {
  results =
      (codes "app", three_wanted)
      ∷ (codes "broken", record three_wanted { package_state = package_failed })
      ∷ [];
  bulk_token = pos 7;
}

abbrev no_page : DesiredStateServerResponse
no_page = record { results = []; bulk_token = pos 8 }

-- The first answer is the page, and every later one is empty.
abbrev parse_page : GoString → Option DesiredStateServerResponse
parse_page body = if body == codes "one" then some one_page else some no_page

abbrev answer_body : ℕ → GoString
answer_body n = if eqb n 0 then codes "one" else codes "none"

abbrev pub one_page_world : World
one_page_world = record {
  base64 = plain_base64;
  is_url = λ url. true;
  respond = λ n request. some (record { status_code = 200; body = some (answer_body n) });
  parse = parse_page;
  token_json = λ t. itoa t;
  is_done_analyzing = λ n. false;
}

decode-encode_example :
    decode_basic_auth_info plain_base64
      (encode plain_base64 (record { user = codes "mcat"; password = codes "testing" }))
    ≡ ok (record { user = codes "mcat"; password = codes "testing" })
decode-encode_example =
    decode-encode plain_base64 (record { user = codes "mcat"; password = codes "testing" }) refl
      (ground arith) (ground arith) (ground arith)

abbrev header : GoString
header = authorization one_page_world defaults

pub two_answers : Pages one_page_world defaults header 0 initial_bulk_token (one_page ∷ [])
unfolding page_at hm.Fetcher.read_response hm.Prelude.Text.str_eqb
two_answers = next one_page refl (omega arith) refl (last no_page refl refl)

some_same : (r : DesiredStateServerResponse) → some no_page ≡ some r → r.results ≡ []
some_same r e = ap (λ (o : Option DesiredStateServerResponse). results_of o) (sym e)
  where
    results_of : Option DesiredStateServerResponse → Map GoString DesiredAppState
    results_of none = []
    results_of (some page) = page.results

second_is_empty :
    (token : GoString) (response : DesiredStateServerResponse)
    → (page_at one_page_world defaults header 1 token).1 ≡ some response
    → response.results ≡ []
unfolding page_at hm.Fetcher.read_response hm.Prelude.Text.str_eqb
second_is_empty token response e = some_same response e

fetch-ends_example : (r : FetchResult) × ((fetch one_page_world defaults 2).result ≡ some r)
fetch-ends_example = fetch-ends one_page_world defaults 1 second_is_empty 2 (omega arith)

fetch-of-Pages_example :
    fetch one_page_world defaults 5
    ≡ record { batches = (three_wanted ∷ []) ∷ []; result = some (success 2) }
unfolding batch_of hm.Fetcher.cache_wanted hm.Fetcher.is_wanted hm.Prelude.Text.str_eqb insert
    desired_store_key
fetch-of-Pages_example =
    fetch-of-Pages one_page_world defaults (one_page ∷ []) 5 two_answers (omega arith)

-- The fetch of these pages, run.
fetched_one_page : (fetch one_page_world defaults 5).result ≡ some (success 2)
fetched_one_page =
    ap (λ f. f.result)
      (fetch-of-Pages one_page_world defaults (one_page ∷ []) 5 two_answers (omega arith))

fetch-success_example :
    (pages : List DesiredStateServerResponse) × Pages one_page_world defaults header 0
      initial_bulk_token pages
    × ((fetch one_page_world defaults 5).batches ≡ map batch_of pages)
    × (2 ≡ total_results pages)
fetch-success_example = fetch-success one_page_world defaults 5 2 fetched_one_page

fetch-IsWanted_example : All (All IsWanted) (fetch one_page_world defaults 5).batches
fetch-IsWanted_example = fetch-IsWanted one_page_world defaults 5

batch_of_complete_example :
    (queued : DesiredAppState) × In queued (batch_of one_page)
    × (desired_store_key queued ≡ desired_store_key three_wanted)
    × IsWanted queued
batch_of_complete_example = batch_of_complete one_page three_wanted (inl refl) (refl, inr refl)
