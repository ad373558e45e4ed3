-- ===== src/Models/Desired.antt =====
-- models/desired_app_state.go: what the Cloud Controller wants.
use hm.Prelude.{
  ◌≡◌, ◌↔◌, Bool, true, ◌&&◌, List, [], ◌∷◌, ◌++◌, none, some, Result, ok, err, ◌==◌, length, arith,
}
use hm.Prelude.Int.{ℤ, pos, int_eq}
use hm.Prelude.Text.{GoString, codes, string_eq, str_eqb_iff, itoa, atoi, split}
use hm.Models.Instance.{CsvError, wrong_count, bad_number}

abbrev pub app_started : GoString
app_started = codes "STARTED"

abbrev pub package_failed : GoString
package_failed = codes "FAILED"

abbrev pub package_pending : GoString
package_pending = codes "PENDING"

abbrev pub package_staged : GoString
package_staged = codes "STAGED"

pub record DesiredAppState : Type 0 where
  pub app_guid : GoString
  pub app_version : GoString
  pub number_of_instances : ℤ
  pub state : GoString
  pub package_state : GoString

-- DesiredAppState{}
abbrev pub not_desired : DesiredAppState
not_desired = record {
  app_guid = [];
  app_version = [];
  number_of_instances = pos 0;
  state = [];
  package_state = [];
}

desired_of_values : GoString → GoString → List GoString → Result CsvError DesiredAppState
desired_of_values app_guid app_version (number ∷ state ∷ package_state ∷ []) = elim (atoi number) [
  | none ↦ err bad_number
  | some n ↦ ok (record {
    app_guid = app_guid;
    app_version = app_version;
    number_of_instances = n;
    state = state;
    package_state = package_state;
  })
]
desired_of_values app_guid app_version vs = err (wrong_count (length vs))

unfoldable pub new_desired_app_state_from_csv :
    GoString → GoString → GoString → Result CsvError DesiredAppState
unfolding desired_of_values
new_desired_app_state_from_csv app_guid app_version encoded =
    desired_of_values app_guid app_version (split b',' encoded)

unfoldable pub desired_to_csv : DesiredAppState → GoString
desired_to_csv d = itoa d.number_of_instances ++ (b',' ∷ (d.state ++ (b',' ∷ d.package_state)))

pub equal : DesiredAppState → DesiredAppState → Bool
equal state other =
    state.app_guid == other.app_guid
    && state.app_version == other.app_version
    && state.number_of_instances == other.number_of_instances
    && state.state == other.state
    && state.package_state == other.package_state

unfoldable pub desired_store_key : DesiredAppState → GoString
desired_store_key state = state.app_guid ++ (b',' ∷ state.app_version)

-- `Equal` decides equality.
pub equal_iff : (a b : DesiredAppState) → (equal a b ≡ true) ↔ (a ≡ b)
unfolding equal
equal_iff a b = ground (
  arith,
  str_eqb_iff a.app_guid b.app_guid,
  str_eqb_iff a.app_version b.app_version,
  str_eqb_iff a.state b.state,
  str_eqb_iff a.package_state b.package_state,
)
