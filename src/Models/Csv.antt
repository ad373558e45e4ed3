-- ===== src/Models/Csv.antt =====
-- The CSV forms of models/desired_app_state.go and models/instance_heartbeat.go: reading what was
-- written gives the value back.
use hm.Prelude.{◌≡◌, refl, some, ok, arith}
use hm.Prelude.Int.{ℤ, IsInt64}
use hm.Prelude.Text.{Lacks, split_at, split_last, itoa, is_digit}
use hm.Prelude.Text.Decimal.{atoi-itoa, itoa-Lacks}
use hm.Prelude.Float.{FloatOps}
use hm.Models.Instance.{InstanceHeartbeat, new_instance_heartbeat_from_csv, heartbeat_to_csv}
use hm.Models.Desired.{DesiredAppState, new_desired_app_state_from_csv, desired_to_csv}

pub number-Lacks_comma : (z : ℤ) → Lacks b',' (itoa z)
unfolding is_digit
number-Lacks_comma z = itoa-Lacks b',' z refl (λ e. omega arith)

-- A desired state whose instance count is an int64 and whose two states hold no comma is read back
-- from its CSV form under its own guid and version.
pub desired_from-to_csv :
    (d : DesiredAppState)
    → IsInt64 d.number_of_instances
    → Lacks b',' d.state
    → Lacks b',' d.package_state
    → new_desired_app_state_from_csv d.app_guid d.app_version (desired_to_csv d) ≡ ok d
unfolding new_desired_app_state_from_csv desired_to_csv
desired_from-to_csv d fits s p =
    rw
      (
        split_at b',' (itoa d.number_of_instances) _ (number-Lacks_comma d.number_of_instances),
        split_at b',' d.state _ s,
        split_last b',' d.package_state p,
      )
      (ground (arith, atoi-itoa d.number_of_instances fits))

-- An instance heartbeat whose index is an int64, whose state and DEA GUID hold no comma, and whose
-- timestamp is printed by `%.1f` without a comma and read back by `ParseFloat` as it was, is read back
-- from its CSV form under its own app GUID, version and instance GUID.
pub heartbeat_from-to_csv :
    (floats : FloatOps) (h : InstanceHeartbeat)
    → IsInt64 h.instance_index
    → Lacks b',' h.state
    → Lacks b',' h.dea_guid
    → Lacks b',' (floats.format_tenths h.state_timestamp)
    → floats.parse_float (floats.format_tenths h.state_timestamp) ≡ some h.state_timestamp
    → new_instance_heartbeat_from_csv floats h.app_guid h.app_version h.instance_guid
        (heartbeat_to_csv floats h)
      ≡ ok h
unfolding new_instance_heartbeat_from_csv heartbeat_to_csv
heartbeat_from-to_csv floats h fits s d t back =
    rw
      (
        split_at b',' (itoa h.instance_index) _ (number-Lacks_comma h.instance_index),
        split_at b',' h.state _ s,
        split_at b',' (floats.format_tenths h.state_timestamp) _ t,
        split_last b',' h.dea_guid d,
      )
      (ground (arith, atoi-itoa h.instance_index fits))
