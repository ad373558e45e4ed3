-- ===== src/Models/Instance.antt =====
-- models/instance_heartbeat.go, heartbeat.go, crash_count.go, droplet_exited.go: what the DEAs report.
use hm.Prelude.{
  ℕ, suc, Bool, ◌||◌, List, [], ◌∷◌, ◌++◌, map, none, some, Result, ok, err, ◌==◌, if◌then◌else◌,
  length,
}
use hm.Prelude.Int.{ℤ, pos}
use hm.Prelude.Text.{GoString, codes, string_eq, itoa, atoi, split}
use hm.Prelude.Float.{Float64, FloatOps}

-- type InstanceState string
abbrev pub InstanceState : Type 0
InstanceState = GoString

abbrev pub state_starting : InstanceState
state_starting = codes "STARTING"

abbrev pub state_running : InstanceState
state_running = codes "RUNNING"

abbrev pub state_crashed : InstanceState
state_crashed = codes "CRASHED"

abbrev pub state_evacuating : InstanceState
state_evacuating = codes "EVACUATING"

pub record InstanceHeartbeat : Type 0 where
  pub app_guid : GoString
  pub app_version : GoString
  pub instance_guid : GoString
  pub instance_index : ℤ
  pub state : InstanceState
  pub state_timestamp : Float64
  pub dea_guid : GoString

-- InstanceHeartbeat{}
abbrev pub no_heartbeat : InstanceHeartbeat
no_heartbeat = record {
  app_guid = [];
  app_version = [];
  instance_guid = [];
  instance_index = pos 0;
  state = [];
  state_timestamp = pos 0;
  dea_guid = [];
}

unfoldable pub is_starting : InstanceHeartbeat → Bool
is_starting heartbeat = heartbeat.state == state_starting

unfoldable pub is_running : InstanceHeartbeat → Bool
is_running heartbeat = heartbeat.state == state_running

unfoldable pub is_starting_or_running : InstanceHeartbeat → Bool
unfolding is_starting is_running
is_starting_or_running heartbeat = is_starting heartbeat || is_running heartbeat

unfoldable pub is_crashed : InstanceHeartbeat → Bool
is_crashed heartbeat = heartbeat.state == state_crashed

unfoldable pub is_evacuating : InstanceHeartbeat → Bool
is_evacuating heartbeat = heartbeat.state == state_evacuating

pub data CsvError : Type 0 where
  wrong_count : ℕ → CsvError
  bad_number bad_float : CsvError

read_int : GoString → Result CsvError ℤ
read_int s = elim (atoi s) [ none ↦ err bad_number | some n ↦ ok n ]

read_float : FloatOps → GoString → Result CsvError Float64
read_float floats s = elim (floats.parse_float s) [ none ↦ err bad_float | some x ↦ ok x ]

-- NewInstanceHeartbeatFromCSV behind `strings.Split`
heartbeat_of_values :
    FloatOps → GoString → GoString → GoString → List GoString → Result CsvError InstanceHeartbeat
unfolding read_int read_float
heartbeat_of_values floats app_guid app_version instance_guid (index ∷ state ∷ stamp ∷ dea ∷ []) =
    elim (read_int index) [
      | err e ↦ err e
      | ok i ↦ elim (read_float floats stamp) [
        | err e ↦ err e
        | ok x ↦ ok (record {
          app_guid = app_guid;
          app_version = app_version;
          instance_guid = instance_guid;
          instance_index = i;
          state = state;
          state_timestamp = x;
          dea_guid = dea;
        })
      ]
    ]
heartbeat_of_values floats app_guid app_version instance_guid vs = err (wrong_count (length vs))

unfoldable pub new_instance_heartbeat_from_csv :
    FloatOps → GoString → GoString → GoString → GoString → Result CsvError InstanceHeartbeat
unfolding heartbeat_of_values
new_instance_heartbeat_from_csv floats app_guid app_version instance_guid encoded =
    heartbeat_of_values floats app_guid app_version instance_guid (split b',' encoded)

unfoldable pub heartbeat_to_csv : FloatOps → InstanceHeartbeat → GoString
heartbeat_to_csv floats h =
    itoa h.instance_index
    ++ (b','
        ∷ (h.state ++ (b',' ∷ (floats.format_tenths h.state_timestamp ++ (b',' ∷ h.dea_guid)))))

pub record Heartbeat : Type 0 where
  pub dea_guid : GoString
  pub instance_heartbeats : List InstanceHeartbeat

-- The loop of NewHeartbeatFromJSON: each instance takes the DEA of its heartbeat.
unfoldable pub stamp_dea : Heartbeat → Heartbeat
stamp_dea heartbeat = record heartbeat {
  instance_heartbeats =
      map (λ (i : InstanceHeartbeat). record i { dea_guid = heartbeat.dea_guid })
        heartbeat.instance_heartbeats;
}

pub record StateCounts : Type 0 where
  pub evacuating : ℕ
  pub crashed : ℕ
  pub running : ℕ
  pub starting : ℕ

tally : StateCounts → InstanceHeartbeat → StateCounts
tally c i =
    if i.state == state_crashed
    then record c { crashed = suc c.crashed }
    else if i.state == state_evacuating
    then record c { evacuating = suc c.evacuating }
    else if i.state == state_running
    then record c { running = suc c.running }
    else if i.state == state_starting
    then record c { starting = suc c.starting }
    else c

tally_all : List InstanceHeartbeat → StateCounts → StateCounts
unfolding tally
tally_all [] c = c
tally_all (i ∷ is) c = tally_all is (tally c i)

-- The counts that Heartbeat.LogDescription prints.
pub state_counts : Heartbeat → StateCounts
unfolding tally_all
state_counts heartbeat =
    tally_all heartbeat.instance_heartbeats
      (record { evacuating = 0; crashed = 0; running = 0; starting = 0 })

pub record CrashCount : Type 0 where
  pub app_guid : GoString
  pub app_version : GoString
  pub instance_index : ℤ
  pub crash_count : ℤ
  pub created_at : ℤ

abbrev pub reason_dea_shutdown : GoString
reason_dea_shutdown = codes "DEA_SHUTDOWN"

abbrev pub reason_dea_evacuation : GoString
reason_dea_evacuation = codes "DEA_EVACUATION"

-- The fields of DropletExited that the program reads.
pub record DropletExited : Type 0 where
  pub app_guid : GoString
  pub app_version : GoString
  pub instance_guid : GoString
  pub instance_index : ℤ
  pub reason : GoString
