-- ===== src/Sender/Decisions.antt =====
-- When the sender sends: the decisions of startMessageToSend and stopMessageToSend.
use hm.Prelude.{
  ◌<◌, ◌≡◌, ◌≢◌, refl, ◌↔◌, ◌⊎◌, inl, inr, true, false, none, some, arith, length, Bool-cases,
  Option-cases, if-has, sym, ◌∙◌,
}
use hm.Prelude.Text.{string_eq}
use hm.Models.Instance.{InstanceHeartbeat, is_evacuating}
use hm.Models.Pending.{PendingStartMessage, PendingStopMessage, StartMessage}
use hm.Models.App.{
  App, is_desired, is_index_desired, has_starting_or_running_instance_at_index, instance_with_guid,
  starting_or_running_instances_at_index,
}
use hm.Sender.{
  Sender, app_of, start_message_to_send, stop_in_app, start_in_app, start_message_for,
  stop_message_to_send,
}

-- The snapshot has the app, which is desired at the index, and nothing starts or runs there.
abbrev pub IsGap : Sender → PendingStartMessage → Type 0
IsGap d m =
    (app : App) × (app_of d m.app_guid m.app_version ≡ some app)
    × (is_desired app ≡ true)
    × (is_index_desired m.index_to_start app ≡ true)
    × (has_starting_or_running_instance_at_index m.index_to_start app ≡ false)

-- The message that names what the pending message names.
abbrev pub names_of : PendingStartMessage → StartMessage
names_of m = record {
  message_id = m.message_id;
  app_guid = m.app_guid;
  app_version = m.app_version;
  instance_index = m.index_to_start;
}

abbrev pub MayStart : Sender → PendingStartMessage → Type 0
MayStart d m = (m.skip_verification ≡ true) ⊎ IsGap d m

-- The snapshot has the app, and the app or the index of the instance is not desired, or the instance
-- is being evacuated, or several start or run at its index.
abbrev pub MayStopIn : App → InstanceHeartbeat → Type 0
MayStopIn app i =
    (is_desired app ≡ false)
    ⊎ (is_index_desired i.instance_index app ≡ false)
    ⊎ (is_evacuating i ≡ true)
    ⊎ (1 < length (starting_or_running_instances_at_index i.instance_index app))

abbrev pub MaySendStop : Sender → PendingStopMessage → Type 0
MaySendStop d m =
    (app : App) × (app_of d m.app_guid m.app_version ≡ some app)
    × MayStopIn app (instance_with_guid m.instance_guid app)

start_in_app_iff :
    (d : Sender) (m : PendingStartMessage) (app : App)
    → ((is_desired app ≡ true)
          × (is_index_desired m.index_to_start app ≡ true)
          × (has_starting_or_running_instance_at_index m.index_to_start app ≡ false)
        → start_in_app d m app ≡ some (start_message_for d m))
      × ((sent : StartMessage)
          → start_in_app d m app ≡ some sent
          → (is_desired app ≡ true)
            × (is_index_desired m.index_to_start app ≡ true)
            × (has_starting_or_running_instance_at_index m.index_to_start app ≡ false)
            × (sent ≡ start_message_for d m))
unfolding start_in_app
start_in_app_iff d m app = (λ h. ground arith, λ sent e. ground arith)

stop_in_app_iff :
    (d : Sender) (m : PendingStopMessage) (app : App)
    → (stop_in_app d m app ≢ none) ↔ MayStopIn app (instance_with_guid m.instance_guid app)
unfolding stop_in_app is_evacuating
stop_in_app_iff d m app = ground arith

some-inj {ℓ} : {A : Type ℓ} {a b : A} → some a ≡ some b → a ≡ b
some-inj e = cc

start_found :
    (d : Sender) (m : PendingStartMessage)
    → IsGap d m
    → start_message_to_send d m ≡ some (start_message_for d m)
unfolding start_message_to_send
start_found d m (app, found, desired, index, gap) =
    let sends = (start_in_app_iff d m app).0 (desired, index, gap) in
    rw found (
      if-has (λ o. o ≡ some (start_message_for d m)) m.skip_verification (λ skip. refl)
        (λ v. sends))

start_only :
    (d : Sender) (m : PendingStartMessage) (sent : StartMessage)
    → start_message_to_send d m ≡ some sent
    → MayStart d m × (sent ≡ start_message_for d m)
unfolding start_message_to_send
start_only d m sent e = elim (Bool-cases m.skip_verification) [
  | inl skip ↦ (inl skip, sym (some-inj (rw skip at e)))
  | inr verify ↦ elim (Option-cases (app_of d m.app_guid m.app_version)) [
    | inl missing ↦ absurd (none-some (rw (verify, missing) at e))
    | inr (app, found) ↦
        let (desired, index, gap, same) =
          (start_in_app_iff d m app).1 sent (rw (verify, found) at e) in
        (inr (app, found, desired, index, gap), same)
  ]
]
  where
    none-some : none ≡ some sent → ⊥
    none-some q = cc

-- A start is sent exactly if it skips verification, or its index is a gap of an app that is desired
-- in the snapshot; what is sent then has the message ID, the app, the version and the index of the
-- pending message.
pub start_message_to_send_iff :
    (d : Sender) (m : PendingStartMessage)
    → (MayStart d m → start_message_to_send d m ≡ some (names_of m))
      × ((sent : StartMessage)
          → start_message_to_send d m ≡ some sent
          → MayStart d m × (sent ≡ names_of m))
unfolding start_message_to_send start_message_for
start_message_to_send_iff d m = (
  λ why. elim why [
    | inl skip ↦ rw skip refl
    | inr gap ↦ unfold start_message_to_send in start_found d m gap
  ],
  start_only d m,
)

stop_missing :
    (d : Sender) (m : PendingStopMessage)
    → app_of d m.app_guid m.app_version ≡ none
    → stop_message_to_send d m ≡ none
unfolding stop_message_to_send
stop_missing d m missing = rw (stop_message_to_send, missing) refl

stop_found :
    (d : Sender) (m : PendingStopMessage) (app : App)
    → app_of d m.app_guid m.app_version ≡ some app
    → stop_message_to_send d m ≡ stop_in_app d m app
unfolding stop_message_to_send
stop_found d m app found = rw (stop_message_to_send, found) refl

-- A stop is sent exactly if the snapshot has the app and the app is not desired, or the index of the
-- instance is not, or the instance is being evacuated, or several start or run at its index. The
-- instance is the first with the GUID, and an empty heartbeat at index 0 where there is none.
pub stop_message_to_send_iff :
    (d : Sender) (m : PendingStopMessage) → (stop_message_to_send d m ≢ none) ↔ MaySendStop d m
stop_message_to_send_iff d m = (
  λ h. elim (Option-cases (app_of d m.app_guid m.app_version)) [
    | inl missing ↦ absurd (h (stop_missing d m missing))
    | inr (app, found) ↦
        (app, found, (stop_in_app_iff d m app).0 (λ e. h (stop_found d m app found ∙ e)))
  ],
  λ (app, found, why) e. (stop_in_app_iff d m app).1 why (sym (stop_found d m app found) ∙ e),
)
