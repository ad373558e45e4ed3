-- ===== src/Evacuator/Service.antt =====
-- What a run of the evacuator asks for (evacuator/evacuator.go).
use hm.Prelude.{
  ◌≡◌, refl, ap, ◌∙◌, inl, inr, Bool, true, ◌||◌, List, [], ◌∷◌, ◌++◌, Option, none, some, All,
  ◌==◌, if◌then◌else◌, Option-cases,
}
use hm.Prelude.Int.{pos, leb_ℤ, ltb_ℤ}
use hm.Prelude.Text.{GoString, string_eq}
use hm.Prelude.Time.{Time, unix}
use hm.Models.Instance.{DropletExited, reason_dea_shutdown, reason_dea_evacuation}
use hm.Sender.{Request}
use hm.Evacuator.{
  Evacuator, Delivery, BusEvent, delivered, signalled, receive_exited, run_evacuator,
}
use hm.Evacuator.Restart.{its_request, handle_exited-requests}

-- The clock has not gone back between the two times that a message reads from it.
abbrev pub IsTimely : BusEvent → Type 0
IsTimely (delivered d) = leb_ℤ (unix d.created_at) (unix d.sent_at) ≡ true
IsTimely signalled = true ≡ true

-- The instance exited with its DEA.
abbrev pub exits_with_dea : DropletExited → Bool
exits_with_dea exited =
    exited.reason == reason_dea_shutdown || exited.reason == reason_dea_evacuation

module _ {S : Type 0} (e : Evacuator S) (parse : GoString → Option DropletExited) where
  abbrev pub restart_of : Delivery → List Request
  restart_of d = elim (parse d.body) [
    | none ↦ []
    | some exited ↦
        if exits_with_dea exited
        then its_request e d.guid d.created_at d.sent_at exited ∷ []
        else []
  ]

  -- The restarts that the messages before the first signal are about.
  abbrev pub restarts_of : List BusEvent → List Request
  restarts_of [] = []
  restarts_of (signalled ∷ events) = []
  restarts_of (delivered d ∷ events) = restart_of d ++ restarts_of events

  module _ (fresh : (now : Time) (s : S) → (e.store.verify_freshness now s).1 ≡ none)
      (room : ltb_ℤ (pos 0) e.conf.sender_message_limit ≡ true) where
    receive_exited-requests :
        (d : Delivery) (s : S)
        → IsTimely (delivered d)
        → (receive_exited e parse d s).1 ≡ restart_of d
    unfolding receive_exited
    receive_exited-requests d s timely = elim (Option-cases (parse d.body)) [
      | inl unread ↦ rw (receive_exited, restart_of, unread) refl
      | inr (exited, read) ↦
          rw (receive_exited, restart_of, read)
            (rw (fresh d.sent_at _) at
              (handle_exited-requests e d.guid d.created_at d.sent_at exited s timely room).0)
    ]

    -- If the actual state is fresh throughout, the limit allows a start and the clock does not go back
    -- within a message, then the requests of a run are, in order, one start for each message before the
    -- first signal that can be parsed and tells of an instance that exited with its DEA, and no others.
    pub run_evacuator-requests :
        (events : List BusEvent) (s : S)
        → All IsTimely events
        → (run_evacuator e parse none events s).1 ≡ restarts_of events
    unfolding run_evacuator
    run_evacuator-requests [] s timely = refl
    run_evacuator-requests (signalled ∷ events) s timely = refl
    run_evacuator-requests (delivered d ∷ events) s (timely, later) =
        let s' = (receive_exited e parse d s).0 in
        ap (λ now. now ++ (run_evacuator e parse none events s').1)
          (receive_exited-requests d s timely)
        ∙ ap (λ rest. restart_of d ++ rest) (run_evacuator-requests events s' later)
