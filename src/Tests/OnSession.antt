-- ===== src/Tests/OnSession.antt =====
-- A session of tests, that is asked for two callbacks, loses its user and is revived.
use realm_object_store.Base.{
  ◌↔◌, ◌⊎◌, ◌≢◌, inr, ℕ, ◌+◌, ◌==◌, if◌then◌else◌, ◌≡◌, refl, true, false, List, [], ◌∷◌, Option,
  none, some,
}
use realm_object_store.Session.Data.{
  active, token_expired, dying, inactive, recover, diverging_histories, after_changes_uploaded,
  manual, connected, Config, SyncError, Session, initial, ErrorCode, protocol, bad_authentication,
}
use realm_object_store.Session.State.Kept.{IsSettled, calls, waiting}
use realm_object_store.Session.Calls.{revive_if_needed, log_out, shutdown_and_wait}
use realm_object_store.Session.Calls.Ends.{IsIn, revive_if_needed-shutdown_and_wait}
use realm_object_store.Session.Errors.{handle_error, on_connection_state}
use realm_object_store.Session.Data.Codes.{is_client_reset_requested, asks_client_reset}
use realm_object_store.Session.Errors.Stops.{ends_inactive, handle_error-none}
use realm_object_store.Session.Errors.Kept.{KeepsSome, handle_error-Keeps}
use realm_object_store.Session.Progress.{Progress, Notifier, update, register_callback}
use realm_object_store.Session.Progress.Open.{
  IsCurrent, registered, updated, use_all, use_all-IsCurrent,
}
use realm_object_store.Session.Runs.{
  Event, revived, closed, upload_wanted, download_wanted, upload_done, completed,
  connection_reported, step, run, requested, run-IsSettled,
}

abbrev config : Config
config = record {
  stop_policy = after_changes_uploaded;
  client_resync_mode = manual;
  cancel_waits_on_nonfatal_error = false;
  has_error_handler = true;
}

abbrev fresh : Session
fresh = initial config false

abbrev error_of : ErrorCode → SyncError
error_of code = record { error_code = code; is_fatal = true; is_unrecognized_by_client = false }

abbrev events : List Event
events =
    upload_wanted 7
    ∷ revived
    ∷ download_wanted 8
    ∷ completed 3 none
    ∷ connection_reported connected none
    ∷ closed
    ∷ upload_done 1
    ∷ []

abbrev value : Option Session → Session
value none = fresh
value (some s) = s

run-IsSettled_example :
    IsSettled (value (run events fresh))
    × ((k : ℕ)
        → calls k (value (run events fresh)).outputs
            + waiting k (value (run events fresh)).callbacks
          ≡ requested k events)
unfolding run step on_connection_state
run-IsSettled_example = run-IsSettled events config false (value (run events fresh)) refl

revive_if_needed-shutdown_and_wait_example :
    IsIn active (revive_if_needed fresh)
    × IsIn inactive (shutdown_and_wait fresh)
    × IsIn inactive (log_out fresh)
revive_if_needed-shutdown_and_wait_example = revive_if_needed-shutdown_and_wait fresh refl

abbrev new_config : Config
new_config = record config { has_error_handler = false }

-- A callback revives the session after the first round; the round with two more to come is quiet.
abbrev reviving : ℕ → Session → Session
reviving n s = if n == 3 then revive_if_needed s else s

handle_error-Keeps_example :
    KeepsSome
      (revive_if_needed fresh)
      (handle_error (error_of (protocol bad_authentication)) (revive_if_needed fresh))
handle_error-Keeps_example =
    handle_error-Keeps (error_of (protocol bad_authentication)) (revive_if_needed fresh)

-- A fatal error that asks for a client reset, on a session that is dying.
abbrev recovering : Session
recovering = record fresh {
  state = dying;
  attached = true;
  config = record config { client_resync_mode = recover };
}

handle_error-none_example :
    (handle_error (error_of (protocol diverging_histories)) recovering ≡ none) ↔ (
      (protocol diverging_histories ≡ protocol token_expired)
      ⊎ ((is_client_reset_requested (protocol diverging_histories) ≡ true)
          × (recover ≢ manual)
          × (ends_inactive dying true ≡ true)))
handle_error-none_example = handle_error-none (error_of (protocol diverging_histories)) recovering

reset_stops : handle_error (error_of (protocol diverging_histories)) recovering ≡ none
unfolding is_client_reset_requested asks_client_reset
reset_stops = handle_error-none_example.1 (inr (refl, (λ e. cc), refl))

abbrev halfway : Progress
halfway = record {
  uploadable = 10;
  downloadable = 20;
  uploaded = 10;
  downloaded = 15;
  snapshot_version = 3;
}

abbrev unused : Notifier
unused = record { packages = []; current_progress = none; local_version = 0; token = 1 }

use_all-IsCurrent_example :
    IsCurrent
      (use_all (registered 4 true false ∷ registered 5 false false ∷ updated 2 halfway ∷ []) unused)
use_all-IsCurrent_example =
    use_all-IsCurrent (registered 4 true false ∷ registered 5 false false ∷ updated 2 halfway ∷ [])
      unused tt

-- The upload is complete, and its package gone.
left_over :
    (use_all
      (registered 4 true false ∷ registered 5 false false ∷ updated 2 halfway ∷ [])
      unused).packages
    ≡ (
      1,
      record {
        notifier = 4;
        captured_transferrable = some 20;
        snapshot_version = 0;
        is_streaming = false;
        is_download = true;
      },
    )
      ∷ []
unfolding use_all update register_callback
left_over = refl
