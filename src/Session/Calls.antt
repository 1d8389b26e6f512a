-- ===== src/Session/Calls.antt =====
-- The calls of `SyncSession`, each through its state. A call is one step: what another thread may do
-- once the lock is released comes before or after it, but for the loop of `update_configuration`.
pub mod Kept
pub mod Ends
pub mod Configuring
use realm_object_store.Base.{
  ℕ, zero, suc, ◌+◌, Bool, true, false, not, ◌&&◌, List, [], ◌∷◌, ◌++◌, Option, none, some, ◌==◌,
  if◌then◌else◌,
}
use realm_object_store.Session.Data.{
  Kind, active, dying, inactive, ConnectionState, StopPolicy, immediately, live_indefinitely,
  after_changes_uploaded, Direction, upload, download, Wait, Config, Output, refresh,
  cancel_reconnect_delay, wait_for_session_terminations, transact_notified, connection_changed,
  called, Session, emit, ErrorCode,
}
use realm_object_store.Session.State.{add_completion_callback, advance_state, unregister}

-- `revive_if_needed` of each state.
abbrev pub revive_in : Kind → Session → Session
revive_in active s = s
revive_in dying s = advance_state active s
revive_in inactive s = advance_state active s

unfoldable pub revive_if_needed : Session → Session
unfolding advance_state
revive_if_needed s = revive_in s.state s

-- `log_out` of each state.
abbrev log_out_in : Kind → Session → Session
log_out_in active s = advance_state inactive s
log_out_in dying s = advance_state inactive s
log_out_in inactive s = s

unfoldable pub log_out : Session → Session
unfolding advance_state
log_out s = log_out_in s.state s

-- `shutdown_and_wait`
unfoldable pub shutdown_and_wait : Session → Session
unfolding advance_state
shutdown_and_wait s = emit wait_for_session_terminations (log_out_in s.state s)

-- `close` of each state.
abbrev close_active : StopPolicy → Session → Session
close_active immediately s = advance_state inactive s
close_active live_indefinitely s = s
close_active after_changes_uploaded s = advance_state dying s

abbrev close_in : Kind → Session → Session
close_in active s = close_active s.config.stop_policy s
close_in dying s = s
close_in inactive s = unregister s

unfoldable pub close : Session → Session
unfolding advance_state
close s = close_in s.state s

-- `did_drop_external_reference`, by whether a new reference was taken meanwhile.
unfoldable pub did_drop_external_reference : Bool → Session → Session
unfolding close
did_drop_external_reference revived s = if revived then s else close s

-- `handle_reconnect`
abbrev reconnect_in : Kind → Session → Session
reconnect_in active s = emit cancel_reconnect_delay s
reconnect_in _ s = s

unfoldable pub handle_reconnect : Session → Session
handle_reconnect s = reconnect_in s.state s

-- `nonsync_transact_notify`, without the progress notifier.
abbrev notify_in : Kind → ℕ → Session → Session
notify_in active version s = emit (transact_notified version) s
notify_in _ version s = s

unfoldable pub nonsync_transact_notify : ℕ → Session → Session
nonsync_transact_notify version s = notify_in s.state version s

-- `wait_for_upload_completion` and `wait_for_download_completion`
unfoldable pub wait_for_upload : ℕ → Session → Session
unfolding add_completion_callback
wait_for_upload callback s = add_completion_callback callback upload s

unfoldable pub wait_for_download : ℕ → Session → Session
unfolding add_completion_callback
wait_for_download callback s = add_completion_callback callback download s

-- `m_completion_callbacks.extract(id)`
unfoldable pub extract : ℕ → List Wait → Option Wait × List Wait
extract id [] = (none, [])
extract id (w ∷ ws) =
    let (found, rest) = extract id ws in if w.id == id then (some w, ws) else (found, w ∷ rest)

abbrev call_found : Option Wait × List Wait → Option ErrorCode → Session → Session
call_found (none, ws) code s = record s { callbacks = ws }
call_found (some w, ws) code s = emit (called w.callback code) (record s { callbacks = ws })

-- What `add_completion_callback` gives the client to call when a wait is over.
unfoldable pub on_completion : ℕ → Option ErrorCode → Session → Session
unfolding extract
on_completion id code s = call_found (extract id s.callbacks) code s

abbrev upload_done_in : Kind → Bool → Session → Session
upload_done_in dying true s = advance_state inactive s
upload_done_in _ _ s = s

-- What `Dying::enter_state` gives the client to call when the upload is over.
unfoldable pub on_upload_before_death : ℕ → Session → Session
unfolding advance_state
on_upload_before_death count s = upload_done_in s.state (s.death_count == count) s

abbrev pub set_config : Config → Session → Session
set_config config s = record s { config = config }

abbrev pub configure_in : Kind → Config → Option Session → Session → Option Session
configure_in inactive config again s = some (set_config config s)
configure_in _ config again s = again

-- The loop of `update_configuration`. While a round releases the lock, callbacks and other threads do
-- to the session what `others` has for the number of rounds that are left.
unfoldable pub switch_off : (ℕ → Session → Session) → ℕ → Config → Session → Option Session
unfolding advance_state
switch_off others zero config s = none
switch_off others (suc fuel) config s =
    let again = switch_off others fuel config (others fuel (advance_state inactive s)) in
    configure_in s.state config again s

abbrev pub revive_some : Option Session → Option Session
revive_some none = none
revive_some (some s) = some (revive_if_needed s)

-- `update_configuration`
unfoldable pub update_configuration :
    (ℕ → Session → Session) → ℕ → Config → Session → Option Session
unfolding switch_off revive_if_needed
update_configuration others fuel config s = revive_some (switch_off others fuel config s)
