-- ===== src/Session/State.antt =====
-- The states of `SyncSession`: what entering each of them does, and the callbacks that wait.
pub mod Kept
use realm_object_store.Base.{
  ℕ, ◌+◌, Bool, true, false, List, [], ◌∷◌, ◌++◌, Option, none, some, ◌==◌, if◌then◌else◌,
}
use realm_object_store.Session.Data.{
  Kind, active, dying, inactive, ConnectionState, disconnected, connecting, connected, ResyncMode,
  recover, discard_local, manual, Direction, Wait, Output, make_session, bind, wait_for_completion,
  wait_for_upload_before_death, unregister_session, connection_changed, called, Session, emit,
  ErrorCode, operation_aborted,
}

-- The loops that call the callbacks that were waiting.
unfoldable pub call_all : List Wait → Option ErrorCode → Session → Session
call_all [] code s = s
call_all (w ∷ ws) code s = call_all ws code (emit (called w.callback code) s)

-- `cancel_pending_waits`
unfoldable pub cancel_pending_waits : Option ErrorCode → Session → Session
unfolding call_all
cancel_pending_waits code s = call_all s.callbacks code (record s { callbacks = [] })

abbrev register : Kind → Direction → ℕ → Session → Session
register inactive direction id s = s
register _ direction id s = emit (wait_for_completion direction id) s

-- `add_completion_callback`
unfoldable pub add_completion_callback : ℕ → Direction → Session → Session
add_completion_callback callback direction s =
    let id = s.counter + 1 in
    register s.state direction id (record s {
      counter = id;
      callbacks =
          s.callbacks ++ record { id = id; direction = direction; callback = callback } ∷ [];
    })

unfoldable pub add_again : List Wait → Session → Session
unfolding add_completion_callback
add_again [] s = s
add_again (w ∷ ws) s = add_again ws (add_completion_callback w.callback w.direction s)

-- What the configuration of a client reset says of local changes: whether they are recovered.
abbrev recovers : ResyncMode → Bool
recovers recover = true
recovers _ = false

-- `create_sync_session`, for a server address that the client can read.
unfoldable pub create_sync_session : Session → Session
create_sync_session s =
    if s.attached
    then s
    else emit
        (make_session
          (if s.force_client_resync then some (recovers s.config.client_resync_mode) else none))
        (record s { attached = true })

abbrev pub attach : Session → Session
attach s = if s.attached then s else emit bind (create_sync_session s)

-- `Active::enter_state`
unfoldable pub enter_active : Session → Session
unfolding add_again create_sync_session
enter_active s = let s' = attach s in add_again s'.callbacks (record s' { callbacks = [] })

-- `unregister`
abbrev pub unregister : Session → Session
unregister s = emit unregister_session s

abbrev pub notify_disconnected : ConnectionState → Session → Session
notify_disconnected disconnected s = s
notify_disconnected old s = emit (connection_changed old disconnected) s

-- `Inactive::enter_state`
unfoldable pub enter_inactive : Session → Session
unfolding call_all
enter_inactive s = call_all s.callbacks (some operation_aborted) (
    notify_disconnected s.connection
      (unregister (record s { connection = disconnected; callbacks = []; attached = false })))

-- `Dying::enter_state`; without a session it goes on to the inactive state.
unfoldable pub enter_dying : Session → Session
unfolding enter_inactive
enter_dying s =
    if s.attached
    then emit (wait_for_upload_before_death (s.death_count + 1))
        (record s { death_count = s.death_count + 1 })
    else enter_inactive (record s { state = inactive })

-- `advance_state`
unfoldable pub advance_state : Kind → Session → Session
unfolding enter_active enter_dying enter_inactive
advance_state active s = enter_active (record s { state = active })
advance_state dying s = enter_dying (record s { state = dying })
advance_state inactive s = enter_inactive (record s { state = inactive })
