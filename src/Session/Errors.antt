-- ===== src/Session/Errors.antt =====
-- `SyncSession::handle_error`, `handle_refresh` and the connection state that the client reports.
pub mod Kept
pub mod Stops
use realm_object_store.Base.{
  ℕ, Bool, true, false, not, ◌&&◌, List, [], ◌∷◌, Option, none, some, ◌==◌, if◌then◌else◌,
}
use realm_object_store.Session.Data.{
  Kind, active, dying, inactive, ConnectionState, ResyncMode, recover, discard_local, manual,
  Config, SyncError, Output, refresh, invalidate_user, refresh_custom_data, mark_file_for_deletion,
  reported, connection_changed, Session, emit,
}
use realm_object_store.Session.Data.Codes.{
  ProtocolError, connection_closed, other_error, session_closed, other_session_error,
  disabled_session, token_expired, bad_authentication, permission_denied, bad_client_file,
  bad_client_file_ident, bad_origin_file_ident, bad_server_file_ident, bad_server_version,
  client_file_blacklisted, diverging_histories, server_file_deleted, user_blacklisted,
  client_file_expired, invalid_schema_change, ClientError, closed_by_client, pong_timeout,
  client_error, ErrorCode, protocol, client, operation_aborted, unknown, is_client_reset_requested,
}
use realm_object_store.Session.State.{cancel_pending_waits, advance_state}
use realm_object_store.Session.Calls.{revive_if_needed}

-- `NextStateAfterError`
pub data NextState : Type 0 where
  stay go_inactive fail : NextState

-- What the switches on the code decide.
pub data Reaction : Type 0 where
  ignored token_assertion user_invalid user_refresh : Reaction
  file_unusable : Bool → Reaction
  plain unrecognized : Reaction

unfoldable pub protocol_reaction : ProtocolError → Reaction
protocol_reaction connection_closed = ignored
protocol_reaction other_error = ignored
protocol_reaction session_closed = ignored
protocol_reaction other_session_error = ignored
protocol_reaction disabled_session = ignored
protocol_reaction token_expired = token_assertion
protocol_reaction bad_authentication = user_invalid
protocol_reaction permission_denied = file_unusable false
protocol_reaction bad_client_file = file_unusable true
protocol_reaction bad_client_file_ident = file_unusable true
protocol_reaction bad_origin_file_ident = file_unusable true
protocol_reaction bad_server_file_ident = file_unusable true
protocol_reaction bad_server_version = file_unusable true
protocol_reaction client_file_blacklisted = file_unusable true
protocol_reaction diverging_histories = file_unusable true
protocol_reaction server_file_deleted = file_unusable true
protocol_reaction user_blacklisted = file_unusable true
protocol_reaction client_file_expired = file_unusable true
protocol_reaction invalid_schema_change = file_unusable true
protocol_reaction _ = plain

unfoldable pub reaction : ErrorCode → Reaction
unfolding protocol_reaction
reaction (protocol e) = protocol_reaction e
reaction (client closed_by_client) = ignored
reaction (client pong_timeout) = ignored
reaction (client (client_error n)) = plain
reaction operation_aborted = unrecognized
reaction (unknown n) = if n == 11 then user_refresh else unrecognized

-- `handle_error` of each state: dying sessions stop at a fatal error.
abbrev pub error_in : Kind → SyncError → Session → Session
error_in dying e s = if e.is_fatal then advance_state inactive s else s
error_in _ e s = s

-- The callbacks are moved aside while the session goes through the inactive state.
unfoldable pub resync : Session → Session
unfolding advance_state revive_if_needed
resync s =
    let s' = advance_state inactive (record s { force_client_resync = true; callbacks = [] }) in
    revive_if_needed (record s' { callbacks = s.callbacks })

abbrev report : SyncError → Session → Session
report e s = if s.config.has_error_handler then emit (reported e) s else s

abbrev stop : SyncError → Session → Session
stop e s = advance_state inactive (
    if is_client_reset_requested e.error_code
    then cancel_pending_waits (some e.error_code) s
    else s)

abbrev next_state : NextState → SyncError → Session → Session
next_state stay e s =
    if s.config.cancel_waits_on_nonfatal_error
    then cancel_pending_waits (some e.error_code) s
    else s
next_state go_inactive e s = stop e s
next_state fail e s = cancel_pending_waits (some e.error_code) s

-- From the test for an inactive session on.
abbrev finish_in : Kind → NextState → SyncError → Session → Session
finish_in inactive next e s = s
finish_in _ next e s = report e (next_state next e s)

unfoldable pub finish : NextState → SyncError → Session → Session
unfolding advance_state cancel_pending_waits
finish next e s = finish_in s.state next e s

abbrev pub by_severity : SyncError → NextState
by_severity e = if e.is_fatal then fail else stay

-- The switches on the code; at an expired token the source stops the program.
abbrev pub react : Reaction → SyncError → Session → Option Session
react ignored e s = some s
react token_assertion e s = none
react user_invalid e s =
    some (finish stay e (emit invalidate_user (cancel_pending_waits (some e.error_code) s)))
react user_refresh e s = some (emit refresh_custom_data s)
react (file_unusable should_backup) e s =
    some (finish go_inactive e (emit (mark_file_for_deletion should_backup) s))
react plain e s = some (finish (by_severity e) e s)
react unrecognized e s =
    some (finish (by_severity e) (record e { is_unrecognized_by_client = true }) s)

-- `advance_state` asserts that the state to enter is another one.
abbrev pub resync_in : Kind → Session → Option Session
resync_in inactive s = none
resync_in _ s = some (resync s)

abbrev pub resync_or : Bool → ResyncMode → Session → Option Session → Option Session
resync_or true recover s other = resync_in s.state s
resync_or true discard_local s other = resync_in s.state s
resync_or _ _ s other = other

-- `handle_error`
unfoldable pub handle_error : SyncError → Session → Option Session
unfolding advance_state resync finish reaction
handle_error e s =
    let s' = error_in s.state e s in
    resync_or (is_client_reset_requested e.error_code) s'.config.client_resync_mode s'
      (react (reaction e.error_code) e s')

abbrev expired_error : SyncError
expired_error = record {
  error_code = protocol bad_authentication;
  is_fatal = true;
  is_unrecognized_by_client = false;
}

abbrev refresh_or_activate : Session → Session
refresh_or_activate s = if s.attached then emit refresh s else advance_state active s

-- What `handle_refresh` returns, for a user, if there is one, of whom is known whether the refresh
-- token is over, and an error of the refresh.
unfoldable pub handle_refresh : Option Bool → Option ErrorCode → Session → Session
unfolding cancel_pending_waits advance_state
handle_refresh none code s = cancel_pending_waits code s
handle_refresh (some true) code s = report expired_error (cancel_pending_waits code s)
handle_refresh (some false) (some code) s = emit refresh_custom_data s
handle_refresh (some false) none s = refresh_or_activate s

abbrev handle_some : Option SyncError → Session → Option Session
handle_some none s = some s
handle_some (some e) s = handle_error e s

-- The listener of `create_sync_session`; `invoke_callbacks` is one output.
unfoldable pub on_connection_state : ConnectionState → Option SyncError → Session → Option Session
unfolding handle_error
on_connection_state state error s =
    handle_some error
      (emit (connection_changed s.connection state) (record s { connection = state }))
