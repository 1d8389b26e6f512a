-- ===== src/Session/Data.antt =====
-- The members of `SyncSession` that its states work on, and what a session does outside of itself.
-- The sync client is not part of the program: its calls are outputs, and its callbacks are calls.
use realm_object_store.Base.{ℕ, ◌+◌, Bool, true, false, List, [], ◌∷◌, Option, none, some}
pub use Codes.*
pub mod Codes

-- `State::active`, `State::dying` and `State::inactive`
pub data Kind : Type 0 where
  active dying inactive : Kind

pub data ConnectionState : Type 0 where
  disconnected connecting connected : ConnectionState

-- `SyncSessionStopPolicy`
pub data StopPolicy : Type 0 where
  immediately live_indefinitely after_changes_uploaded : StopPolicy

-- `ClientResyncMode`
pub data ResyncMode : Type 0 where
  recover discard_local manual : ResyncMode

-- `NotifierType`
pub data Direction : Type 0 where
  upload download : Direction

-- The part of `SyncConfig` that decides anything here.
pub record Config : Type 0 where
  pub stop_policy : StopPolicy
  pub client_resync_mode : ResyncMode
  pub cancel_waits_on_nonfatal_error : Bool
  pub has_error_handler : Bool

-- An entry of `m_completion_callbacks`; callbacks are named by numbers.
pub record Wait : Type 0 where
  pub id : ℕ
  pub direction : Direction
  pub callback : ℕ

pub record SyncError : Type 0 where
  pub error_code : ErrorCode
  pub is_fatal : Bool
  pub is_unrecognized_by_client : Bool

-- Calls of the sync client, of the manager, of the user and of callbacks.
pub data Output : Type 0 where
  make_session : Option Bool → Output
  bind refresh cancel_reconnect_delay wait_for_session_terminations : Output
  transact_notified : ℕ → Output
  wait_for_completion : Direction → ℕ → Output
  wait_for_upload_before_death : ℕ → Output
  unregister_session : Output
  connection_changed : ConnectionState → ConnectionState → Output
  called : ℕ → Option ErrorCode → Output
  invalidate_user refresh_custom_data : Output
  mark_file_for_deletion : Bool → Output
  reported : SyncError → Output

-- `attached` says that there is an `m_session`. The outputs stand newest first.
pub record Session : Type 0 where
  pub state : Kind
  pub attached : Bool
  pub config : Config
  pub connection : ConnectionState
  pub death_count : ℕ
  pub force_client_resync : Bool
  pub counter : ℕ
  pub callbacks : List Wait
  pub outputs : List Output

-- A new session.
abbrev pub initial : Config → Bool → Session
initial config force = record {
  state = inactive;
  attached = false;
  config = config;
  connection = disconnected;
  death_count = 0;
  force_client_resync = force;
  counter = 0;
  callbacks = [];
  outputs = [];
}

abbrev pub emit : Output → Session → Session
emit o s = record s { outputs = o ∷ s.outputs }
