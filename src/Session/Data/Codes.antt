-- ===== src/Session/Data/Codes.antt =====
-- The error codes that src/sync/sync_session.cpp tells apart.
use realm_object_store.Base.{ℕ, Bool, true, false}

pub data ProtocolError : Type 0 where
  connection_closed other_error unknown_message bad_syntax limits_exceeded wrong_protocol_version
        bad_session_ident reuse_of_session_ident bound_in_other_session bad_message_order
        bad_client_version illegal_realm_path no_such_realm bad_changeset
        bad_changeset_header_syntax bad_changeset_size bad_changesets bad_decompression
        unsupported_session_feature transact_before_upload partial_sync_disabled user_mismatch
        too_many_sessions session_closed other_session_error disabled_session token_expired
        bad_authentication permission_denied bad_client_file bad_client_file_ident
        bad_origin_file_ident bad_server_file_ident bad_server_version client_file_blacklisted
        diverging_histories server_file_deleted user_blacklisted client_file_expired
        invalid_schema_change :
      ProtocolError

-- `Client::Error`, the two codes that are told apart and all others by their number.
pub data ClientError : Type 0 where
  closed_by_client pong_timeout : ClientError
  client_error : ℕ → ClientError

-- `std::error_code` by its category.
pub data ErrorCode : Type 0 where
  protocol : ProtocolError → ErrorCode
  client : ClientError → ErrorCode
  operation_aborted : ErrorCode
  unknown : ℕ → ErrorCode

-- `is_client_reset_requested`
unfoldable pub asks_client_reset : ProtocolError → Bool
asks_client_reset bad_server_file_ident = true
asks_client_reset bad_client_file_ident = true
asks_client_reset bad_server_version = true
asks_client_reset diverging_histories = true
asks_client_reset client_file_expired = true
asks_client_reset invalid_schema_change = true
asks_client_reset _ = false

unfoldable pub is_client_reset_requested : ErrorCode → Bool
unfolding asks_client_reset
is_client_reset_requested (protocol e) = asks_client_reset e
is_client_reset_requested _ = false
