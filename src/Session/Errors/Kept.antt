-- ===== src/Session/Errors/Kept.antt =====
-- What the handling of errors keeps.
use realm_object_store.Base.{Bool, true, false, [], Option, none, some, if◌then◌else◌, ap, arith}
use realm_object_store.Session.Data.{
  Kind, active, dying, inactive, ConnectionState, ResyncMode, recover, discard_local, manual,
  SyncError, Session, emit, ErrorCode, is_client_reset_requested, connection_changed,
  mark_file_for_deletion, invalidate_user,
}
use realm_object_store.Session.State.{cancel_pending_waits, advance_state}
use realm_object_store.Session.State.Kept.{
  waiting, Keeps, Keeps-refl, Keeps-trans, cancel_pending_waits-Keeps, advance_state-Keeps,
  advance_state-callbacks,
}
use realm_object_store.Session.Calls.Kept.{moved, revive_if_needed-Keeps}
use realm_object_store.Session.Errors.{
  NextState, stay, go_inactive, fail, Reaction, ignored, token_assertion, user_invalid,
  user_refresh, file_unusable, plain, unrecognized, error_in, resync, report, stop, next_state,
  finish_in, finish, by_severity, react, reaction, resync_in, resync_or, handle_error,
  expired_error, refresh_or_activate, handle_refresh, handle_some, on_connection_state,
}

pub if_Keeps : (b : Bool) (s t u : Session) → Keeps s t → Keeps s u → Keeps s (if b then t else u)
if_Keeps true s t u f g = f
if_Keeps false s t u f g = g

error_in-Keeps : (k : Kind) (e : SyncError) (s : Session) → Keeps s (error_in k e s)
error_in-Keeps dying e s = if_Keeps e.is_fatal s _ s (moved inactive s) (Keeps-refl s)
error_in-Keeps _ e s = Keeps-refl s

-- The callbacks that are moved aside wait again afterwards.
resync-Keeps : (s : Session) → Keeps s (resync s)
unfolding resync
resync-Keeps s =
    let aside : Session = record s { force_client_resync = true; callbacks = [] } in
    let off : Session = advance_state inactive aside in
    let on : Session = record off { callbacks = s.callbacks } in
    let a = advance_state-Keeps inactive aside in
    let r = revive_if_needed-Keeps on in
    let c = advance_state-callbacks aside in
    (λ h. r.0 a.0, λ k. ground (arith, r.1 k, a.1 k, ap (waiting k) c))

report-Keeps : (e : SyncError) (s : Session) → Keeps s (report e s)
report-Keeps e s =
    if_Keeps s.config.has_error_handler s _ s ((λ h. h), (λ k. omega arith)) (Keeps-refl s)

stop-Keeps : (e : SyncError) (s : Session) → Keeps s (stop e s)
stop-Keeps e s =
    let t : Session =
      if is_client_reset_requested e.error_code
      then cancel_pending_waits (some e.error_code) s
      else s in
    Keeps-trans s t (advance_state inactive t)
      (if_Keeps (is_client_reset_requested e.error_code) s _ s
        (cancel_pending_waits-Keeps (some e.error_code) s) (Keeps-refl s))
      (moved inactive t)

next_state-Keeps : (n : NextState) (e : SyncError) (s : Session) → Keeps s (next_state n e s)
next_state-Keeps stay e s =
    if_Keeps s.config.cancel_waits_on_nonfatal_error s _ s
      (cancel_pending_waits-Keeps (some e.error_code) s) (Keeps-refl s)
next_state-Keeps go_inactive e s = stop-Keeps e s
next_state-Keeps fail e s = cancel_pending_waits-Keeps (some e.error_code) s

reported-Keeps :
    (n : NextState) (e : SyncError) (s : Session) → Keeps s (report e (next_state n e s))
reported-Keeps n e s =
    Keeps-trans s (next_state n e s) (report e (next_state n e s)) (next_state-Keeps n e s)
      (report-Keeps e (next_state n e s))

finish_in-Keeps :
    (k : Kind) (n : NextState) (e : SyncError) (s : Session) → Keeps s (finish_in k n e s)
finish_in-Keeps inactive n e s = Keeps-refl s
finish_in-Keeps _ n e s = reported-Keeps n e s

finish-Keeps : (n : NextState) (e : SyncError) (s : Session) → Keeps s (finish n e s)
unfolding finish
finish-Keeps n e s = finish_in-Keeps s.state n e s

-- A result that keeps what it is about, if there is one.
abbrev pub KeepsSome : Session → Option Session → Type 0
KeepsSome s none = Unit {0}
KeepsSome s (some t) = Keeps s t

react-Keeps : (r : Reaction) (e : SyncError) (s : Session) → KeepsSome s (react r e s)
react-Keeps ignored e s = Keeps-refl s
react-Keeps token_assertion e s = tt
react-Keeps user_invalid e s =
    let c = cancel_pending_waits-Keeps (some e.error_code) s in
    let t : Session = emit invalidate_user (cancel_pending_waits (some e.error_code) s) in
    Keeps-trans s t (finish stay e t) (c.0, λ k. ground (arith, c.1 k)) (finish-Keeps stay e t)
react-Keeps user_refresh e s = (λ h. h, λ k. omega arith)
react-Keeps (file_unusable b) e s =
    let t : Session = emit (mark_file_for_deletion b) s in
    Keeps-trans s t (finish go_inactive e t) ((λ h. h), (λ k. omega arith))
      (finish-Keeps go_inactive e t)
react-Keeps plain e s = finish-Keeps (by_severity e) e s
react-Keeps unrecognized e s = finish-Keeps (by_severity e) _ s

resync_in-Keeps : (k : Kind) (s : Session) → KeepsSome s (resync_in k s)
resync_in-Keeps inactive s = tt
resync_in-Keeps _ s = resync-Keeps s

resync_or-Keeps :
    (b : Bool) (m : ResyncMode) (s : Session) (o : Option Session)
    → KeepsSome s o
    → KeepsSome s (resync_or b m s o)
resync_or-Keeps true recover s o h = resync_in-Keeps s.state s
resync_or-Keeps true discard_local s o h = resync_in-Keeps s.state s
resync_or-Keeps true manual s o h = h
resync_or-Keeps false m s o h = h

KeepsSome-trans : (s t : Session) (o : Option Session) → Keeps s t → KeepsSome t o → KeepsSome s o
KeepsSome-trans s t none f g = tt
KeepsSome-trans s t (some u) f g = Keeps-trans s t u f g

-- Whatever the error, no callback that waits is lost or called twice, and the session is settled.
pub handle_error-Keeps : (e : SyncError) (s : Session) → KeepsSome s (handle_error e s)
unfolding handle_error
handle_error-Keeps e s =
    let t = error_in s.state e s in
    KeepsSome-trans s t _ (error_in-Keeps s.state e s) (
      resync_or-Keeps (is_client_reset_requested e.error_code) t.config.client_resync_mode t _
        (react-Keeps (reaction e.error_code) e t))

refresh_or_activate-Keeps : (s : Session) → Keeps s (refresh_or_activate s)
refresh_or_activate-Keeps s =
    if_Keeps s.attached s _ _ ((λ h. h), (λ k. omega arith)) (moved active s)

pub handle_refresh-Keeps :
    (user : Option Bool) (code : Option ErrorCode) (s : Session)
    → Keeps s (handle_refresh user code s)
unfolding handle_refresh
handle_refresh-Keeps none code s = cancel_pending_waits-Keeps code s
handle_refresh-Keeps (some true) code s =
    let t : Session = cancel_pending_waits code s in
    Keeps-trans s t (report expired_error t) (cancel_pending_waits-Keeps code s)
      (report-Keeps expired_error t)
handle_refresh-Keeps (some false) (some code) s = (λ h. h, λ k. omega arith)
handle_refresh-Keeps (some false) none s = refresh_or_activate-Keeps s

handle_some-Keeps : (o : Option SyncError) (s : Session) → KeepsSome s (handle_some o s)
handle_some-Keeps none s = Keeps-refl s
handle_some-Keeps (some e) s = handle_error-Keeps e s

pub on_connection_state-Keeps :
    (state : ConnectionState) (error : Option SyncError) (s : Session)
    → KeepsSome s (on_connection_state state error s)
unfolding on_connection_state
on_connection_state-Keeps state error s =
    let t : Session =
      emit (connection_changed s.connection state) (record s { connection = state }) in
    KeepsSome-trans s t (handle_some error t) ((λ h. h), (λ k. omega arith))
      (handle_some-Keeps error t)
