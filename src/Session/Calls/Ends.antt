-- ===== src/Session/Calls/Ends.antt =====
-- In which state the calls leave a session that are to stop it, to revive it or to configure it anew.
use realm_object_store.Base.{◌≡◌, refl}
use realm_object_store.Session.Data.{Kind, active, dying, inactive, Session}
use realm_object_store.Session.State.{advance_state}
use realm_object_store.Session.State.Kept.{is_live, IsSettled, enter_active_lem, enter_inactive_lem}
use realm_object_store.Session.Calls.{
  revive_in, revive_if_needed, log_out_in, log_out, shutdown_and_wait,
}

-- A session in a state, which has a client session exactly if the state is live.
abbrev pub IsIn : Kind → Session → Type 0
IsIn k s = (s.state ≡ k) × (s.attached ≡ is_live k)

pub advance_state-active : (s : Session) → IsIn active (advance_state active s)
unfolding advance_state
advance_state-active s = let l = enter_active_lem (record s { state = active }) in (l.0, l.1)

pub advance_state-inactive : (s : Session) → IsIn inactive (advance_state inactive s)
unfolding advance_state
advance_state-inactive s = let l = enter_inactive_lem (record s { state = inactive }) in (l.0, l.1)

log_out_in-IsIn : (k : Kind) (s : Session) → IsIn k s → IsIn inactive (log_out_in k s)
log_out_in-IsIn active s h = advance_state-inactive s
log_out_in-IsIn dying s h = advance_state-inactive s
log_out_in-IsIn inactive s h = h

-- When `shutdown_and_wait` or `log_out` returns the session is inactive and its client session gone.
pub shutdown_and_wait-IsIn :
    (s : Session) → IsSettled s → IsIn inactive (shutdown_and_wait s) × IsIn inactive (log_out s)
unfolding shutdown_and_wait log_out
shutdown_and_wait-IsIn s h = let l = log_out_in-IsIn s.state s (refl, h) in (l, l)

revive_in-IsIn : (k : Kind) (s : Session) → IsIn k s → IsIn active (revive_in k s)
revive_in-IsIn active s h = h
revive_in-IsIn dying s h = advance_state-active s
revive_in-IsIn inactive s h = advance_state-active s

-- After `revive_if_needed` the session is active and has a client session.
pub revive_if_needed-IsIn : (s : Session) → IsSettled s → IsIn active (revive_if_needed s)
unfolding revive_if_needed
revive_if_needed-IsIn s h = revive_in-IsIn s.state s (refl, h)

-- On a session that has a client session exactly if its state is active or dying,
-- `revive_if_needed` leaves an active session with a client session, and `shutdown_and_wait` and
-- `log_out` an inactive one whose client session is gone.
pub revive_if_needed-shutdown_and_wait :
    (s : Session)
    → IsSettled s
    → IsIn active (revive_if_needed s)
      × IsIn inactive (shutdown_and_wait s)
      × IsIn inactive (log_out s)
revive_if_needed-shutdown_and_wait s h =
    let (a, b) = shutdown_and_wait-IsIn s h in (revive_if_needed-IsIn s h, a, b)
