-- ===== src/Session/Calls/Kept.antt =====
-- What each call of a session keeps.
use realm_object_store.Base.{
  ℕ, ◌+◌, Bool, true, false, List, [], ◌∷◌, Option, none, some, ◌==◌, ◌≡◌, refl, arith, if_intro,
}
use realm_object_store.Session.Data.{
  Kind, active, dying, inactive, StopPolicy, immediately, live_indefinitely, after_changes_uploaded,
  Wait, Session, ErrorCode,
}
use realm_object_store.Session.State.{advance_state}
use realm_object_store.Session.State.Kept.{one_if, waiting, Keeps, Keeps-refl, advance_state-Keeps}
use realm_object_store.Session.Calls.{
  revive_in, revive_if_needed, log_out_in, log_out, shutdown_and_wait, close_active, close_in,
  close, did_drop_external_reference, reconnect_in, handle_reconnect, notify_in,
  nonsync_transact_notify, extract, call_found, on_completion, upload_done_in,
  on_upload_before_death,
}

pub moved : (to : Kind) (s : Session) → Keeps s (advance_state to s)
moved to s = let a = advance_state-Keeps to s in (λ h. a.0, a.1)

revive_in-Keeps : (k : Kind) (s : Session) → Keeps s (revive_in k s)
revive_in-Keeps active s = Keeps-refl s
revive_in-Keeps dying s = moved active s
revive_in-Keeps inactive s = moved active s

pub revive_if_needed-Keeps : (s : Session) → Keeps s (revive_if_needed s)
unfolding revive_if_needed
revive_if_needed-Keeps s = revive_in-Keeps s.state s

log_out_in-Keeps : (k : Kind) (s : Session) → Keeps s (log_out_in k s)
log_out_in-Keeps active s = moved inactive s
log_out_in-Keeps dying s = moved inactive s
log_out_in-Keeps inactive s = Keeps-refl s

pub log_out-Keeps : (s : Session) → Keeps s (log_out s)
unfolding log_out
log_out-Keeps s = log_out_in-Keeps s.state s

pub shutdown_and_wait-Keeps : (s : Session) → Keeps s (shutdown_and_wait s)
unfolding shutdown_and_wait
shutdown_and_wait-Keeps s = let l = log_out_in-Keeps s.state s in (l.0, λ k. ground (arith, l.1 k))

close_active-Keeps : (p : StopPolicy) (s : Session) → Keeps s (close_active p s)
close_active-Keeps immediately s = moved inactive s
close_active-Keeps live_indefinitely s = Keeps-refl s
close_active-Keeps after_changes_uploaded s = moved dying s

close_in-Keeps : (k : Kind) (s : Session) → Keeps s (close_in k s)
close_in-Keeps active s = close_active-Keeps s.config.stop_policy s
close_in-Keeps dying s = Keeps-refl s
close_in-Keeps inactive s = (λ h. h, λ k. omega arith)

pub close-Keeps : (s : Session) → Keeps s (close s)
unfolding close
close-Keeps s = close_in-Keeps s.state s

pub did_drop_external_reference-Keeps :
    (revived : Bool) (s : Session) → Keeps s (did_drop_external_reference revived s)
unfolding did_drop_external_reference
did_drop_external_reference-Keeps true s = Keeps-refl s
did_drop_external_reference-Keeps false s = close-Keeps s

reconnect_in-Keeps : (k : Kind) (s : Session) → Keeps s (reconnect_in k s)
reconnect_in-Keeps active s = (λ h. h, λ k. omega arith)
reconnect_in-Keeps _ s = Keeps-refl s

pub handle_reconnect-Keeps : (s : Session) → Keeps s (handle_reconnect s)
unfolding handle_reconnect
handle_reconnect-Keeps s = reconnect_in-Keeps s.state s

notify_in-Keeps : (k : Kind) (version : ℕ) (s : Session) → Keeps s (notify_in k version s)
notify_in-Keeps active version s = (λ h. h, λ k. omega arith)
notify_in-Keeps _ version s = Keeps-refl s

pub nonsync_transact_notify-Keeps :
    (version : ℕ) (s : Session) → Keeps s (nonsync_transact_notify version s)
unfolding nonsync_transact_notify
nonsync_transact_notify-Keeps version s = notify_in-Keeps s.state version s

abbrev found_count : ℕ → Option Wait → ℕ
found_count k none = 0
found_count k (some w) = one_if (w.callback == k)

waiting-extract :
    (k id : ℕ) (ws : List Wait)
    → found_count k (extract id ws).0 + waiting k (extract id ws).1 ≡ waiting k ws
unfolding extract
waiting-extract k id [] = refl
waiting-extract k id (w ∷ ws) =
    if_intro
      (λ (r : Option Wait × List Wait).
        found_count k r.0 + waiting k r.1 ≡ one_if (w.callback == k) + waiting k ws)
      (w.id == id) _ _ (λ e. refl) (λ e. ground (arith, waiting-extract k id ws))

call_found-Keeps :
    (r : Option Wait × List Wait) (code : Option ErrorCode) (s : Session)
    → ((k : ℕ) → found_count k r.0 + waiting k r.1 ≡ waiting k s.callbacks)
    → Keeps s (call_found r code s)
call_found-Keeps (none, ws) code s h = (λ e. e, λ k. ground (arith, h k))
call_found-Keeps (some w, ws) code s h = (λ e. e, λ k. ground (arith, h k))

pub on_completion-Keeps :
    (id : ℕ) (code : Option ErrorCode) (s : Session) → Keeps s (on_completion id code s)
unfolding on_completion
on_completion-Keeps id code s =
    call_found-Keeps (extract id s.callbacks) code s (λ k. waiting-extract k id s.callbacks)

upload_done_in-Keeps : (k : Kind) (b : Bool) (s : Session) → Keeps s (upload_done_in k b s)
upload_done_in-Keeps dying true s = moved inactive s
upload_done_in-Keeps dying false s = Keeps-refl s
upload_done_in-Keeps active b s = Keeps-refl s
upload_done_in-Keeps inactive b s = Keeps-refl s

pub on_upload_before_death-Keeps :
    (count : ℕ) (s : Session) → Keeps s (on_upload_before_death count s)
unfolding on_upload_before_death
on_upload_before_death-Keeps count s = upload_done_in-Keeps s.state (s.death_count == count) s
