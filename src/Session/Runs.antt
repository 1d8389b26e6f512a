-- ===== src/Session/Runs.antt =====
-- Sequences of the calls of a session, of the client's callbacks and of those of other threads.
use realm_object_store.Base.{
  ℕ, ◌+◌, Bool, List, [], ◌∷◌, Option, none, some, ◌==◌, ◌≡◌, refl, sym, ap, subst, ◌∙◌, arith,
}
use realm_object_store.Session.Data.{
  ConnectionState, Config, SyncError, Direction, upload, download, Session, initial, ErrorCode,
}
use realm_object_store.Session.State.{add_completion_callback}
use realm_object_store.Session.State.Kept.{
  is_live, IsSettled, one_if, calls, waiting, tally, Keeps, add_completion_callback_lem,
}
use realm_object_store.Session.Calls.{
  revive_if_needed, log_out, shutdown_and_wait, close, did_drop_external_reference,
  handle_reconnect, nonsync_transact_notify, wait_for_upload, wait_for_download, on_completion,
  on_upload_before_death, update_configuration,
}
use realm_object_store.Session.Calls.Kept.{
  revive_if_needed-Keeps, log_out-Keeps, shutdown_and_wait-Keeps, close-Keeps,
  did_drop_external_reference-Keeps, handle_reconnect-Keeps, nonsync_transact_notify-Keeps,
  on_completion-Keeps, on_upload_before_death-Keeps,
}
use realm_object_store.Session.Calls.Configuring.{undisturbed, undisturbed_lem}
use realm_object_store.Session.Errors.{handle_refresh, on_connection_state}
use realm_object_store.Session.Errors.Kept.{
  KeepsSome, handle_refresh-Keeps, on_connection_state-Keeps,
}

pub data Event : Type 0 where
  revived logged_out shut_down closed reconnected : Event
  reference_dropped : Bool → Event
  transacted upload_wanted download_wanted upload_done : ℕ → Event
  completed : ℕ → Option ErrorCode → Event
  configured : Config → Event
  refreshed : Option Bool → Option ErrorCode → Event
  connection_reported : ConnectionState → Option SyncError → Event

unfoldable pub step : Event → Session → Option Session
step revived s = some (revive_if_needed s)
step logged_out s = some (log_out s)
step shut_down s = some (shutdown_and_wait s)
step closed s = some (close s)
step reconnected s = some (handle_reconnect s)
step (reference_dropped b) s = some (did_drop_external_reference b s)
step (transacted n) s = some (nonsync_transact_notify n s)
step (upload_wanted c) s = some (wait_for_upload c s)
step (download_wanted c) s = some (wait_for_download c s)
step (upload_done n) s = some (on_upload_before_death n s)
step (completed id code) s = some (on_completion id code s)
step (configured config) s = update_configuration undisturbed 2 config s
step (refreshed user code) s = some (handle_refresh user code s)
step (connection_reported state error) s = on_connection_state state error s

-- How often an event asks for a callback.
abbrev wanted : ℕ → Event → ℕ
wanted k (upload_wanted c) = one_if (c == k)
wanted k (download_wanted c) = one_if (c == k)
wanted k e = 0

-- What is so after an event that has a result.
abbrev After : (ℕ → ℕ) → Session → Option Session → Type 0
After n s none = Unit {0}
After n s (some t) = IsSettled t × ((k : ℕ) → tally k t ≡ n k + tally k s)

Keeps-After :
    (s t : Session) → IsSettled s → Keeps s t → IsSettled t × ((k : ℕ) → tally k t ≡ 0 + tally k s)
Keeps-After s t h f = (f.0 h, λ k. ground (arith, f.1 k))

KeepsSome-After :
    (s : Session) (o : Option Session) → IsSettled s → KeepsSome s o → After (λ k. 0) s o
KeepsSome-After s none h f = tt
KeepsSome-After s (some t) h f = Keeps-After s t h f

adds :
    (c : ℕ) (d : Direction) (s t : Session)
    → IsSettled s
    → (t.state ≡ s.state)
      × (t.attached ≡ s.attached)
      × ((k : ℕ) → tally k t ≡ one_if (c == k) + tally k s)
    → IsSettled t × ((k : ℕ) → tally k t ≡ one_if (c == k) + tally k s)
adds c d s t h f = (f.1 ∙ h ∙ sym (ap is_live f.0), f.2)

configured-After :
    (config : Config) (s : Session)
    → IsSettled s
    → After (λ k. 0) s (update_configuration undisturbed 2 config s)
configured-After config s h =
    let (t, e, i, k) = undisturbed_lem config s h in
    subst (After (λ n. 0) s) (sym e) (i.1 ∙ sym (ap is_live i.0), λ n. ground (arith, k n))

step-After : (e : Event) (s : Session) → IsSettled s → After (λ k. wanted k e) s (step e s)
unfolding step wait_for_upload wait_for_download
step-After revived s h = Keeps-After s (revive_if_needed s) h (revive_if_needed-Keeps s)
step-After logged_out s h = Keeps-After s (log_out s) h (log_out-Keeps s)
step-After shut_down s h = Keeps-After s (shutdown_and_wait s) h (shutdown_and_wait-Keeps s)
step-After closed s h = Keeps-After s (close s) h (close-Keeps s)
step-After reconnected s h = Keeps-After s (handle_reconnect s) h (handle_reconnect-Keeps s)
step-After (reference_dropped b) s h =
    Keeps-After s (did_drop_external_reference b s) h (did_drop_external_reference-Keeps b s)
step-After (transacted n) s h =
    Keeps-After s (nonsync_transact_notify n s) h (nonsync_transact_notify-Keeps n s)
step-After (upload_wanted c) s h =
    adds c upload s (add_completion_callback c upload s) h (add_completion_callback_lem c upload s)
step-After (download_wanted c) s h =
    adds c download s (add_completion_callback c download s) h
      (add_completion_callback_lem c download s)
step-After (upload_done n) s h =
    Keeps-After s (on_upload_before_death n s) h (on_upload_before_death-Keeps n s)
step-After (completed id code) s h =
    Keeps-After s (on_completion id code s) h (on_completion-Keeps id code s)
step-After (configured config) s h = configured-After config s h
step-After (refreshed user code) s h =
    Keeps-After s (handle_refresh user code s) h (handle_refresh-Keeps user code s)
step-After (connection_reported state error) s h =
    KeepsSome-After s (on_connection_state state error s) h
      (on_connection_state-Keeps state error s)

abbrev then_run : (Session → Option Session) → Option Session → Option Session
then_run f none = none
then_run f (some s) = f s

unfoldable pub run : List Event → Session → Option Session
unfolding step
run [] s = some s
run (e ∷ es) s = then_run (run es) (step e s)

abbrev pub requested : ℕ → List Event → ℕ
requested k [] = 0
requested k (e ∷ es) = wanted k e + requested k es

-- The session of a run that came to an end.
abbrev Accounts : List Event → Session → Session → Type 0
Accounts es s t = IsSettled t × ((k : ℕ) → tally k t ≡ requested k es + tally k s)

then_run-Accounts :
    (e : Event) (es : List Event) (s t : Session) (o : Option Session)
    → After (λ k. wanted k e) s o
    → ((u : Session) → IsSettled u → run es u ≡ some t → Accounts es u t)
    → then_run (run es) o ≡ some t
    → Accounts (e ∷ es) s t
then_run-Accounts e es s t none a f h = cc
then_run-Accounts e es s t (some u) a f h =
    let r = f u a.0 h in (r.0, λ k. ground (arith, r.1 k, a.1 k))

abbrev value : Session → Option Session → Session
value d none = d
value d (some s) = s

run-Accounts : (es : List Event) (s t : Session) → IsSettled s → run es s ≡ some t → Accounts es s t
unfolding run
run-Accounts [] s t g h = subst (Accounts [] s) (ap (value s) h) (g, λ k. omega arith)
run-Accounts (e ∷ es) s t g h =
    then_run-Accounts e es s t (step e s) (step-After e s g) (λ u. run-Accounts es u t) h

-- After any run of a new session there is a client session exactly if the state is active or dying,
-- and each callback was called or waits as often, both together, as it was asked for.
pub run-IsSettled :
    (es : List Event) (config : Config) (force : Bool) (t : Session)
    → run es (initial config force) ≡ some t
    → IsSettled t × ((k : ℕ) → calls k t.outputs + waiting k t.callbacks ≡ requested k es)
run-IsSettled es config force t h =
    let r = run-Accounts es (initial config force) t refl h in (r.0, λ k. ground (arith, r.1 k))
