-- ===== src/Session/State/Kept.antt =====
-- What a change of state keeps: whether there is a client session, and that each callback that waits
-- is called once.
use realm_object_store.Base.{
  ℕ, ◌+◌, Bool, true, false, List, [], ◌∷◌, ◌++◌, Option, some, ◌==◌, if◌then◌else◌, ◌≡◌, refl, sym,
  ap, ◌∙◌, arith, if_intro,
}
use realm_object_store.Session.Data.{
  Kind, active, dying, inactive, ConnectionState, disconnected, connecting, connected, Direction,
  Wait, Output, called, Session, emit, ErrorCode, operation_aborted,
}
use realm_object_store.Session.State.{
  call_all, cancel_pending_waits, register, add_completion_callback, add_again, create_sync_session,
  attach, enter_active, unregister, notify_disconnected, enter_inactive, enter_dying, advance_state,
}

abbrev pub is_live : Kind → Bool
is_live inactive = false
is_live _ = true

-- There is a client session in the states active and dying, and none in the state inactive.
abbrev pub IsSettled : Session → Type 0
IsSettled s = s.attached ≡ is_live s.state

abbrev pub one_if : Bool → ℕ
one_if b = if b then 1 else 0

abbrev call_of : ℕ → Output → ℕ
call_of k (called c code) = one_if (c == k)
call_of k o = 0

-- How often a callback was called, and how often it is among those that wait.
abbrev pub calls : ℕ → List Output → ℕ
calls k [] = 0
calls k (o ∷ os) = call_of k o + calls k os

abbrev pub waiting : ℕ → List Wait → ℕ
waiting k [] = 0
waiting k (w ∷ ws) = one_if (w.callback == k) + waiting k ws

abbrev pub tally : ℕ → Session → ℕ
tally k s = calls k s.outputs + waiting k s.callbacks

-- One session after another: it is settled if that was, and no callback is lost or called again.
abbrev pub Keeps : Session → Session → Type 0
Keeps s t = (IsSettled s → IsSettled t) × ((k : ℕ) → tally k t ≡ tally k s)

pub Keeps-refl : (s : Session) → Keeps s s
Keeps-refl s = (λ h. h, λ k. refl)

pub Keeps-trans : (s t u : Session) → Keeps s t → Keeps t u → Keeps s u
Keeps-trans s t u f g = (λ h. g.0 (f.0 h), λ k. g.1 k ∙ f.1 k)

waiting-++ : (k : ℕ) (xs ys : List Wait) → waiting k (xs ++ ys) ≡ waiting k xs + waiting k ys
waiting-++ k [] ys = omega arith
waiting-++ k (w ∷ ws) ys = ground (arith, waiting-++ k ws ys)

-- The calls of a list of callbacks change the outputs only.
call_all_lem :
    (ws : List Wait) (code : Option ErrorCode) (s : Session)
    → ((call_all ws code s).state ≡ s.state)
      × ((call_all ws code s).attached ≡ s.attached)
      × ((call_all ws code s).callbacks ≡ s.callbacks)
      × ((k : ℕ) → calls k (call_all ws code s).outputs ≡ waiting k ws + calls k s.outputs)
unfolding call_all
call_all_lem [] code s = (refl, refl, refl, λ k. omega arith)
call_all_lem (w ∷ ws) code s =
    let ih = call_all_lem ws code (emit (called w.callback code) s) in
    (ih.0, ih.1, ih.2, λ k. ground (arith, ih.3 k))

pub cancel_pending_waits-Keeps :
    (code : Option ErrorCode) (s : Session) → Keeps s (cancel_pending_waits code s)
unfolding cancel_pending_waits
cancel_pending_waits-Keeps code s =
    let t = call_all_lem s.callbacks code (record s { callbacks = [] }) in
    (λ h. t.1 ∙ h ∙ sym (ap is_live t.0), λ k. ground (arith, t.2, t.3 k))

register_lem :
    (st : Kind) (d : Direction) (id : ℕ) (s : Session)
    → ((register st d id s).state ≡ s.state)
      × ((register st d id s).attached ≡ s.attached)
      × ((k : ℕ) → tally k (register st d id s) ≡ tally k s)
register_lem active d id s = (refl, refl, λ k. omega arith)
register_lem dying d id s = (refl, refl, λ k. omega arith)
register_lem inactive d id s = (refl, refl, λ k. refl)

pub add_completion_callback_lem :
    (c : ℕ) (d : Direction) (s : Session)
    → ((add_completion_callback c d s).state ≡ s.state)
      × ((add_completion_callback c d s).attached ≡ s.attached)
      × ((k : ℕ) → tally k (add_completion_callback c d s) ≡ one_if (c == k) + tally k s)
unfolding add_completion_callback
add_completion_callback_lem c d s =
    let w : Wait = record { id = s.counter + 1; direction = d; callback = c } in
    let t : Session = record s { counter = s.counter + 1; callbacks = s.callbacks ++ w ∷ [] } in
    let r = register_lem s.state d (s.counter + 1) t in
    (r.0, r.1, λ k. ground (arith, r.2 k, waiting-++ k s.callbacks (w ∷ [])))

add_again_lem :
    (ws : List Wait) (s : Session)
    → ((add_again ws s).state ≡ s.state)
      × ((add_again ws s).attached ≡ s.attached)
      × ((k : ℕ) → tally k (add_again ws s) ≡ waiting k ws + tally k s)
unfolding add_again
add_again_lem [] s = (refl, refl, λ k. omega arith)
add_again_lem (w ∷ ws) s =
    let a = add_completion_callback_lem w.callback w.direction s in
    let ih = add_again_lem ws (add_completion_callback w.callback w.direction s) in
    (ih.0 ∙ a.0, ih.1 ∙ a.1, λ k. ground (arith, ih.2 k, a.2 k))

attach_lem :
    (s : Session)
    → ((attach s).state ≡ s.state)
      × ((attach s).attached ≡ true)
      × ((k : ℕ) → tally k (attach s) ≡ tally k s)
unfolding create_sync_session
attach_lem s = (ground arith, ground arith, λ k. ground arith)

notify_disconnected_lem :
    (c : ConnectionState) (s : Session)
    → ((notify_disconnected c s).state ≡ s.state)
      × ((notify_disconnected c s).attached ≡ s.attached)
      × ((k : ℕ) → tally k (notify_disconnected c s) ≡ tally k s)
      × ((notify_disconnected c s).callbacks ≡ s.callbacks)
notify_disconnected_lem disconnected s = (refl, refl, λ k. refl, refl)
notify_disconnected_lem connecting s = (refl, refl, λ k. omega arith, refl)
notify_disconnected_lem connected s = (refl, refl, λ k. omega arith, refl)

pub enter_active_lem :
    (s : Session)
    → ((enter_active s).state ≡ s.state)
      × ((enter_active s).attached ≡ true)
      × ((k : ℕ) → tally k (enter_active s) ≡ tally k s)
unfolding enter_active
enter_active_lem s =
    let a = attach_lem s in
    let r = add_again_lem (attach s).callbacks (record (attach s) { callbacks = [] }) in
    (r.0 ∙ a.0, r.1 ∙ a.1, λ k. ground (arith, r.2 k, a.2 k))

pub enter_inactive_lem :
    (s : Session)
    → ((enter_inactive s).state ≡ s.state)
      × ((enter_inactive s).attached ≡ false)
      × ((k : ℕ) → tally k (enter_inactive s) ≡ tally k s)
      × ((enter_inactive s).callbacks ≡ [])
unfolding enter_inactive
enter_inactive_lem s =
    let s1 : Session =
      unregister (record s { connection = disconnected; callbacks = []; attached = false }) in
    let n = notify_disconnected_lem s.connection s1 in
    let c =
      call_all_lem s.callbacks (some operation_aborted) (notify_disconnected s.connection s1) in
    (
      c.0 ∙ n.0,
      c.1 ∙ n.1,
      λ k. ground (arith, c.3 k, ap (waiting k) (c.2 ∙ n.3), n.2 k, ap (waiting k) n.3),
      c.2 ∙ n.3,
    )

dying_cases :
    (s : Session)
    → IsSettled (enter_dying (record s { state = dying }))
      × ((k : ℕ) → tally k (enter_dying (record s { state = dying })) ≡ tally k s)
unfolding enter_dying
dying_cases s =
    let i = enter_inactive_lem (record s { state = inactive }) in
    if_intro (λ t. IsSettled t × ((k : ℕ) → tally k t ≡ tally k s)) s.attached _ _
      (λ e. (e, λ k. omega arith)) (λ e. (i.1 ∙ sym (ap is_live i.0), i.2))

-- Into whatever state, the session is settled then, and no callback is lost or called again.
pub advance_state-Keeps :
    (to : Kind) (s : Session)
    → IsSettled (advance_state to s) × ((k : ℕ) → tally k (advance_state to s) ≡ tally k s)
unfolding advance_state
advance_state-Keeps active s =
    let r = enter_active_lem (record s { state = active }) in (r.1 ∙ sym (ap is_live r.0), r.2)
advance_state-Keeps dying s = dying_cases s
advance_state-Keeps inactive s =
    let r = enter_inactive_lem (record s { state = inactive }) in (r.1 ∙ sym (ap is_live r.0), r.2)

pub advance_state-callbacks : (s : Session) → (advance_state inactive s).callbacks ≡ []
unfolding advance_state
advance_state-callbacks s = (enter_inactive_lem (record s { state = inactive })).3
