-- ===== src/Session/Errors/Stops.antt =====
-- Where an assertion of `handle_error` stops the program.
use realm_object_store.Base.{
  Bool, true, false, ◌≡◌, ◌≢◌, refl, sym, ap, subst, ◌∙◌, Option, none, some, List, [], ◌∷◌, ◌⊎◌,
  inl, inr, ◌↔◌, arith, Bool-cases, if_intro,
}
use realm_object_store.Session.Data.{
  Kind, active, dying, inactive, ConnectionState, disconnected, connecting, connected, ResyncMode,
  recover, discard_local, manual, Wait, Session, SyncError, ErrorCode, protocol, client, unknown,
  operation_aborted, closed_by_client, pong_timeout, client_error, token_expired,
}
use realm_object_store.Session.Data.Codes.{is_client_reset_requested}
use realm_object_store.Session.State.{
  advance_state, enter_inactive, call_all, unregister, notify_disconnected,
}
use realm_object_store.Session.Calls.Ends.{advance_state-inactive}
use realm_object_store.Session.Errors.{
  Reaction, token_assertion, react, reaction, protocol_reaction, error_in, resync_in, resync_or,
  handle_error,
}

token_assertion_lem : (c : ErrorCode) → reaction c ≡ token_assertion → c ≡ protocol token_expired
unfolding reaction protocol_reaction
token_assertion_lem (protocol token_expired) h = refl
token_assertion_lem (protocol _) h = cc
token_assertion_lem (client closed_by_client) h = cc
token_assertion_lem (client pong_timeout) h = cc
token_assertion_lem (client (client_error n)) h = cc
token_assertion_lem operation_aborted h = cc
token_assertion_lem (unknown n) h = ground arith

react-none : (r : Reaction) (e : SyncError) (s : Session) → react r e s ≡ none → r ≡ token_assertion
react-none token_assertion e s h = refl
react-none _ e s h = cc

call_all-config :
    (ws : List Wait) (code : Option ErrorCode) (s : Session)
    → (call_all ws code s).config ≡ s.config
unfolding call_all
call_all-config [] code s = refl
call_all-config (w ∷ ws) code s = call_all-config ws code _

notify_disconnected-config :
    (c : ConnectionState) (s : Session) → (notify_disconnected c s).config ≡ s.config
notify_disconnected-config disconnected s = refl
notify_disconnected-config connecting s = refl
notify_disconnected-config connected s = refl

enter_inactive-config : (s : Session) → (enter_inactive s).config ≡ s.config
unfolding enter_inactive
enter_inactive-config s =
    call_all-config s.callbacks (some operation_aborted) (
      notify_disconnected s.connection
        (unregister (record s { connection = disconnected; callbacks = []; attached = false })))
    ∙ notify_disconnected-config s.connection
        (unregister (record s { connection = disconnected; callbacks = []; attached = false }))

error_in-config : (k : Kind) (e : SyncError) (s : Session) → (error_in k e s).config ≡ s.config
unfolding advance_state
error_in-config dying e s =
    if_intro (λ t. t.config ≡ s.config) e.is_fatal (advance_state inactive s) s
      (λ _. enter_inactive-config (record s { state = inactive })) (λ _. refl)
error_in-config active e s = refl
error_in-config inactive e s = refl

-- The states in which the session is inactive once its state has handled the error.
abbrev pub ends_inactive : Kind → Bool → Bool
ends_inactive active fatal = false
ends_inactive dying fatal = fatal
ends_inactive inactive fatal = true

abbrev is_inactive : Kind → Bool
is_inactive inactive = true
is_inactive _ = false

kind_inactive : (k : Kind) → k ≡ inactive → is_inactive k ≡ true
kind_inactive k h = subst (λ k. is_inactive k ≡ true) (sym h) refl

error_in-state :
    (k : Kind) (e : SyncError) (s : Session)
    → s.state ≡ k
    → is_inactive (error_in k e s).state ≡ ends_inactive k e.is_fatal
error_in-state active e s h = subst (λ k. is_inactive k ≡ false) (sym h) refl
error_in-state inactive e s h = kind_inactive s.state h
error_in-state dying e s h =
    let off = advance_state inactive s in
    elim (Bool-cases e.is_fatal) [
      | inl f ↦ rw f (kind_inactive off.state (advance_state-inactive s).0)
      | inr f ↦ rw f (subst (λ k. is_inactive k ≡ false) (sym h) refl)
    ]

resync_in-none : (k : Kind) (s : Session) → resync_in k s ≡ none → is_inactive k ≡ true
resync_in-none inactive s h = refl
resync_in-none active s h = cc
resync_in-none dying s h = cc

resync_in-stops : (k : Kind) (s : Session) → is_inactive k ≡ true → resync_in k s ≡ none
resync_in-stops inactive s h = refl
resync_in-stops active s h = cc
resync_in-stops dying s h = cc

abbrev Resyncs : Bool → ResyncMode → Session → Type 0
Resyncs b m s = (b ≡ true) × (m ≢ manual) × (is_inactive s.state ≡ true)

resync_or-none :
    (b : Bool) (m : ResyncMode) (s : Session) (other : Option Session)
    → resync_or b m s other ≡ none
    → (other ≡ none) ⊎ Resyncs b m s
resync_or-none true recover s other h = inr (refl, (λ e. cc), resync_in-none s.state s h)
resync_or-none true discard_local s other h = inr (refl, (λ e. cc), resync_in-none s.state s h)
resync_or-none true manual s other h = inl h
resync_or-none false m s other h = inl h

resync_or-stops :
    (b : Bool) (m : ResyncMode) (s : Session) (other : Option Session)
    → Resyncs b m s
    → resync_or b m s other ≡ none
resync_or-stops true recover s other r = resync_in-stops s.state s r.2
resync_or-stops true discard_local s other r = resync_in-stops s.state s r.2
resync_or-stops true manual s other r = absurd (r.1 refl)
resync_or-stops false m s other r = let h : false ≡ true = r.0 in cc

expired_lem :
    (c : ErrorCode)
    → c ≡ protocol token_expired
    → (is_client_reset_requested c ≡ false) × (reaction c ≡ token_assertion)
unfolding is_client_reset_requested reaction protocol_reaction
expired_lem c h =
    subst (λ c. (is_client_reset_requested c ≡ false) × (reaction c ≡ token_assertion)) (sym h)
      (refl, refl)

-- An assertion stops `handle_error`, so that it has no result, exactly for the protocol error
-- token_expired, and for an error that asks for a client reset, where the mode is not manual, on a
-- session that is inactive, or that is dying and for which the error is fatal.
pub handle_error-none :
    (e : SyncError) (s : Session)
    → (handle_error e s ≡ none) ↔ (
        (e.error_code ≡ protocol token_expired)
        ⊎ ((is_client_reset_requested e.error_code ≡ true)
            × (s.config.client_resync_mode ≢ manual)
            × (ends_inactive s.state e.is_fatal ≡ true)))
unfolding handle_error
handle_error-none e s =
    let t = error_in s.state e s in
    let b = is_client_reset_requested e.error_code in
    let other = react (reaction e.error_code) e t in
    let mode : t.config.client_resync_mode ≡ s.config.client_resync_mode =
      ap (λ c. c.client_resync_mode) (error_in-config s.state e s) in
    let state = error_in-state s.state e s refl in
    (
      (λ h. elim (resync_or-none b t.config.client_resync_mode t other h) [
        | inl n ↦ inl (token_assertion_lem e.error_code (react-none (reaction e.error_code) e t n))
        | inr (q, m, i) ↦ inr (q, (λ x. m (mode ∙ x)), sym state ∙ i)
      ]),
      (λ h. elim h [
        | inl x ↦ let (r, a) = expired_lem e.error_code x in rw (r, a) refl
        | inr (q, m, i) ↦
            resync_or-stops b t.config.client_resync_mode t other
              (q, (λ x. m (sym mode ∙ x)), state ∙ i)
      ]),
    )
