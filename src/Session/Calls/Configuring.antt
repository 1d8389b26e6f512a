-- ===== src/Session/Calls/Configuring.antt =====
-- `update_configuration` of `SyncSession`, with what may happen while its loop releases the lock.
use realm_object_store.Base.{ℕ, suc, Option, some, ◌≡◌, refl, sym, ap, ◌∙◌}
use realm_object_store.Session.Data.{Kind, active, inactive, Config, Session}
use realm_object_store.Session.State.{advance_state}
use realm_object_store.Session.State.Kept.{is_live, IsSettled, tally, advance_state-Keeps}
use realm_object_store.Session.Calls.{
  revive_if_needed, set_config, configure_in, switch_off, revive_some, update_configuration,
}
use realm_object_store.Session.Calls.Kept.{revive_if_needed-Keeps}
use realm_object_store.Session.Calls.Ends.{IsIn, advance_state-inactive, revive_if_needed-IsIn}

-- When nothing comes in between.
abbrev pub undisturbed : ℕ → Session → Session
undisturbed n s = s

switch_off_inactive :
    (others : ℕ → Session → Session) (fuel : ℕ) (config : Config) (s : Session)
    → s.state ≡ inactive
    → switch_off others (suc fuel) config s ≡ some (set_config config s)
unfolding switch_off
switch_off_inactive others fuel config s h = rw h refl

-- What the loop ends with: the session with its new configuration, which it was given while inactive.
abbrev Configures : Config → Session → Type 0
Configures config t = IsIn inactive t × (t.config ≡ config)

abbrev Loops : Config → Option Session → Type 0
Loops config r = (t : Session) × (r ≡ some t) × Configures config t

-- With nothing in between two rounds are enough, and no callback that waits is lost or called twice.
pub undisturbed_lem :
    (config : Config) (s : Session)
    → IsSettled s
    → (t : Session) × (update_configuration undisturbed 2 config s ≡ some t)
      × IsIn active t
      × ((k : ℕ) → tally k t ≡ tally k s)
unfolding update_configuration switch_off
undisturbed_lem config s h = go s.state refl
  where
    go :
        (k : Kind)
        → s.state ≡ k
        → (t : Session) × (revive_some
              (configure_in k config (switch_off undisturbed 1 config (advance_state inactive s)) s)
            ≡ some t)
          × IsIn active t
          × ((n : ℕ) → tally n t ≡ tally n s)
    go inactive q =
        let t = set_config config s in
        (revive_if_needed t, refl, revive_if_needed-IsIn t h, (revive_if_needed-Keeps t).1)
    go _ q =
        let off = advance_state inactive s in
        let i = advance_state-inactive s in
        let t = set_config config off in
        (
          revive_if_needed t,
          ap revive_some (switch_off_inactive undisturbed 0 config off i.0),
          revive_if_needed-IsIn t (i.1 ∙ sym (ap is_live i.0)),
          λ n. (revive_if_needed-Keeps t).1 n ∙ (advance_state-Keeps inactive s).1 n,
        )
