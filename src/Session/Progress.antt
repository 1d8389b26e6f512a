-- ===== src/Session/Progress.antt =====
-- `SyncProgressNotifier` of src/sync/sync_session.cpp: callbacks that are told of bytes transferred.
pub mod Open
use realm_object_store.Base.{
  ℕ, ◌+◌, Bool, true, false, not, ◌&&◌, List, [], ◌∷◌, ◌++◌, Option, none, some, ltb, leb, ◌==◌,
  if◌then◌else◌, ◌≡◌, refl, arith, if_intro,
}

-- `Progress`
pub record Progress : Type 0 where
  pub uploadable : ℕ
  pub downloadable : ℕ
  pub uploaded : ℕ
  pub downloaded : ℕ
  pub snapshot_version : ℕ

-- `NotifierPackage`; notifiers are named by numbers.
pub record Package : Type 0 where
  pub notifier : ℕ
  pub captured_transferrable : Option ℕ
  pub snapshot_version : ℕ
  pub is_streaming : Bool
  pub is_download : Bool

-- `notifier(transferred, transferrable)`
pub record Call : Type 0 where
  pub notifier : ℕ
  pub transferred : ℕ
  pub transferrable : ℕ

-- The package afterwards, the call to make, if there is one, and whether the package is expired.
pub record Invocation : Type 0 where
  pub subject : Package
  pub call : Option Call
  pub is_expired : Bool

abbrev pub transferred_of : Package → Progress → ℕ
transferred_of p now = if p.is_download then now.downloaded else now.uploaded

abbrev pub transferrable_of : Package → Progress → ℕ
transferrable_of p now = if p.is_download then now.downloadable else now.uploadable

abbrev invocation : Package → Progress → ℕ → Invocation
invocation p now transferrable = record {
  subject = p;
  call = some (record {
    notifier = p.notifier;
    transferred = transferred_of p now;
    transferrable = transferrable;
  });
  is_expired = not p.is_streaming && leb transferrable (transferred_of p now);
}

abbrev without_call : Package → Invocation
without_call p = record { subject = p; call = none; is_expired = false }

abbrev capture : Package → Progress → Invocation
capture p now =
    invocation (record p { captured_transferrable = some (transferrable_of p now) }) now
      (transferrable_of p now)

abbrev invoke_captured : Option ℕ → Package → Progress → Invocation
invoke_captured (some n) p now = invocation p now n
invoke_captured none p now =
    if not p.is_download && ltb now.snapshot_version p.snapshot_version
    then without_call p
    else capture p now

-- `create_invocation`
unfoldable pub create_invocation : Package → Progress → Invocation
create_invocation p now =
    if p.is_streaming
    then invocation p now (transferrable_of p now)
    else invoke_captured p.captured_transferrable p now

-- `SyncProgressNotifier`; the packages stand in the order of their tokens, where the
-- map of the source has no order.
pub record Notifier : Type 0 where
  pub packages : List (ℕ × Package)
  pub current_progress : Option Progress
  pub local_version : ℕ
  pub token : ℕ

abbrev packages_after : ℕ → Invocation → List (ℕ × Package) → List (ℕ × Package)
packages_after token i rest = if i.is_expired then rest else (token, i.subject) ∷ rest

abbrev calls_before : Option Call → List Call → List Call
calls_before none cs = cs
calls_before (some c) cs = c ∷ cs

-- The loop of `update`.
unfoldable pub invoke_all : List (ℕ × Package) → Progress → List (ℕ × Package) × List Call
unfolding create_invocation
invoke_all [] now = ([], [])
invoke_all ((token, p) ∷ ps) now =
    let i = create_invocation p now in
    let (packages, calls) = invoke_all ps now in
    (packages_after token i packages, calls_before i.call calls)

-- `update`
unfoldable pub update : ℕ → Progress → Notifier → Notifier × List Call
unfolding invoke_all
update download_version now n =
    let (packages, calls) = invoke_all n.packages now in
    if download_version == 0
    then (n, [])
    else (record n { packages = packages; current_progress = some now }, calls)

-- `set_local_version`
unfoldable pub set_local_version : ℕ → Notifier → Notifier
set_local_version version n = record n { local_version = version }

abbrev erase_token : ℕ → List (ℕ × Package) → List (ℕ × Package)
erase_token token [] = []
erase_token token ((t, p) ∷ ps) =
    let rest = erase_token token ps in if t == token then rest else (t, p) ∷ rest

-- `unregister_callback`
unfoldable pub unregister_callback : ℕ → Notifier → Notifier
unregister_callback token n = record n { packages = erase_token token n.packages }

-- The end of `register_callback`: the token, the notifier and the call.
abbrev register_invoked : ℕ → Invocation → Notifier → ℕ × Notifier × Option Call
register_invoked token i n =
    if i.is_expired
    then (0, n, i.call)
    else (token, record n { packages = n.packages ++ (token, i.subject) ∷ [] }, i.call)

abbrev register_package : Option Progress → ℕ → Package → Notifier → ℕ × Notifier × Option Call
register_package none token p n =
    (token, record n { packages = n.packages ++ (token, p) ∷ [] }, none)
register_package (some now) token p n = register_invoked token (create_invocation p now) n

-- `register_callback`
unfoldable pub register_callback : ℕ → Bool → Bool → Notifier → ℕ × Notifier × Option Call
unfolding create_invocation
register_callback notifier is_download is_streaming n =
    register_package n.current_progress n.token
      (record {
        notifier = notifier;
        captured_transferrable = none;
        snapshot_version = n.local_version;
        is_streaming = is_streaming;
        is_download = is_download;
      })
      (record n { token = n.token + 1 })
