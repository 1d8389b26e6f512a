-- ===== src/Session/Progress/Open.antt =====
-- Which packages stay registered with the progress notifier.
use realm_object_store.Base.{
  ℕ, ◌+◌, ◌<◌, Bool, true, false, not, ◌&&◌, List, [], ◌∷◌, ◌++◌, Option, none, some, ltb, leb,
  ◌==◌, ◌≡◌, refl, arith, if_intro,
}
use realm_object_store.Session.Progress.{
  Progress, Package, Call, Invocation, transferred_of, transferrable_of, invocation, without_call,
  capture, invoke_captured, create_invocation, Notifier, packages_after, invoke_all, update,
  set_local_version, erase_token, unregister_callback, register_package, register_callback,
}

abbrev Unfinished : Option ℕ → ℕ → Type 0
Unfinished none transferred = Unit {0}
Unfinished (some n) transferred = transferred < n

-- A package that has more to tell: it streams, or has no goal yet, or less is transferred than its goal.
abbrev pub IsOpen : Progress → Package → Type 0
IsOpen now p = p.is_streaming ≡ false → Unfinished p.captured_transferrable (transferred_of p now)

abbrev pub AllOpen : Progress → List (ℕ × Package) → Type 0
AllOpen now [] = Unit {0}
AllOpen now ((t, p) ∷ ps) = IsOpen now p × AllOpen now ps

abbrev OpenBy : Option Progress → List (ℕ × Package) → Type 0
OpenBy none ps = Unit {0}
OpenBy (some now) ps = AllOpen now ps

-- All packages of the notifier are open by the latest progress.
abbrev pub IsCurrent : Notifier → Type 0
IsCurrent n = OpenBy n.current_progress n.packages

-- What an invocation leaves registered is open.
abbrev Leaves : Progress → Invocation → Type 0
Leaves now i = i.is_expired ≡ false → IsOpen now i.subject

not_expired :
    (streaming : Bool) (n transferred : ℕ)
    → streaming ≡ false
    → not streaming && leb n transferred ≡ false
    → transferred < n
not_expired streaming n transferred s h = ground arith

invocation-Leaves :
    (p : Package) (now : Progress) (n : ℕ)
    → p.captured_transferrable ≡ some n
    → Leaves now (invocation p now n)
invocation-Leaves p now n e h s = rw e (not_expired p.is_streaming n (transferred_of p now) s h)

streaming-Leaves :
    (p : Package) (now : Progress) (n : ℕ) → p.is_streaming ≡ true → Leaves now (invocation p now n)
streaming-Leaves p now n e h s = cc

invoke_captured-Leaves :
    (c : Option ℕ) (p : Package) (now : Progress)
    → p.captured_transferrable ≡ c
    → Leaves now (invoke_captured c p now)
invoke_captured-Leaves (some n) p now e = invocation-Leaves p now n e
invoke_captured-Leaves none p now e =
    if_intro (Leaves now) (not p.is_download && ltb now.snapshot_version p.snapshot_version)
      (without_call p) (capture p now) (λ b h s. rw e tt)
      (λ b.
        invocation-Leaves (record p { captured_transferrable = some (transferrable_of p now) }) now
          (transferrable_of p now) refl)

create_invocation-IsOpen : (p : Package) (now : Progress) → Leaves now (create_invocation p now)
unfolding create_invocation
create_invocation-IsOpen p now =
    if_intro (Leaves now) p.is_streaming _ _
      (λ e. streaming-Leaves p now (transferrable_of p now) e)
      (λ e. invoke_captured-Leaves p.captured_transferrable p now refl)

packages_after-AllOpen :
    (now : Progress) (t : ℕ) (i : Invocation) (ps : List (ℕ × Package))
    → (i.is_expired ≡ false → IsOpen now i.subject)
    → AllOpen now ps
    → AllOpen now (packages_after t i ps)
packages_after-AllOpen now t i ps f h =
    if_intro (AllOpen now) i.is_expired ps ((t, i.subject) ∷ ps) (λ e. h) (λ e. (f e, h))

invoke_all-AllOpen : (ps : List (ℕ × Package)) (now : Progress) → AllOpen now (invoke_all ps now).0
unfolding invoke_all
invoke_all-AllOpen [] now = tt
invoke_all-AllOpen ((t, p) ∷ ps) now =
    packages_after-AllOpen now t (create_invocation p now) (invoke_all ps now).0
      (create_invocation-IsOpen p now) (invoke_all-AllOpen ps now)

update-IsCurrent :
    (version : ℕ) (now : Progress) (n : Notifier) → IsCurrent n → IsCurrent (update version now n).0
unfolding update
update-IsCurrent version now n h =
    if_intro (λ (r : Notifier × List Call). IsCurrent r.0) (version == 0) _ _ (λ e. h)
      (λ e. invoke_all-AllOpen n.packages now)

erase_token-AllOpen :
    (now : Progress) (t : ℕ) (ps : List (ℕ × Package))
    → AllOpen now ps
    → AllOpen now (erase_token t ps)
erase_token-AllOpen now t [] h = tt
erase_token-AllOpen now t ((u, p) ∷ ps) h =
    if_intro (AllOpen now) (u == t) _ _ (λ e. erase_token-AllOpen now t ps h.1)
      (λ e. (h.0, erase_token-AllOpen now t ps h.1))

erase_token-OpenBy :
    (o : Option Progress) (t : ℕ) (ps : List (ℕ × Package))
    → OpenBy o ps
    → OpenBy o (erase_token t ps)
erase_token-OpenBy none t ps h = tt
erase_token-OpenBy (some now) t ps h = erase_token-AllOpen now t ps h

AllOpen-++ :
    (now : Progress) (ps : List (ℕ × Package)) (t : ℕ) (p : Package)
    → AllOpen now ps
    → IsOpen now p
    → AllOpen now (ps ++ (t, p) ∷ [])
AllOpen-++ now [] t p h k = (k, tt)
AllOpen-++ now ((u, q) ∷ ps) t p h k = (h.0, AllOpen-++ now ps t p h.1 k)

register_package-IsCurrent :
    (o : Option Progress) (t : ℕ) (p : Package) (n : Notifier)
    → n.current_progress ≡ o
    → OpenBy o n.packages
    → IsCurrent (register_package o t p n).1
register_package-IsCurrent none t p n e h = rw e tt
register_package-IsCurrent (some now) t p n e h =
    if_intro (λ (r : ℕ × Notifier × Option Call). IsCurrent r.1)
      (create_invocation p now).is_expired _ _ (λ x. rw e h)
      (λ x. rw e (
        AllOpen-++ now n.packages t (create_invocation p now).subject h
          (create_invocation-IsOpen p now x)))

-- The calls of the notifier.
pub data Use : Type 0 where
  registered : ℕ → Bool → Bool → Use
  unregistered localised : ℕ → Use
  updated : ℕ → Progress → Use

unfoldable pub use_once : Use → Notifier → Notifier
use_once (registered notifier is_download is_streaming) n =
    (register_callback notifier is_download is_streaming n).1
use_once (unregistered token) n = unregister_callback token n
use_once (localised version) n = set_local_version version n
use_once (updated version now) n = (update version now n).0

unfoldable pub use_all : List Use → Notifier → Notifier
unfolding use_once
use_all [] n = n
use_all (u ∷ us) n = use_all us (use_once u n)

use_once-IsCurrent : (u : Use) (n : Notifier) → IsCurrent n → IsCurrent (use_once u n)
unfolding use_once register_callback unregister_callback set_local_version
use_once-IsCurrent (registered notifier is_download is_streaming) n h =
    register_package-IsCurrent n.current_progress n.token _ (record n { token = n.token + 1 }) refl
      h
use_once-IsCurrent (unregistered token) n h =
    erase_token-OpenBy n.current_progress token n.packages h
use_once-IsCurrent (localised version) n h = h
use_once-IsCurrent (updated version now) n h = update-IsCurrent version now n h

-- Whatever is registered, unregistered and reported, each package that is still registered streams,
-- or has no goal yet, or its goal is more than what the latest progress has as transferred.
pub use_all-IsCurrent : (us : List Use) (n : Notifier) → IsCurrent n → IsCurrent (use_all us n)
unfolding use_all
use_all-IsCurrent [] n h = h
use_all-IsCurrent (u ∷ us) n h = use_all-IsCurrent us (use_once u n) (use_once-IsCurrent u n h)
