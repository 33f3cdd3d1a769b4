-- ===== src/Browser/Session.antt =====
-- `BrowserSession` of browser.rs over any backend.
use local_transfer.Prelude.{
  ℕ, zero, suc, ◌≡◌, refl, ap, ◌∙◌, Bool, true, false, Option, none, some, List, [], ◌∷◌, Result,
  ok, err, if◌then◌else◌,
}
use local_transfer.Browser.Peer.{DiscoveryBrowserError, DiscoveryBrowserEvent}
use local_transfer.Browser.State.{BrowserState, RawBrowserEvent, empty_state, translate}

-- The trait `BrowserBackend`: each call may change the backend.
pub record BrowserBackend (F B : Type 0) : Type 0 where
  pub poll_event : B → Option (RawBrowserEvent F) × B
  pub stop : B → Result (DiscoveryBrowserError F) (Unit {0}) × B
  pub best_effort_stop : B → B

pub record BrowserSession (B : Type 0) : Type 0 where
  pub backend : B
  pub state : BrowserState
  pub active : Bool

-- `Drop`
module _ (F : Type 0) {B : Type 0} ⦃i : BrowserBackend F B⦄ where
  unfoldable pub drop : BrowserSession B → BrowserSession B
  drop s = if s.active then record s { backend = i.best_effort_stop s.backend } else s

abbrev pub nones : {A : Type 0} → ℕ → List (Option A)
nones zero = []
nones (suc n) = none ∷ nones n

module _ {F B : Type 0} where
  abbrev pub start :
      Result (DiscoveryBrowserError F) B → Result (DiscoveryBrowserError F) (BrowserSession B)
  start (err e) = err e
  start (ok backend) = ok (record { backend = backend; state = empty_state; active = true })

module _ {F B : Type 0} ⦃i : BrowserBackend F B⦄ where
  abbrev pub poll_active :
      BrowserState
      → Option (RawBrowserEvent F) × B
      → Option (DiscoveryBrowserEvent F) × BrowserSession B
  poll_active s (none, backend) = (none, record { backend = backend; state = s; active = true })
  poll_active s (some raw, backend) =
      let after = translate s raw in
      (after.0, record { backend = backend; state = after.1; active = true })

  abbrev pub poll_if : Bool → BrowserSession B → Option (DiscoveryBrowserEvent F) × BrowserSession B
  poll_if false s = (none, s)
  poll_if true s = poll_active s.state (i.poll_event s.backend)

  unfoldable pub poll_event : BrowserSession B → Option (DiscoveryBrowserEvent F) × BrowserSession B
  poll_event s = poll_if s.active s

  abbrev pub stop_active :
      BrowserState
      → Result (DiscoveryBrowserError F) (Unit {0}) × B
      → Result (DiscoveryBrowserError F) (Unit {0}) × BrowserSession B
  stop_active s (err e, backend) = (err e, record { backend = backend; state = s; active = true })
  stop_active s (ok u, backend) = (ok tt, record { backend = backend; state = s; active = false })

  abbrev pub stop_if :
      Bool → BrowserSession B → Result (DiscoveryBrowserError F) (Unit {0}) × BrowserSession B
  stop_if false s = (ok tt, s)
  stop_if true s = stop_active s.state (i.stop s.backend)

  unfoldable pub stop :
      BrowserSession B → Result (DiscoveryBrowserError F) (Unit {0}) × BrowserSession B
  stop s = stop_if s.active s

  -- The events of so many polls, in order, and the session after them.
  unfoldable pub poll_times :
      ℕ → BrowserSession B → List (Option (DiscoveryBrowserEvent F)) × BrowserSession B
  poll_times zero s = ([], s)
  poll_times (suc n) s =
      let after = poll_event s in let rest = poll_times n after.1 in (after.0 ∷ rest.0, rest.1)

  stop_active-stopped :
      (s : BrowserState) (r : Result (DiscoveryBrowserError F) (Unit {0}) × B)
      → (stop_active s r).0 ≡ ok tt
      → (stop_active s r).1.active ≡ false
  stop_active-stopped s (err e, b) h = cc
  stop_active-stopped s (ok u, b) h = refl

  stop_if-stopped :
      (b : Bool) (s : BrowserSession B)
      → s.active ≡ b
      → (stop_if b s).0 ≡ ok tt
      → (stop_if b s).1.active ≡ false
  stop_if-stopped false s e h = e
  stop_if-stopped true s e h = stop_active-stopped s.state (i.stop s.backend) h

  stop-stopped : (s : BrowserSession B) → (stop s).0 ≡ ok tt → (stop s).1.active ≡ false
  unfolding stop
  stop-stopped s h = stop_if-stopped s.active s refl h

  poll_stopped : (s : BrowserSession B) → s.active ≡ false → poll_event s ≡ (none, s)
  unfolding poll_event
  poll_stopped s h = ap (λ b. poll_if b s) h

  poll_times_stopped :
      (n : ℕ) (s : BrowserSession B) → s.active ≡ false → poll_times n s ≡ (nones n, s)
  unfolding poll_times
  poll_times_stopped zero s h = refl
  poll_times_stopped (suc n) s h =
      ap (λ t. (t.0 ∷ (poll_times n t.1).0, (poll_times n t.1).1)) (poll_stopped s h)
      ∙ ap (λ r. (none ∷ r.0, r.1)) (poll_times_stopped n s h)

  stop_of_stopped : (s : BrowserSession B) → s.active ≡ false → stop s ≡ (ok tt, s)
  unfolding stop
  stop_of_stopped s h = ap (λ b. stop_if b s) h

  -- Once stop returned without an error, any number of polls give nothing and leave the session
  -- and its backend alone, and so does another stop, which returns without an error.
  pub stop_quiet :
      (n : ℕ) (s : BrowserSession B)
      → (stop s).0 ≡ ok tt
      → (poll_times n (stop s).1 ≡ (nones n, (stop s).1)) × (stop (stop s).1 ≡ (ok tt, (stop s).1))
  stop_quiet n s h = (
    poll_times_stopped n (stop s).1 (stop-stopped s h),
    stop_of_stopped (stop s).1 (stop-stopped s h),
  )
