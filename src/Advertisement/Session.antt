-- ===== src/Advertisement/Session.antt =====
-- What stopping an `AdvertisementSession` of advertisement.rs comes to.
use local_transfer.Prelude.{◌≡◌, refl, ok, err, ◌⊎◌, inl, inr, Bool, true, false, Result, ap}
use local_transfer.Advertisement.{
  AdvertisementBackend, AdvertisementSession, DiscoveryAdvertisementError, ServiceSpec, stop,
  stop_active, stop_if, drop,
}

module _ (S : Type 0) {B : Type 0} ⦃i : AdvertisementBackend S B⦄ where
  -- Nothing is left to stop.
  abbrev pub IsStopped : AdvertisementSession B → Type 0
  IsStopped s = (s.active ≡ false) × (stop {S = S} s ≡ (ok tt, s)) × (drop S s ≡ s)

  -- Dropping the session still stops the backend.
  abbrev pub IsLive : AdvertisementSession B → Type 0
  IsLive s = (s.active ≡ true) × ((drop S s).backend ≡ i.best_effort_stop s.backend)

  inactive-IsStopped : (s : AdvertisementSession B) → s.active ≡ false → IsStopped s
  unfolding stop drop
  inactive-IsStopped s h = (h, ap (λ b. stop_if b s) h, rw h refl)

  abbrev pub Outcome :
      Result (DiscoveryAdvertisementError S) (Unit {0}) × AdvertisementSession B → Type 0
  Outcome r =
      ((r.0 ≡ ok tt) × IsStopped r.1)
      ⊎ ((e : DiscoveryAdvertisementError S) × (r.0 ≡ err e) × IsLive r.1)

  stop_active-Outcome :
      (spec : ServiceSpec) (r : Result (DiscoveryAdvertisementError S) (Unit {0}) × B)
      → Outcome (stop_active spec r)
  unfolding drop
  stop_active-Outcome spec (ok u, b) = inl (refl, inactive-IsStopped _ refl)
  stop_active-Outcome spec (err e, b) = inr (e, refl, (refl, refl))

  stop_if-Outcome : (b : Bool) (s : AdvertisementSession B) → s.active ≡ b → Outcome (stop_if b s)
  stop_if-Outcome false s h = inl (refl, inactive-IsStopped s h)
  stop_if-Outcome true s h = stop_active-Outcome s.spec (i.stop s.backend)

  -- Stopping an advertisement either succeeds, and then another stop or a drop leaves the session
  -- and its backend alone, or gives an error, and then the session is still active and a drop
  -- makes the best effort of the backend.
  pub stop-Outcome : (s : AdvertisementSession B) → Outcome (stop {S = S} s)
  unfolding stop
  stop-Outcome s = stop_if-Outcome s.active s refl
