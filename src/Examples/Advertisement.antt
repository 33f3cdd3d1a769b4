-- ===== src/Examples/Advertisement.antt =====
-- The advertisement of the device "Desk" on the port 4321, over a backend that is running or not.
use local_transfer.Prelude.{ok, Bool, true, false, arith, []}
use local_transfer.Text.{codes}
use local_transfer.Advertisement.{AdvertisementBackend, AdvertisementSession, SessionIdentity, stop}
use local_transfer.Advertisement.Session.{Outcome, stop-Outcome}
use local_transfer.Advertisement.Spec.{Advertised, new_spec-Advertised}
use local_transfer.Examples.Discovery.{described, described-IsValid}

abbrev label : SessionIdentity
label = record { label = codes "lt-1" }

new_spec-Advertised_example : Advertised (Unit {0}) described 4321 label
new_spec-Advertised_example =
    new_spec-Advertised (Unit {0}) described 4321 label described-IsValid (omega arith)

instance abbrev switch : AdvertisementBackend (Unit {0}) Bool
switch = record { stop = λ b. (ok tt, false); best_effort_stop = λ b. false }

abbrev advertised : AdvertisementSession Bool
advertised = record {
  spec = record {
    service_type = codes "_local-transfer._tcp.local.";
    instance_name = codes "lt-1";
    hostname = codes "lt-1.local.";
    port = 4321;
    properties = [];
  };
  backend = true;
  active = true;
}

stop-Outcome_example : Outcome (Unit {0}) (stop {S = Unit {0}} advertised)
stop-Outcome_example = stop-Outcome (Unit {0}) advertised
