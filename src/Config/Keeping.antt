-- ===== src/Config/Keeping.antt =====
-- What keeps to the operations of `ConfigStore`: the sequences of its steps, and the operations of `ConfigService`
-- that make only these.
use iot_gathering.Common.{String, ℤ, ◌≡◌, refl}
use iot_gathering.Common.Result.{Result, ok, err}
use iot_gathering.Models.{DeviceSpec, TagSpec, OutputRouteConfig}
use iot_gathering.Store.Tables.{Store, save_device, save_tag, save_output_route}
use iot_gathering.Store.Consistent.{Step, saves_device, saves_tag, saves_route}
use iot_gathering.Config.Service.{Service, continue, ◌>>=◌, ◌>>◌, give, read, saved, save, change}

-- A sequence of steps of the store.
pub data Changes (id_text : ℤ → String) (s : Store) : Store → Type 0 where
  same : Changes id_text s s
  then_step : {t u : Store} → Changes id_text s t → Step id_text t u → Changes id_text s u

pub Changes-trans :
    (id_text : ℤ → String) {s t u : Store}
    → Changes id_text s t
    → Changes id_text t u
    → Changes id_text s u
Changes-trans id_text h same = h
Changes-trans id_text h (then_step k step) = then_step (Changes-trans id_text h k) step

module _ (id_text : ℤ → String) where
  pub record Keeps {ℓ} {A : Type ℓ} (m : Service A) : Type ℓ where
    pub changes : (s : Store) → Changes id_text s (m s).0

  continue-Changes {ℓ κ} :
      {A : Type ℓ} {B : Type κ} (s : Store) (t : Store × Result A) (k : A → Service B)
      → Changes id_text s t.0
      → ((a : A) → Keeps (k a))
      → Changes id_text s (continue t k).0
  continue-Changes s (t, err e) k h g = h
  continue-Changes s (t, ok a) k h g = Changes-trans id_text h ((g a).changes t)

  pub >>=-Keeps {ℓ κ} :
      {A : Type ℓ} {B : Type κ} {m : Service A} {k : A → Service B}
      → Keeps m
      → ((a : A) → Keeps (k a))
      → Keeps (m >>= k)
  unfolding ◌>>=◌
  >>=-Keeps {m = m} {k = k} h g = record {
    changes = λ s. continue-Changes s (m s) k (h.changes s) g;
  }

  pub >>-Keeps {ℓ κ} :
      {A : Type ℓ} {B : Type κ} {m : Service A} {k : Service B} → Keeps m → Keeps k → Keeps (m >> k)
  unfolding ◌>>◌
  >>-Keeps {m = m} {k = k} h g = record {
    changes = λ s. continue-Changes s (m s) (λ a. k) (h.changes s) (λ a. g);
  }

  pub give-Keeps {ℓ} : {A : Type ℓ} (r : Result A) → Keeps (give r)
  unfolding give
  give-Keeps r = record { changes = λ s. same }

  pub same-Keeps {ℓ} : {A : Type ℓ} (f : Store → Result A) → Keeps (λ s. (s, f s))
  same-Keeps f = record { changes = λ s. same }

  pub change-Keeps : (f : Store → Store) → ((s : Store) → Step id_text s (f s)) → Keeps (change f)
  unfolding change
  change-Keeps f h = record { changes = λ s. then_step same (h s) }

  pub read-Keeps {ℓ} : {A : Type ℓ} (f : Store → A) → Keeps (read f)
  unfolding read
  read-Keeps f = record { changes = λ s. same }

  saved-Changes {ℓ} :
      {A : Type ℓ} (s : Store) (r : Result (Store × A))
      → ((t : Store × A) → r ≡ ok t → Step id_text s t.0)
      → Changes id_text s (saved s r).0
  saved-Changes s (err e) h = same
  saved-Changes s (ok (t, a)) h = then_step same (h (t, a) refl)

  pub save_device-Keeps : (device : DeviceSpec) → Keeps (save (λ s. save_device s device))
  unfolding save
  save_device-Keeps device = record {
    changes = λ s. saved-Changes s (save_device s device) (saves_device device);
  }

  pub save_tag-Keeps : (tag : Store → TagSpec) → Keeps (save (λ s. save_tag id_text s (tag s)))
  unfolding save
  save_tag-Keeps tag = record {
    changes = λ s. saved-Changes s (save_tag id_text s (tag s)) (saves_tag (tag s));
  }

  pub save_output_route-Keeps :
      (route : OutputRouteConfig) → Keeps (save (λ s. save_output_route s route))
  unfolding save
  save_output_route-Keeps route = record {
    changes = λ s. saved-Changes s (save_output_route s route) (saves_route route);
  }
