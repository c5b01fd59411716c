-- ===== src/Config/Service.antt =====
-- An operation of `ConfigService`: what it does to the store, also where it raises, and what it gives.
use iot_gathering.Common.Result.{Result, ok, err}
use iot_gathering.Store.Tables.{Store}

abbrev pub Service {ℓ} : Type ℓ → Type ℓ
Service A = Store → Store × Result A

abbrev pub continue {ℓ κ} :
    {A : Type ℓ} {B : Type κ} → Store × Result A → (A → Service B) → Store × Result B
continue (s, err e) k = (s, err e)
continue (s, ok a) k = k a s

infixl 5 ◌>>=◌
unfoldable pub ◌>>=◌ {ℓ κ} :
    {B : Type κ} {A : Type ℓ} (m : Service A) (k : A → Service B) → Service B
(m >>= k) s = continue (m s) k

infixl 5 ◌>>◌
unfoldable pub ◌>>◌ {ℓ κ} : {B : Type κ} {A : Type ℓ} (m : Service A) (k : Service B) → Service B
(m >> k) s = continue (m s) (λ a. k)

-- What leaves the store alone.
unfoldable pub give {ℓ} : {A : Type ℓ} → Result A → Service A
give r s = (s, r)

unfoldable pub read {ℓ} : {A : Type ℓ} → (Store → A) → Service A
read f s = (s, ok (f s))

-- An operation of the store that may raise, and one that does not.
abbrev pub saved {ℓ} : {A : Type ℓ} → Store → Result (Store × A) → Store × Result A
saved s (err e) = (s, err e)
saved s (ok (t, a)) = (t, ok a)

unfoldable pub save {ℓ} : {A : Type ℓ} → (Store → Result (Store × A)) → Service A
save f s = saved s (f s)

unfoldable pub change : (Store → Store) → Service (Unit {0})
change f s = (f s, ok tt)
