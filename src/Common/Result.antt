-- ===== src/Common/Result.antt =====
-- What a Python function gives that may raise: a value, or the exception with its text.
use Prim.Native.String.{String}
use mathlib.Core.Path.{◌≡◌, refl}
use mathlib.Core.List.{List, [], ◌∷◌}
use mathlib.Core.Bool.{Bool, true, false}
use mathlib.Core.Option.{Option, none, some}
use iot_gathering.Common.Json.{Json, float}

pub data Error : Type 0 where
  value_error key_error runtime_error type_error timeout_error : String → Error

-- `str(exc)`: a KeyError prints its key with quotes, which are not written here.
abbrev pub text : Error → String
text (value_error s) = s
text (key_error s) = s
text (runtime_error s) = s
text (type_error s) = s
text (timeout_error s) = s

-- What `int(value)` raises: a ValueError for a text or a number that is none, a TypeError otherwise.
abbrev pub int_error : Json → Error
int_error (Json.text s) = value_error "invalid literal for int() with base 10"
int_error (float f) = value_error "cannot convert float to integer"
int_error _ = type_error "int() argument must be a string, a bytes-like object or a real number"

pub data Result {ℓ} (A : Type ℓ) : Type ℓ where
  err : Error → Result A
  ok : (value : A) → Result A

infixl 5 ◌>>=◌
abbrev pub ◌>>=◌ {ℓ κ} : {B : Type κ} {A : Type ℓ} (m : Result A) (k : A → Result B) → Result B
err e >>= k = err e
ok a >>= k = k a

infixl 5 ◌>>◌
abbrev pub ◌>>◌ {κ} : {B : Type κ} (m : Result (Unit {0})) (k : Result B) → Result B
err e >> k = err e
ok tt >> k = k

-- A row of `if test: raise e` statements: the first test that holds raises.
unfoldable pub raise_first : List (Bool × Error) → Result (Unit {0})
raise_first [] = ok tt
raise_first ((test, e) ∷ rest) =
    let next = raise_first rest in elim test [ true ↦ err e | false ↦ next ]

-- The tests of a row, all false.
abbrev pub AllFalse : List (Bool × Error) → Type 0
AllFalse [] = Unit
AllFalse ((test, e) ∷ rest) = (test ≡ false) × AllFalse rest

pub raise_first-AllFalse : (l : List (Bool × Error)) → raise_first l ≡ ok tt → AllFalse l
unfolding raise_first
raise_first-AllFalse [] h = tt
raise_first-AllFalse ((true, e) ∷ rest) h = cc
raise_first-AllFalse ((false, e) ∷ rest) h = (refl, raise_first-AllFalse rest h)

pub AllFalse-raise_first : (l : List (Bool × Error)) → AllFalse l → raise_first l ≡ ok tt
unfolding raise_first
AllFalse-raise_first [] h = refl
AllFalse-raise_first ((true, e) ∷ rest) h = cc
AllFalse-raise_first ((false, e) ∷ rest) h = AllFalse-raise_first rest h.1

pub >>-ok {κ} :
    {B : Type κ} (m : Result (Unit {0})) (k : Result B) {b : B}
    → m >> k ≡ ok b
    → (m ≡ ok tt) × (k ≡ ok b)
>>-ok (ok tt) k h = (refl, h)
>>-ok (err e) k h = cc

pub >>=-ok {ℓ κ} :
    {A : Type ℓ} {B : Type κ} (first : Result A) (next : A → Result B) {b : B}
    → first >>= next ≡ ok b
    → (a : A) × (first ≡ ok a) × (next a ≡ ok b)
>>=-ok (err e) next h = cc
>>=-ok (ok a) next h = (a, refl, h)

-- `d[k]`: the value that was found, or the error of a missing one.
abbrev pub found_or {ℓ} : {A : Type ℓ} → Option A → Error → Result A
found_or none e = err e
found_or (some a) e = ok a

pub found_or-ok {ℓ} :
    {A : Type ℓ} (o : Option A) (e : Error) {a : A} → found_or o e ≡ ok a → o ≡ some a
found_or-ok none e h = cc
found_or-ok (some b) e h = cc

pub ok_injective {ℓ} : {A : Type ℓ} {a b : A} → ok a ≡ ok b → a ≡ b
ok_injective h = cc
