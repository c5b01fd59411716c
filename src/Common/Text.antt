-- ===== src/Common/Text.antt =====
-- Python's `str`: the methods that the program calls, over the native texts. The white space is that
-- of `str.strip`; `lower` and `upper` change the ASCII letters only.
use Prim.Native.Nat.{ℕ, ◌-◌}
use Prim.Native.Char.{Char, code}
use Prim.Native.String.{String, [], ◌∷◌, ◌++◌, char_at}
use mathlib.Core.Path.{◌≡◌, refl}
use mathlib.Core.Bool.{Bool, true, false, ◌&&◌, ◌||◌}
use mathlib.Core.Option.{Option, none, some}
use native.Mathlib.Omega.{arith}
use text.Mathlib.TextLemmas.{cons-append}
use iot_gathering.Common.Tests.{leb, nat_beq, nat_beq_iff, if◌then◌else◌}

-- `not s`, for a text
abbrev pub is_empty : String → Bool
is_empty [] = true
is_empty (c ∷ s) = false

-- `s or t`
abbrev pub or_text : String → String → String
or_text [] t = t
or_text (c ∷ s) t = c ∷ s

-- `s or ""`, where `s` may be `None`
abbrev pub text_or : Option String → String → String
text_or none t = t
text_or (some s) t = or_text s t

is_space_code : ℕ → Bool
is_space_code n =
    leb 9 n && leb n 13
    || leb 28 n && leb n 32
    || nat_beq n 133
    || nat_beq n 160
    || nat_beq n 5760
    || leb 8192 n && leb n 8202
    || leb 8232 n && leb n 8233
    || nat_beq n 8239
    || nat_beq n 8287
    || nat_beq n 12288

pub is_space : Char → Bool
unfolding is_space_code
is_space c = is_space_code (code c)

is_slash : Char → Bool
is_slash c = nat_beq (code c) 47

-- `s.lstrip(chars)`
pub lstrip : (Char → Bool) → String → String
lstrip p [] = []
lstrip p (c ∷ s) = let rest = lstrip p s in if p c then rest else c ∷ s

-- `s.rstrip(chars)`
pub rstrip : (Char → Bool) → String → String
rstrip p [] = []
rstrip p (c ∷ s) = let rest = rstrip p s in if is_empty rest && p c then [] else c ∷ rest

-- `s.strip()`
unfoldable pub strip : String → String
unfolding lstrip rstrip is_space
strip s = rstrip is_space (lstrip is_space s)

-- `s.strip("/")`
unfoldable pub strip_slashes : String → String
unfolding lstrip rstrip is_slash
strip_slashes s = rstrip is_slash (lstrip is_slash s)

-- `s.rstrip("/")`
unfoldable pub rstrip_slashes : String → String
unfolding rstrip is_slash
rstrip_slashes s = rstrip is_slash s

-- `s.lstrip("/")`
unfoldable pub lstrip_slashes : String → String
unfolding lstrip is_slash
lstrip_slashes s = lstrip is_slash s

-- `s + t`, which also writes out the f-strings.
infixr 65 ◌<>◌
abbrev pub ◌<>◌ : String → String → String
s <> t = s ++ t

-- `s.replace(" ", "-")`
unfoldable pub dashed : String → String
dashed [] = []
dashed (c ∷ s) = (if nat_beq (code c) 32 then "-" else c) ∷ dashed s

-- `s.lower()`
lower_char : Char → Char
lower_char c =
    if leb 65 (code c) && leb (code c) 90
    then char_at "abcdefghijklmnopqrstuvwxyz" (code c - 65)
    else c

unfoldable pub lower : String → String
unfolding lower_char
lower [] = []
lower (c ∷ s) = lower_char c ∷ lower s

-- `s.startswith(prefix)`
unfoldable pub starts_with : String → String → Bool
starts_with [] s = true
starts_with (c ∷ p) [] = false
starts_with (c ∷ p) (d ∷ s) =
    let rest = starts_with p s in if nat_beq (code c) (code d) then rest else false

pub starts_with-append : (p s : String) → starts_with p (p <> s) ≡ true
unfolding starts_with
starts_with-append [] s = refl
starts_with-append (c ∷ p) s =
    rw (cons-append c p s) (ground (arith, nat_beq_iff (code c) (code c), starts_with-append p s))
