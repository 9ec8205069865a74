-- ===== src/Prelude/Text/Utf8.antt =====
-- Go's strings are bytes: the UTF-8 of a text, and the text that bytes are the UTF-8 of.
pub mod RoundTrip
use Prim.Native.Nat.{ℕ, zero, suc, ◌+◌, ◌-◌, ◌*◌, ◌/◌, ◌%◌, ◌<◌, Ordering, compare}
use Prim.Native.Char.{Char, char, code, IsLt, IsScalar}
use Prim.Native.String.{String, [], ◌∷◌}
use text.Mathlib.TextEquality.{Char-path}
use mathlib.Core.Path.{◌≡◌, refl, ap}
use mathlib.Core.Bool.{◌&&◌}
use mathlib.Core.Option.{Option, none, some}
use mathlib.Core.List.{List, ◌++◌}
use native.Mathlib.Omega.{arith}
use zabbix_agent2_plugin_pos.Prelude.Tests.{leb, if◌then◌else◌, ltb}

-- The bytes of a code point.
unfoldable pub utf8_code : ℕ → List ℕ
utf8_code n =
    if ltb n 128
    then List.◌∷◌ n List.[]
    else if ltb n 2048
    then List.◌∷◌ (192 + n / 64) (List.◌∷◌ (128 + n % 64) List.[])
    else if ltb n 65536
    then List.◌∷◌ (224 + n / 4096) (List.◌∷◌ (128 + n / 64 % 64) (List.◌∷◌ (128 + n % 64) List.[]))
    else List.◌∷◌ (240 + n / 262144) (
        List.◌∷◌ (128 + n / 4096 % 64)
          (List.◌∷◌ (128 + n / 64 % 64) (List.◌∷◌ (128 + n % 64) List.[])))

unfoldable pub utf8 : String → List ℕ
unfolding utf8_code
utf8 [] = List.[]
utf8 (c ∷ s) = utf8_code (code c) ++ utf8 s

-- The three comparisons of `IsScalar`, with its clauses.
abbrev Both : Ordering → Ordering → Type 0
Both Ordering.lt p = IsLt p
Both Ordering.eq p = ⊥
Both Ordering.gt p = ⊥

abbrev Scalar : Ordering → Ordering → Ordering → Type 0
Scalar Ordering.lt o p = Unit
Scalar Ordering.eq o p = Both o p
Scalar Ordering.gt o p = Both o p

both_dec : (o p : Ordering) → Dec (Both o p)
both_dec Ordering.lt Ordering.lt = yes tt
both_dec Ordering.lt Ordering.eq = no (λ x. x)
both_dec Ordering.lt Ordering.gt = no (λ x. x)
both_dec Ordering.eq p = no (λ x. x)
both_dec Ordering.gt p = no (λ x. x)

scalar_of : (o p q : Ordering) → Dec (Scalar o p q)
unfolding both_dec
scalar_of Ordering.lt p q = yes tt
scalar_of Ordering.eq p q = both_dec p q
scalar_of Ordering.gt p q = both_dec p q

scalar_dec : (n : ℕ) → Dec (IsScalar n)
unfolding scalar_of
scalar_dec n = scalar_of (compare n 55296) (compare 57343 n) (compare n 1114112)

scalar_below :
    (n : ℕ)
    → (o p q : Ordering) → compare n 55296 ≡ o
    → compare n 1114112 ≡ q
    → Scalar o p q
    → n < 1114112
scalar_below n Ordering.lt p q h k x = ground arith
scalar_below n Ordering.eq Ordering.lt Ordering.lt h k x = ground arith
scalar_below n Ordering.gt Ordering.lt Ordering.lt h k x = ground arith
scalar_below n Ordering.eq Ordering.lt Ordering.eq h k x = absurd x
scalar_below n Ordering.eq Ordering.lt Ordering.gt h k x = absurd x
scalar_below n Ordering.gt Ordering.lt Ordering.eq h k x = absurd x
scalar_below n Ordering.gt Ordering.lt Ordering.gt h k x = absurd x
scalar_below n Ordering.eq Ordering.eq q h k x = absurd x
scalar_below n Ordering.eq Ordering.gt q h k x = absurd x
scalar_below n Ordering.gt Ordering.eq q h k x = absurd x
scalar_below n Ordering.gt Ordering.gt q h k x = absurd x

pub code_below : (c : Char) → code c < 1114112
code_below (char n p) =
    scalar_below n (compare n 55296) (compare 57343 n) (compare n 1114112) refl refl p

-- The character of a scalar value.
abbrev character : (n : ℕ) → Dec (IsScalar n) → Option Char
character n (yes p) = some (char n p)
character n (no _) = none

to_char : ℕ → Option Char
unfolding scalar_dec
to_char n = character n (scalar_dec n)

character-code : (c : Char) (d : Dec (IsScalar (code c))) → character (code c) d ≡ some c
character-code (char n p) (yes q) = ap some (Char-path (char n q) (char n p) refl)
character-code (char n p) (no q) = absurd (q p)

to_char-code : (c : Char) → to_char (code c) ≡ some c
unfolding to_char
to_char-code c = character-code c (scalar_dec (code c))

-- Between two bytes: no character is begun, or there are more bytes of one to come, with the
-- number of those after the next, the least code point of its length, and the bits so far.
data Progress : Type 0 where
  idle : Progress
  more : ℕ → ℕ → ℕ → Progress

-- What a byte does: it is no part of a text, it goes on with a character, or it ends one.
data Step : Type 0 where
  reject : Step
  next : Progress → Step
  emit : ℕ → Step

continued : ℕ → ℕ → ℕ → Step
continued zero least v = if leb least v then emit v else reject
continued (suc k) least v = next (more k least v)

read_byte : Progress → ℕ → Step
unfolding continued
read_byte idle b =
    if ltb b 128
    then emit b
    else if leb 194 b && ltb b 224
    then next (more 0 128 (b - 192))
    else if leb 224 b && ltb b 240
    then next (more 1 2048 (b - 224))
    else if leb 240 b && ltb b 245
    then next (more 2 65536 (b - 240))
    else reject
read_byte (more k least v) b =
    if leb 128 b && ltb b 192 then continued k least (v * 64 + (b - 128)) else reject

abbrev add_char : Option Char → Option String → Option String
add_char (some c) (some s) = some (c ∷ s)
add_char (some c) none = none
add_char none s = none

abbrev after : Step → (Progress → Option String) → Option String
after reject rest = none
after (next p) rest = rest p
after (emit n) rest = add_char (to_char n) (rest idle)

decode : Progress → List ℕ → Option String
unfolding read_byte to_char
decode idle List.[] = some ""
decode (more k least v) List.[] = none
decode p (List.◌∷◌ b bytes) = after (read_byte p b) (λ q. decode q bytes)

-- The text that the bytes are the UTF-8 of.
pub from_utf8 : List ℕ → Option String
unfolding decode
from_utf8 bytes = decode idle bytes

tests : from_utf8 (utf8 "aé€𝄞") ≡ some "aé€𝄞"
unfolding from_utf8 utf8
tests = refl
