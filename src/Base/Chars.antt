-- ===== src/Base/Chars.antt =====
-- The string methods of the language that the services use, on UTF-16 code units.
use micro_manus_services.Base.Tests.{leb, ◌==◌, if◌then◌else◌}
use micro_manus_services.Base.Lists.{Text, any, all}
use Prim.Native.Nat.{ℕ, ◌+◌, ◌-◌}
use mathlib.Core.Bool.{Bool, true, ◌&&◌, ◌||◌}
use mathlib.Core.List.{[], ◌∷◌, map, reverse, reverse_aux}
use mathlib.Core.Path.{◌≡◌, refl}
use native.Mathlib.Omega.{arith}

-- White space and line ends, as `trim` reads them.
abbrev pub is_space : ℕ → Bool
is_space c =
    leb 9 c && leb c 13
    || leb 0x2000 c && leb c 0x200a
    || any (λ s. s == c)
        (32 ∷ 160 ∷ 0x1680 ∷ 0x2028 ∷ 0x2029 ∷ 0x202f ∷ 0x205f ∷ 0x3000 ∷ 0xfeff ∷ [])

pub trim_start : Text → Text
trim_start [] = []
trim_start (c ∷ cs) = if is_space c then trim_start cs else c ∷ cs

unfoldable pub trim : Text → Text
unfolding trim_start
trim s = reverse (trim_start (reverse (trim_start s)))

-- `toUpperCase`, for the letters whose upper case is in ASCII; dotless i and long s are two of
-- them.
abbrev pub upper_unit : ℕ → ℕ
upper_unit c =
    if leb b'a' c && leb c b'z'
    then c - 32
    else if c == 0x131
    then b'I'
    else if c == 0x17f
    then b'S'
    else c

unfoldable pub to_upper_case : Text → Text
to_upper_case = map upper_unit

-- `toLowerCase`, for the letters whose lower case is in ASCII; the Kelvin sign is one of them.
abbrev pub lower_unit : ℕ → ℕ
lower_unit c = if leb b'A' c && leb c b'Z' then c + 32 else if c == 0x212a then b'k' else c

unfoldable pub to_lower_case : Text → Text
to_lower_case = map lower_unit

all-reverse_aux :
    (p : ℕ → Bool) (xs ys : Text)
    → all p xs ≡ true
    → all p ys ≡ true
    → all p (reverse_aux xs ys) ≡ true
all-reverse_aux p [] ys h k = k
all-reverse_aux p (x ∷ xs) ys h k = all-reverse_aux p xs (x ∷ ys) (ground arith) (ground arith)

all-trim_start : (p : ℕ → Bool) (t : Text) → all p t ≡ true → all p (trim_start t) ≡ true
unfolding trim_start
all-trim_start p [] h = refl
all-trim_start p (c ∷ cs) h = ground (arith, all-trim_start p cs)

-- Trimming adds no character.
pub all-trim : (p : ℕ → Bool) (t : Text) → all p t ≡ true → all p (trim t) ≡ true
unfolding trim
all-trim p t h =
    all-reverse_aux p (trim_start (reverse (trim_start t))) []
      (all-trim_start p (reverse (trim_start t))
        (all-reverse_aux p (trim_start t) [] (all-trim_start p t h) refl))
      refl
