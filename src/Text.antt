-- ===== src/Text.antt =====
-- Python's `str` and `bytes` as lists of code points, and the methods of theirs that the program
-- calls. Case conversion is Python's on the code points below 256, which is what a header decoded
-- as latin-1 holds; a code point above them is left as it is.
pub mod Laws
pub mod Regex
pub mod Replace
use Prim.Native.Char.{code}
use prax_sandbox.Base.{
  ℕ, zero, suc, ◌+◌, ◌-◌, ◌/◌, ◌%◌, ◌≡◌, refl, ◌↔◌, Bool, true, false, ◌&&◌, ◌||◌, String, List, [],
  ◌∷◌, ◌++◌, Option, none, some, arith, leb, if◌then◌else◌, Key, ◌==◌, nat_eq, is_empty, length,
  drop, any,
}

abbrev pub Text : Type 0
Text = List ℕ

-- A literal of the source.
abbrev pub codes : String → Text
codes String.[] = []
codes (String.◌∷◌ c s) = code c ∷ codes s

unfoldable pub text_beq : Text → Text → Bool
text_beq [] [] = true
text_beq [] (_ ∷ _) = false
text_beq (_ ∷ _) [] = false
text_beq (a ∷ s) (b ∷ t) = a == b && text_beq s t

pub text_beq_iff : (s t : Text) → (text_beq s t ≡ true) ↔ (s ≡ t)
unfolding text_beq
text_beq_iff [] [] = ground arith
text_beq_iff [] (b ∷ t) = ground arith
text_beq_iff (a ∷ s) [] = ground arith
text_beq_iff (a ∷ s) (b ∷ t) = ground (arith, text_beq_iff s t)

instance abbrev pub text_eq : Key Text
text_eq = record { equals = text_beq; equals_iff = text_beq_iff }

-- s.startswith(p)
unfoldable pub starts_with : Text → Text → Bool
starts_with [] s = true
starts_with (a ∷ p) [] = false
starts_with (a ∷ p) (b ∷ s) = a == b && starts_with p s

-- s.endswith(t)
unfoldable pub ends_with : Text → Text → Bool
ends_with t [] = is_empty t
ends_with t (b ∷ s) = (b ∷ s) == t || ends_with t s

abbrev pub is_upper_code : ℕ → Bool
is_upper_code c = leb 65 c && leb c 90 || leb 192 c && leb c 214 || leb 216 c && leb c 222

abbrev pub is_lower_code : ℕ → Bool
is_lower_code c = leb 97 c && leb c 122 || leb 224 c && leb c 246 || leb 248 c && leb c 254

unfoldable pub lower_code : ℕ → ℕ
lower_code c = if is_upper_code c then c + 32 else c

-- `ß` becomes `SS`; `µ` and `ÿ` leave the range.
unfoldable pub upper_code : ℕ → Text
upper_code c =
    if is_lower_code c
    then (c - 32) ∷ []
    else if c == 223
    then 83 ∷ 83 ∷ []
    else if c == 181
    then 924 ∷ []
    else if c == 255
    then 376 ∷ []
    else c ∷ []

-- s.lower()
unfoldable pub lower : Text → Text
unfolding lower_code
lower [] = []
lower (c ∷ s) = lower_code c ∷ lower s

-- s.upper()
unfoldable pub upper : Text → Text
unfolding upper_code
upper [] = []
upper (c ∷ s) = upper_code c ++ upper s

-- s.lstrip(…) and s.rstrip(…), over a test of the code points to take off
unfoldable pub lstrip : (ℕ → Bool) → Text → Text
lstrip p [] = []
lstrip p (c ∷ s) = let rest = lstrip p s in if p c then rest else c ∷ s

unfoldable pub rstrip : (ℕ → Bool) → Text → Text
rstrip p [] = []
rstrip p (c ∷ s) = let rest = rstrip p s in if is_empty rest && p c then [] else c ∷ rest

unfoldable pub strip : (ℕ → Bool) → Text → Text
unfolding lstrip rstrip
strip p s = rstrip p (lstrip p s)

-- Python's white space below 256.
abbrev pub is_space : ℕ → Bool
is_space c = leb 9 c && leb c 13 || leb 28 c && leb c 32 || c == 133 || c == 160

-- The two sides of the first `sep`, or `none`.
unfoldable pub cut : Text → Text → Option (Text × Text)
cut sep [] = if is_empty sep then some ([], []) else none
cut sep (c ∷ s) =
    let rest = cut sep s in
    if starts_with sep (c ∷ s)
    then some ([], drop (length sep) (c ∷ s))
    else elim rest [ none ↦ none | some (a, b) ↦ some (c ∷ a, b) ]

-- s.partition(sep): all of `s` is the head where `sep` does not occur.
abbrev pub partition : Text → Text → Text × Bool × Text
partition sep s = elim (cut sep s) [ none ↦ (s, false, []) | some (a, b) ↦ (a, true, b) ]

-- The two sides of the last code point `c`, or `none`.
unfoldable pub rcut : ℕ → Text → Option (Text × Text)
rcut c [] = none
rcut c (x ∷ s) = elim (rcut c s) [
  | some (a, b) ↦ some (x ∷ a, b)
  | none ↦ if x == c then some ([], s) else none
]

-- s.split(c) for one code point `c`
abbrev pub cons_head : ℕ → List Text → List Text
cons_head x [] = (x ∷ []) ∷ []
cons_head x (w ∷ ws) = (x ∷ w) ∷ ws

unfoldable pub split : ℕ → Text → List Text
split c [] = [] ∷ []
split c (x ∷ s) = let rest = split c s in if x == c then [] ∷ rest else cons_head x rest

-- sep.join(parts)
unfoldable pub join : Text → List Text → Text
join sep [] = []
join sep (w ∷ []) = w
join sep (w ∷ v ∷ ws) = w ++ (sep ++ join sep (v ∷ ws))

-- sub in s
unfoldable pub has_text : Text → Text → Bool
has_text sub [] = is_empty sub
has_text sub (c ∷ s) = starts_with sub (c ∷ s) || has_text sub s

-- str(n) for a number
decimal_from : ℕ → ℕ → Text → Text
decimal_from zero n rest = rest
decimal_from (suc fuel) n rest =
    let more = decimal_from fuel (n / 10) ((48 + n % 10) ∷ rest) in
    if n / 10 == 0 then (48 + n % 10) ∷ rest else more

-- The fuel is enough: a number has fewer digits than its value, save 0, which has one.
unfoldable pub decimal : ℕ → Text
unfolding decimal_from
decimal n = decimal_from (suc n) n []

-- s.split("\r\n")
unfoldable pub split_crlf : Text → List Text
split_crlf [] = [] ∷ []
split_crlf (c ∷ []) = (c ∷ []) ∷ []
split_crlf (c ∷ d ∷ s) =
    let rest = split_crlf s in
    let more = split_crlf (d ∷ s) in if c == 13 && d == 10 then [] ∷ rest else cons_head c more

abbrev pub crlf : Text
crlf = 13 ∷ 10 ∷ []
