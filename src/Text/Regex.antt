-- ===== src/Text/Regex.antt =====
-- Python's `re` as far as the program uses it: a matcher that tries the ways of a pattern in order
-- and keeps what its group matched.
use prax_sandbox.Base.{
  ℕ, zero, suc, ◌-◌, Bool, [], ◌∷◌, Option, none, some, ltb, if◌then◌else◌, ◌==◌, nat_eq, length,
  take,
}
use prax_sandbox.Text.{Text}

pub data Regex : Type 0 where
  empty : Regex
  one : (ℕ → Bool) → Regex
  -- One and then the other; the first way, or the second.
  seq alt : Regex → Regex → Regex
  -- `*` and `*?`
  many many_lazy : Regex → Regex
  group : Regex → Regex

abbrev pub or_else : Option Text → Option Text → Option Text
or_else a b = elim a [ some t ↦ some t | none ↦ b ]

-- What follows gets the rest of the text and the group so far; the fuel bounds the repetitions,
-- each of which takes a character.
abbrev pub Rest : Type 0
Rest = Text → Option Text → Option Text

match_regex : ℕ → Regex → Text → Option Text → Rest → Option Text
match_regex k empty s g next = next s g
match_regex k (one p) [] g next = none
match_regex k (one p) (c ∷ s) g next = if p c then next s g else none
match_regex k (seq a b) s g next = match_regex k a s g (λ s' g'. match_regex k b s' g' next)
match_regex k (alt a b) s g next = or_else (match_regex k a s g next) (match_regex k b s g next)
match_regex k (group a) s g next =
    match_regex k a s g (λ s' g'. next s' (some (take (length s - length s') s)))
match_regex zero (many a) s g next = next s g
match_regex (suc k) (many a) s g next =
    or_else
      (match_regex (suc k) a s g
        (λ s' g'. if ltb (length s') (length s) then match_regex k (many a) s' g' next else none))
      (next s g)
match_regex zero (many_lazy a) s g next = next s g
match_regex (suc k) (many_lazy a) s g next = or_else (next s g) (
    match_regex (suc k) a s g (λ s' g'.
      if ltb (length s') (length s) then match_regex k (many_lazy a) s' g' next else none))

-- The group of the leftmost match; the empty text where no group was passed.
abbrev found_group : Rest
found_group s none = some []
found_group s (some g) = some g

unfoldable pub search_regex : Regex → Text → Option Text
unfolding match_regex
search_regex r [] = match_regex 1 r [] none found_group
search_regex r (c ∷ s) =
    or_else (match_regex (suc (length (c ∷ s))) r (c ∷ s) none found_group) (search_regex r s)

abbrev pub literal : Text → Regex
literal [] = empty
literal (c ∷ s) = seq (one (λ d. d == c)) (literal s)

-- `+`, `+?` and `?`
abbrev pub many1 : Regex → Regex
many1 r = seq r (many r)

abbrev pub many1_lazy : Regex → Regex
many1_lazy r = seq r (many_lazy r)

abbrev pub optional : Regex → Regex
optional r = alt r empty
