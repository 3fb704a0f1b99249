-- ===== src/Exec/Shell.antt =====
-- How a POSIX shell reads a line that exec.py hands it: the tokens, after the removal of quotes. It
-- reads plain characters, blanks, ends of lines, both kinds of quotes and `&&`; `none` for what
-- needs more than that, an expansion say, and for a quote that does not end.
use prax_sandbox.Base.{
  ℕ, Bool, ◌&&◌, ◌||◌, List, [], ◌∷◌, ◌++◌, Option, none, some, leb, if◌then◌else◌, ◌==◌, nat_eq,
  contains,
}
use prax_sandbox.Text.{Text, codes}

pub data Token : Type 0 where
  word : Text → Token
  and_if line_end : Token

-- Where the reader is, with the word so far.
pub data Mode : Type 0 where
  between after_and : Mode
  plain single double : Text → Mode

abbrev pub is_plain : ℕ → Bool
is_plain c =
    leb b'a' c && leb c b'z'
    || leb b'A' c && leb c b'Z'
    || leb b'0' c && leb c b'9'
    || contains (codes "_@%+=:,./-") c

unfoldable pub read_plain : Option Text → ℕ → Option (Mode × List Token)
read_plain w c =
    let done : List Token = elim w [ none ↦ [] | some w ↦ word w ∷ [] ] in
    let so_far : Text = elim w [ none ↦ [] | some w ↦ w ] in
    if is_plain c
    then some (plain (so_far ++ (c ∷ [])), [])
    else if c == b' '
    then some (between, done)
    else if c == b'\''
    then some (single so_far, [])
    else if c == b'"'
    then some (double so_far, [])
    else if c == b'&'
    then some (after_and, done)
    else if c == 10
    then some (between, done ++ (line_end ∷ []))
    else none

unfoldable pub read_code : Mode → ℕ → Option (Mode × List Token)
unfolding read_plain
read_code between c = read_plain none c
read_code (plain w) c = read_plain (some w) c
read_code after_and c = if c == b'&' then some (between, and_if ∷ []) else none
read_code (single w) c =
    if c == b'\'' then some (plain w, []) else some (single (w ++ (c ∷ [])), [])
read_code (double w) c =
    if c == b'"'
    then some (plain w, [])
    else if contains (codes "$`\\") c
    then none
    else some (double (w ++ (c ∷ [])), [])

abbrev pub read_end : Mode → Option (List Token)
read_end between = some []
read_end (plain w) = some (word w ∷ [])
read_end _ = none

abbrev pub after : List Token → Option (List Token) → Option (List Token)
after out none = none
after out (some tokens) = some (out ++ tokens)

unfoldable pub read_tokens : Mode → Text → Option (List Token)
unfolding read_code
read_tokens m [] = read_end m
read_tokens m (c ∷ s) = elim (read_code m c) [
  | none ↦ none
  | some (m', out) ↦ after out (read_tokens m' s)
]
