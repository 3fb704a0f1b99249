-- ===== src/Exec/Laws.antt =====
-- The shell gets the words that exec.py was given.
use prax_sandbox.Base.{
  ℕ, ◌≡◌, refl, sym, ap, ◌∙◌, inl, inr, true, false, not, List, [], ◌∷◌, ◌++◌, Option, none, some,
  map, arith, append_assoc, append-nil, Bool-cases, any, ◌==◌, nat_eq, contains,
}
use prax_sandbox.Text.{Text, codes, text_eq, join}
use prax_sandbox.Exec.{is_safe_code, escape_quotes, quote, or_no_text, cd_part, shell_cmd}
use prax_sandbox.Exec.Shell.{
  Token, word, and_if, between, plain, single, read_plain, read_code, after, read_tokens, is_plain,
}

after-nil : (o : Option (List Token)) → after [] o ≡ o
after-nil none = refl
after-nil (some t) = refl

read_code-safe :
    (w : Text) (c : ℕ)
    → is_plain c ≡ true
    → read_code (plain w) c ≡ some (plain (w ++ (c ∷ [])), [])
unfolding read_code read_plain
read_code-safe w c h = rw (h, read_code, read_plain) refl

read_code-first : (c : ℕ) → is_plain c ≡ true → read_code between c ≡ some (plain (c ∷ []), [])
unfolding read_code read_plain
read_code-first c h = rw (h, read_code, read_plain) refl

any-not_safe :
    (c : ℕ) (w : Text)
    → any (λ c. not (is_safe_code c)) (c ∷ w) ≡ false
    → (is_plain c ≡ true) × (any (λ c. not (is_safe_code c)) w ≡ false)
any-not_safe c w h = ground arith

read-safe :
    (acc w s : Text)
    → any (λ c. not (is_safe_code c)) w ≡ false
    → read_tokens (plain acc) (w ++ s) ≡ read_tokens (plain (acc ++ w)) s
unfolding read_tokens
read-safe acc [] s h = ap (λ a. read_tokens (plain a) s) (sym (append-nil acc))
read-safe acc (c ∷ w) s h =
    let (safe, rest) = any-not_safe c w h in
    rw (read_code-safe acc c safe, read_tokens)
      (after-nil (read_tokens (plain (acc ++ (c ∷ []))) (w ++ s))
        ∙ read-safe (acc ++ (c ∷ [])) w s rest
        ∙ ap (λ a. read_tokens (plain a) s) (append_assoc acc (c ∷ []) w))

read_code-single :
    (w : Text) (c : ℕ)
    → (c == b'\'') ≡ false
    → read_code (single w) c ≡ some (single (w ++ (c ∷ [])), [])
unfolding read_code
read_code-single w c h = rw (h, read_code) refl

read-escaped :
    (acc w s : Text)
    → read_tokens (single acc) (escape_quotes w ++ (b'\'' ∷ s)) ≡ read_tokens (plain (acc ++ w)) s
unfolding read_tokens escape_quotes read_code read_plain contains
read-escaped acc [] s = after-nil _ ∙ ap (λ a. read_tokens (plain a) s) (sym (append-nil acc))
read-escaped acc (c ∷ w) s =
    let rest =
      read-escaped (acc ++ (c ∷ [])) w s
      ∙ ap (λ a. read_tokens (plain a) s) (append_assoc acc (c ∷ []) w) in
    elim (Bool-cases (c == b'\'')) [
      | inl e ↦
          let same : c ≡ b'\'' = ground arith in
          rw (e, escape_quotes)
            (after-nil _
              ∙ after-nil _
              ∙ after-nil _
              ∙ after-nil _
              ∙ after-nil _
              ∙ ap (λ x. read_tokens (single (acc ++ (x ∷ []))) (escape_quotes w ++ (b'\'' ∷ s)))
                  (sym same)
              ∙ rest)
      | inr e ↦ rw (e, escape_quotes, read_code-single acc c e, read_tokens) (after-nil _ ∙ rest)
    ]

pub read-word :
    (c : ℕ) (w s : Text)
    → any (λ c. not (is_safe_code c)) (c ∷ w) ≡ false
    → read_tokens between ((c ∷ w) ++ s) ≡ read_tokens (plain (c ∷ w)) s
unfolding read_tokens
read-word c w s h =
    let (safe, rest) = any-not_safe c w h in
    rw (read_code-first c safe, read_tokens) (after-nil _ ∙ read-safe (c ∷ []) w s rest)

-- A quoted text is read as the text itself, whatever stands after it.
pub read-quote : (w s : Text) → read_tokens between (quote w ++ s) ≡ read_tokens (plain w) s
unfolding quote read_tokens read_code read_plain contains
read-quote [] s = after-nil _ ∙ after-nil _
read-quote (c ∷ w) s = elim (Bool-cases (any (λ c. not (is_safe_code c)) (c ∷ w))) [
  | inl e ↦
      rw (e, quote)
        (after-nil _
          ∙ ap (read_tokens (single [])) (append_assoc (escape_quotes (c ∷ w)) (codes "'") s)
          ∙ read-escaped [] (c ∷ w) s)
  | inr e ↦ rw (e, quote) (read-word c w s e)
]

abbrev words : List Text → List Token
words cmd = map word cmd

read-words :
    (c : Text) (cmd : List Text)
    → read_tokens between (join (codes " ") (map quote (c ∷ cmd))) ≡ some (words (c ∷ cmd))
unfolding join read_tokens read_code read_plain contains
read-words c [] = ap (read_tokens between) (sym (append-nil (quote c))) ∙ read-quote c []
read-words c (d ∷ cmd) = read-quote c _ ∙ ap (after (word c ∷ [])) (read-words d cmd)

-- What a shell is to read: a change of directory first, where one is asked for.
abbrev pub tokens_of : Option Text → List Text → List Token
tokens_of none cmd = words cmd
tokens_of (some cwd) cmd = word (codes "cd") ∷ word cwd ∷ and_if ∷ words cmd

read-line :
    (cwd : Option Text) (c : Text) (cmd : List Text)
    → read_tokens between
        (join (codes " && ") (cd_part cwd ++ (join (codes " ") (map quote (c ∷ cmd)) ∷ [])))
      ≡ some (tokens_of cwd (c ∷ cmd))
unfolding join read_tokens read_code read_plain contains
read-line none c cmd = read-words c cmd
read-line (some cwd) c cmd =
    after-nil _
    ∙ after-nil _
    ∙ ap (after (word (codes "cd") ∷ [])) (
        read-quote cwd _
        ∙ ap (λ o. after (word cwd ∷ []) (after [] (after (and_if ∷ []) (after [] o))))
            (read-words c cmd))

-- Whatever bytes the directory and the arguments of a command hold, quotes and blanks included: a
-- shell reads the line that is made of them as these very words, after a `cd` to the directory
-- where one is given, and nothing else.
pub read_tokens-shell_cmd :
    (cwd : Option Text) (c : Text) (cmd : List Text)
    → read_tokens between (shell_cmd cwd (c ∷ cmd)) ≡ some (tokens_of (or_no_text cwd) (c ∷ cmd))
unfolding shell_cmd
read_tokens-shell_cmd cwd c cmd = read-line (or_no_text cwd) c cmd
