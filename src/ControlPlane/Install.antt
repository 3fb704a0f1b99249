-- ===== src/ControlPlane/Install.antt =====
-- The name of a package stays one word of the shell.
use prax_sandbox.Base.{
  ℕ, ◌≡◌, refl, sym, ap, ◌∙◌, ◌⊎◌, inl, inr, true, false, not, ◌&&◌, List, [], ◌∷◌, ◌++◌, some,
  arith, append-nil, Bool-cases, any, nat_eq, is_empty, contains,
}
use prax_sandbox.Text.{Text, codes, text_eq, starts_with}
use prax_sandbox.Exec.{is_safe_code}
use prax_sandbox.Exec.Shell.{
  Token, word, and_if, line_end, between, read_plain, read_code, read_tokens,
}
use prax_sandbox.Exec.Laws.{read-word}
use prax_sandbox.ControlPlane.{
  is_alnum_code, is_name_code, matches_rest, is_package_name, install_command,
}

abbrev AreSafe : Text → Type 0
AreSafe s = any (λ c. not (is_safe_code c)) s ≡ false

is_name_code-safe : (c : ℕ) → is_name_code c ≡ true → is_safe_code c ≡ true
unfolding contains
is_name_code-safe c h = ground arith

matches_rest-safe :
    (s : Text)
    → matches_rest s ≡ true
    → (name : Text) × (AreSafe name × ((s ≡ name) ⊎ (s ≡ name ++ (10 ∷ []))))
unfolding matches_rest
matches_rest-safe [] h = ([], (refl, inl refl))
matches_rest-safe (c ∷ s) h = elim (Bool-cases (is_name_code c && matches_rest s)) [
  | inl e ↦
      let code : is_name_code c ≡ true = ground arith in
      let (name, (safe, is)) = matches_rest-safe s (ground arith) in
      let first = is_name_code-safe c code in
      (
        c ∷ name,
        (
          rw (first, safe) refl,
          elim is [ inl same ↦ inl (ap (◌∷◌ c) same) | inr same ↦ inr (ap (◌∷◌ c) same) ],
        ),
      )
  | inr e ↦ ([], (refl, inr (last s (ground arith))))
]
  where
    last : (s : Text) → (c ≡ 10) × (is_empty s ≡ true) → c ∷ s ≡ 10 ∷ []
    last [] (same, e) = rw same refl
    last (d ∷ s) (same, e) = cc

abbrev apt_words : List Token
apt_words =
    word (codes "apt-get")
    ∷ word (codes "update")
    ∷ word (codes "-qq")
    ∷ and_if
    ∷ word (codes "apt-get")
    ∷ word (codes "install")
    ∷ word (codes "-y")
    ∷ word (codes "--no-install-recommends")
    ∷ []

read-install :
    (s : Text) (tokens : List Token)
    → read_tokens between s ≡ some tokens
    → read_tokens between (install_command s) ≡ some (apt_words ++ tokens)
unfolding read_tokens read_code read_plain contains install_command
read-install s tokens h = rw (install_command, read_tokens, h) refl

one_word :
    (c : ℕ) (name : Text)
    → AreSafe (c ∷ name)
    → read_tokens between (install_command (c ∷ name)) ≡ some (apt_words ++ (word (c ∷ name) ∷ []))
unfolding read_tokens
one_word c name safe =
    read-install (c ∷ name) (word (c ∷ name) ∷ [])
      (ap (read_tokens between) (sym (append-nil (c ∷ name))) ∙ read-word c name [] safe)

one_line :
    (c : ℕ) (name : Text)
    → AreSafe (c ∷ name)
    → read_tokens between (install_command (c ∷ (name ++ (10 ∷ []))))
      ≡ some (apt_words ++ (word (c ∷ name) ∷ line_end ∷ []))
unfolding read_tokens read_code read_plain contains
one_line c name safe =
    read-install (c ∷ (name ++ (10 ∷ []))) (word (c ∷ name) ∷ line_end ∷ [])
      (read-word c name (10 ∷ []) safe)

-- What a shell reads of a name, at the end of a line or with a line's end after it.
abbrev pub IsOneWord : Text → Text → Type 0
IsOneWord line package_name =
    (name : Text) × (((package_name ≡ name)
        × (read_tokens between line ≡ some (apt_words ++ (word name ∷ []))))
      ⊎ ((package_name ≡ name ++ (10 ∷ []))
          × (read_tokens between line ≡ some (apt_words ++ (word name ∷ line_end ∷ [])))))

-- A name that `install_package` accepts is no option, and puts one word in the command: a shell
-- reads the two commands of apt-get, with the name as the last word, and nothing after it but an
-- end of line where the name ends in one.
pub install_command-IsOneWord :
    (package_name : Text)
    → is_package_name package_name ≡ true
    → (starts_with (codes "-") package_name ≡ false)
      × IsOneWord (install_command package_name) package_name
unfolding is_package_name starts_with
install_command-IsOneWord [] h = cc
install_command-IsOneWord (c ∷ s) h =
    let (name, (safe, is)) = matches_rest-safe s (ground arith) in
    let alnum : is_alnum_code c ≡ true = ground arith in
    let first : is_safe_code c ≡ true = ground arith in
    let safe' : AreSafe (c ∷ name) = rw first safe in
    (
      ground arith,
      (
        c ∷ name,
        elim is [
          | inl same ↦ inl (ap (◌∷◌ c) same, rw same (one_word c name safe'))
          | inr same ↦ inr (ap (◌∷◌ c) same, rw same (one_line c name safe'))
        ],
      ),
    )
