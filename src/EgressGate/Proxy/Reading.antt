-- ===== src/EgressGate/Proxy/Reading.antt =====
-- Reading a request: `_read_head` and the first part of `_handle` in
-- prax_sandbox/egress_gate/gate.py. The reader is the list of the chunks that it will give; an empty
-- one is the end of the stream. `urlsplit` is a parameter, `none` for its `ValueError`; so is `int`
-- on the text of a port, `none` also for a number that is negative.
use prax_sandbox.Base.{
  ℕ, ◌*◌, ◌≤◌, ◌≡◌, refl, ap, Bool, List, [], ◌∷◌, ◌++◌, Option, none, some, arith, ltb, not, ◌||◌,
  append-nil, if◌then◌else◌, ◌==◌, nat_eq, is_empty, length, Option-cases, inl, inr, append_assoc,
}
use prax_sandbox.Text.{Text, codes, text_eq, upper, cut, rcut, strip, crlf, partition}
use prax_sandbox.Text.Laws.{cut_join}
use prax_sandbox.EgressGate.Proxy.{Request}

abbrev pub max_head : ℕ
max_head = 64 * 1024

-- The blank line that ends a head.
abbrev pub blank_line : Text
blank_line = 13 ∷ 10 ∷ 13 ∷ 10 ∷ []

unfoldable pub read_head : Text → List Text → Option (Text × Text)
read_head before [] = cut blank_line before
read_head before (chunk ∷ chunks) =
    let more = read_head (before ++ chunk) chunks in
    elim (cut blank_line before) [
      | some parts ↦ some parts
      | none ↦
          if is_empty chunk
          then none
          else if ltb max_head (length (before ++ chunk))
          then none
          else more
    ]

pub record Url : Type 0 where
  pub scheme : Text
  pub hostname : Option Text
  pub port : Option ℕ
  pub path : Text
  pub query : Text

pub data Line : Type 0 where
  -- 400 is answered, or the `ValueError` ends the connection.
  bad_request not_absolute failed : Line
  judged : Request → Line

-- The first two blanks part the request line.
abbrev pub split_line : Text → Option (Text × Text × Text)
split_line line = elim (cut (codes " ") line) [
  | none ↦ none
  | some (method, more) ↦ elim (cut (codes " ") more) [
    | none ↦ none
    | some (target, version) ↦ some (method, target, version)
  ]
]

-- `s.strip("[]")`
abbrev is_bracket : ℕ → Bool
is_bracket c = c == b'[' || c == b']'

-- `x or d` for a text
abbrev or_text : Text → Text → Text
or_text x d = if is_empty x then d else x

abbrev or_port : Option ℕ → ℕ
or_port none = 80
or_port (some p) = if p == 0 then 80 else p

module _ (urlsplit : Text → Option Url) (int : Text → Option ℕ) (rest leftover : Text) where
  -- `target.rpartition(":")`
  abbrev host_and_port : Text → Text × Text
  host_and_port target = elim (rcut b':' target) [ none ↦ ([], target) | some parts ↦ parts ]

  unfoldable pub judge_connect : Text → Text → Text → Line
  unfolding strip
  judge_connect method target version =
      let (host, port) = host_and_port target in
      elim (int (or_text port (codes "443"))) [
        | none ↦ failed
        | some n ↦ judged (record {
          method = method;
          host = strip is_bracket host;
          port = n;
          judged_method = none;
          path = none;
          version = version;
          rest = rest;
          leftover = leftover;
        })
      ]

  unfoldable pub judge_url : Text → Option Text → Url → Text → Line
  judge_url method none url version = not_absolute
  judge_url method (some host) url version =
      if not (url.scheme == codes "http") || is_empty host
      then not_absolute
      else judged (record {
        method = method;
        host = host;
        port = or_port url.port;
        judged_method = some method;
        path = some (
            or_text url.path (codes "/")
            ++ (if is_empty url.query then [] else codes "?" ++ url.query));
        version = version;
        rest = rest;
        leftover = leftover;
      })

  unfoldable pub judge_line : Text → Line
  unfolding judge_connect judge_url
  judge_line line = elim (split_line line) [
    | none ↦ bad_request
    | some (method, target, version) ↦
        if upper method == codes "CONNECT"
        then judge_connect (upper method) target version
        else elim (urlsplit target) [
          | none ↦ failed
          | some url ↦ judge_url (upper method) url.hostname url version
        ]
  ]

-- A request from the head and what was read past it.
unfoldable pub judge_head : (Text → Option Url) → (Text → Option ℕ) → Text → Text → Line
unfolding judge_line
judge_head urlsplit int head leftover =
    let (line, _, rest) = partition crlf head in judge_line urlsplit int rest leftover line

abbrev pub concat : List Text → Text
concat [] = []
concat (t ∷ ts) = t ++ concat ts

-- The chunks that were read, and that `head` and `leftover` are all of them on top of `before`.
pub record IsRead (before : Text) (chunks : List Text) (head leftover : Text) : Type 0 where
  pub taken : List Text
  pub unread : List Text
  pub parts : chunks ≡ taken ++ unread
  pub at_blank_line : cut blank_line (before ++ concat taken) ≡ some (head, leftover)
  pub bounded : length (before ++ concat taken) ≤ max_head

IsRead-now :
    (before : Text) (chunks : List Text) (head leftover : Text)
    → length before ≤ max_head
    → cut blank_line before ≡ some (head, leftover)
    → IsRead before chunks head leftover
IsRead-now before chunks head leftover short e = record {
  taken = [];
  unread = chunks;
  parts = refl;
  at_blank_line = rw append-nil e;
  bounded = rw append-nil short;
}

IsRead-later :
    (before chunk : Text) (chunks : List Text) (head leftover : Text)
    → IsRead (before ++ chunk) chunks head leftover
    → IsRead before (chunk ∷ chunks) head leftover
IsRead-later before chunk chunks head leftover r = record {
  taken = chunk ∷ r.taken;
  unread = r.unread;
  parts = ap (λ cs. chunk ∷ cs) r.parts;
  at_blank_line = rw (← append_assoc) r.at_blank_line;
  bounded = rw (← append_assoc) r.bounded;
}

read_head-IsRead :
    (before : Text) (chunks : List Text) (head leftover : Text)
    → length before ≤ max_head
    → read_head before chunks ≡ some (head, leftover)
    → IsRead before chunks head leftover
unfolding read_head
read_head-IsRead before [] head leftover short h = IsRead-now before [] head leftover short h
read_head-IsRead before (chunk ∷ chunks) head leftover short h =
    elim (Option-cases (cut blank_line before)) [
      | inr (parts, e) ↦ IsRead-now before (chunk ∷ chunks) head leftover short (ground arith)
      | inl e ↦
          IsRead-later before chunk chunks head leftover
            (read_head-IsRead (before ++ chunk) chunks head leftover (ground arith) (ground arith))
    ]

-- A head that was read ends at the first blank line of what came in: head, blank line and leftover
-- are all that was read, nothing lost, and at most 64 KiB of it.
pub read_head-cut :
    (chunks : List Text) (head leftover : Text)
    → read_head [] chunks ≡ some (head, leftover)
    → (r : IsRead [] chunks head leftover) × (concat r.taken ≡ head ++ (blank_line ++ leftover))
read_head-cut chunks head leftover h =
    let r = read_head-IsRead [] chunks head leftover (omega arith) h in
    (r, cut_join blank_line (concat r.taken) head leftover r.at_blank_line)
