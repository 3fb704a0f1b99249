-- ===== src/EgressGate/Admin.antt =====
-- The admin API of the gate: `handle_admin` in prax_sandbox/egress_gate/gate.py. `int` on a header
-- is a parameter, `none` for its `ValueError`, and a negative length is outside; so is `json.loads`,
-- `none` for its exception. A `ttl` in a body is a whole number.
pub mod Roles
mod Tests
use prax_sandbox.Base.{
  ℕ, ◌-◌, Bool, true, false, ◌&&◌, List, [], ◌∷◌, ◌++◌, Option, none, some, ltb, if◌then◌else◌,
  ◌==◌, nat_eq, is_empty, length, take, drop, all,
}
use prax_sandbox.Text.{
  Text, codes, text_eq, lower, decimal, starts_with, strip, is_space, cut, rcut, partition,
  split_crlf,
}
use prax_sandbox.EgressGate.Gate.{Gate, GateConfig, Pending, is_tainted, set_taint, answer}
use prax_sandbox.EgressGate.Proxy.Reading.{split_line}

-- The fields of a body that is an object; each is what a missing one counts as if it is missing.
pub record Fields : Type 0 where
  pub tainted : Bool
  pub reason : Text
  pub ttl : Option ℕ
  pub allow : Bool
  pub by : Text

abbrev pub no_fields : Fields
no_fields = record { tainted = false; reason = []; ttl = none; allow = false; by = [] }

pub data Body : Type 0 where
  object : Fields → Body
  -- Another JSON value; `body.get` fails on it.
  other_value : Body

pub data Role : Type 0 where
  admin taint_raiser nobody : Role
  -- `compare_digest` raises on text that is not ASCII.
  not_comparable : Role

pub data Content : Type 0 where
  unauthorized taint_only not_found failed log_tail : Content
  tainted_now : Bool → Content
  status_of : Bool → Text → ℕ → Content
  pending_list : List Pending → Content
  answered : Bool → Content

pub record AdminReply : Type 0 where
  pub status : ℕ
  pub content : Content

abbrev pub reply : ℕ → Content → AdminReply
reply status content = record { status = status; content = content }

-- `headers.get(name)`: a header that comes twice counts the second time.
unfoldable pub header_value : Text → List Text → Option Text
header_value name [] = none
header_value name (line ∷ lines) =
    let (key, _, value) = partition (codes ":") line in
    elim (header_value name lines) [
      | some later ↦ some later
      | none ↦ if lower (strip is_space key) == name then some (strip is_space value) else none
    ]

abbrev pub text_or : Option Text → Text → Text
text_or none d = d
text_or (some t) d = t

-- `s.removeprefix(p)`
abbrev pub remove_prefix : Text → Text → Text
remove_prefix p s = if starts_with p s then drop (length p) s else s

abbrev pub bearer_token : List Text → Text
bearer_token lines =
    strip is_space
      (remove_prefix (codes "Bearer ") (text_or (header_value (codes "authorization") lines) []))

abbrev pub is_ascii : Text → Bool
is_ascii s = all (λ c. ltb c 128) s

-- Whether a token is the one configured; `none` for the exception.
unfoldable pub is_token : Text → Text → Option Bool
is_token secret token =
    if is_empty secret
    then some false
    else if is_ascii secret && is_ascii token
    then some (token == secret)
    else none

unfoldable pub taint_role : Option Bool → Role
taint_role none = not_comparable
taint_role (some true) = taint_raiser
taint_role (some false) = nobody

unfoldable pub admin_role : Option Bool → Role → Role
admin_role none otherwise = not_comparable
admin_role (some true) otherwise = admin
admin_role (some false) otherwise = otherwise

abbrev pub role_of : GateConfig → Text → Role
role_of cfg token =
    admin_role (is_token cfg.admin_token token) (taint_role (is_token cfg.taint_token token))

-- The question with the id that a path names.
unfoldable pub find_id : Text → List Pending → Option ℕ
find_id t [] = none
find_id t (p ∷ ps) = let rest = find_id t ps in if decimal p.id == t then some p.id else rest

abbrev pub last_part : Text → Text
last_part path = elim (rcut b'/' path) [ none ↦ path | some (_, id) ↦ id ]

module _ (cfg : GateConfig) (g : Gate) (now : ℕ) where
  unfoldable pub raise_taint : Text → Text → Body → Gate × AdminReply
  raise_taint method path body =
      if method == codes "POST" && path == codes "/taint"
      then elim body [
        | other_value ↦ (g, reply 400 failed)
        | object f ↦
            if f.tainted
            then (let g' = set_taint cfg g now true f.reason f.ttl true in
                (g', reply 200 (tainted_now (is_tainted g' now))))
            else (g, reply 403 taint_only)
      ]
      else (g, reply 403 taint_only)

  answer_found : Option ℕ → Fields → Gate × Bool
  answer_found none f = (g, false)
  answer_found (some id) f = answer cfg g now id f.allow f.ttl f.by

  unfoldable pub answer_route : Text → Fields → Gate × AdminReply
  unfolding answer_found
  answer_route path f =
      let (g', ok) = answer_found (find_id (last_part path) g.pending) f in
      (g', reply (if ok then 200 else 404) (answered ok))

  unfoldable pub taint_route : Fields → Gate × AdminReply
  taint_route f =
      let g' = set_taint cfg g now f.tainted f.reason f.ttl false in
      (g', reply 200 (tainted_now (is_tainted g' now)))

  unfoldable pub post_route : Text → Body → Gate × AdminReply
  unfolding answer_route taint_route
  post_route path body =
      if starts_with (codes "/pending/") path
      then elim body [ other_value ↦ (g, reply 400 failed) | object f ↦ answer_route path f ]
      else if path == codes "/taint"
      then elim body [ other_value ↦ (g, reply 400 failed) | object f ↦ taint_route f ]
      else (g, reply 404 not_found)

  unfoldable pub get_route : Text → AdminReply
  get_route path =
      if path == codes "/status"
      then reply 200 (status_of (is_tainted g now) g.taint_reason (length g.pending))
      else if path == codes "/pending"
      then reply 200 (pending_list g.pending)
      else if path == codes "/log"
      then reply 200 log_tail
      else reply 404 not_found

  unfoldable pub admin_route : Text → Text → Body → Gate × AdminReply
  unfolding post_route get_route
  admin_route method path body =
      if method == codes "GET"
      then (g, get_route path)
      else if method == codes "POST"
      then post_route path body
      else (g, reply 404 not_found)

  abbrev pub by_role : Role → Text → Text → Body → Gate × AdminReply
  by_role admin method path body = admin_route method path body
  by_role taint_raiser method path body = raise_taint method path body
  by_role _ method path body = (g, reply 401 unauthorized)

-- The bytes of the body: past the head, and as many more as `content-length` asks for.
unfoldable pub read_body : ℕ → Text → Text → Option Text
read_body n leftover unread =
    let missing = n - length leftover in
    if ltb (length leftover) n
    then if ltb (length unread) missing then none else some (leftover ++ take missing unread)
    else some leftover

module _ (int : Text → Option ℕ) (loads : Text → Option Body) where
  -- `int(headers.get("content-length") or 0)`
  abbrev pub content_length : List Text → Option ℕ
  content_length lines =
      let text = text_or (header_value (codes "content-length") lines) [] in
      if is_empty text then some 0 else int text

  unfoldable pub parse_body : ℕ → Option Text → Option Body
  parse_body n none = none
  parse_body n (some raw) = if n == 0 then some (object no_fields) else loads (take n raw)

  unfoldable pub body_of : List Text → Text → Text → Option Body
  unfolding parse_body
  body_of lines leftover unread = elim (content_length lines) [
    | none ↦ none
    | some n ↦ parse_body n (read_body n leftover unread)
  ]

  module _ (cfg : GateConfig) (g : Gate) (now : ℕ) where
    -- The body is read only for one of the two tokens.
    unfoldable pub after_role : Role → Text → Text → Option Body → Gate × AdminReply
    after_role nobody method path body = (g, reply 401 unauthorized)
    after_role not_comparable method path body = (g, reply 400 failed)
    after_role role method path none = (g, reply 400 failed)
    after_role role method path (some body) = by_role cfg g now role method path body

    -- `handle_admin`, from the head, what was read past it and what can still be read.
    unfoldable pub handle_admin : Text → Text → Text → Gate × AdminReply
    unfolding after_role
    handle_admin head leftover unread = elim (split_crlf head) [
      | [] ↦ (g, reply 400 failed)
      | line ∷ lines ↦ elim (split_line line) [
        | none ↦ (g, reply 400 failed)
        | some (method, path, version) ↦
            after_role (role_of cfg (bearer_token lines)) method path
              (body_of lines leftover unread)
      ]
    ]
