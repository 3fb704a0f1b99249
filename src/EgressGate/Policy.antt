-- ===== src/EgressGate/Policy.antt =====
-- prax_sandbox/egress_gate/policy.py: which destinations may be reached, and on what terms.
-- The JSON document is a record of its fields, after the conversions by `str`, `int` and `bool`;
-- the reason of a verdict is data in place of a formatted text.
pub mod Matching
pub mod Laws
use prax_sandbox.Base.{
  ℕ, suc, ◌+◌, ◌-◌, Bool, true, false, not, ◌&&◌, ◌||◌, List, [], ◌∷◌, Option, none, some, ltb,
  if◌then◌else◌, ◌==◌, nat_eq, is_empty, any, length, drop, contains, map,
}
use prax_sandbox.Text.{Text, codes, text_eq, lower, upper, rstrip, starts_with, ends_with}
use prax_sandbox.EgressGate.Ip.{Address, Network, is_in}

-- ALLOW, DENY, ASK
pub data Action : Type 0 where
  allow deny ask : Action

-- The sets are lists that are only asked for membership.
pub record Rule : Type 0 where
  pub host : Text
  pub action : Action
  pub ports : List ℕ
  pub methods : List Text
  pub clean_only : Bool

-- A trailing dot of a host name.
abbrev pub is_dot : ℕ → Bool
is_dot c = c == b'.'

-- `s.lower().rstrip(".")`
unfoldable pub normal_host : Text → Text
normal_host s = rstrip is_dot (lower s)

unfoldable pub matches_pattern : Text → Text → Bool
matches_pattern pattern host =
    if starts_with (codes "*.") pattern
    then ends_with (drop 1 pattern) host && ltb (length (drop 1 pattern)) (length host)
    else host == pattern

unfoldable pub matches_host : Rule → Text → Bool
unfolding matches_pattern
matches_host rule host = matches_pattern (normal_host rule.host) (normal_host host)

pub data Reason : Type 0 where
  -- `rule {i} ({rule.host})`
  by_rule : ℕ → Text → Reason
  by_default : Reason

pub record Verdict : Type 0 where
  pub action : Action
  pub reason : Reason

pub record Policy : Type 0 where
  pub default : Action
  pub rules : List Rule
  pub allow_private_addresses : List Network

unfoldable pub private_allowed : Policy → Address → Bool
private_allowed p addr = any (is_in addr) p.allow_private_addresses

-- `rule.ports and port not in rule.ports`
unfoldable pub misses_port : Rule → ℕ → Bool
misses_port rule port = not (is_empty rule.ports) && not (contains rule.ports port)

-- `rule.methods and (method is None or method.upper() not in rule.methods)`
abbrev is_hidden_or_other : List Text → Option Text → Bool
is_hidden_or_other methods none = true
is_hidden_or_other methods (some m) = not (contains methods (upper m))

unfoldable pub misses_method : Rule → Option Text → Bool
misses_method rule method = not (is_empty rule.methods) && is_hidden_or_other rule.methods method

-- One round of the loop of `decide` that does not `continue`.
unfoldable pub applies : Rule → Text → ℕ → Option Text → Bool → Bool
applies rule host port method tainted =
    if not (matches_host rule host)
    then false
    else if misses_port rule port
    then false
    else if misses_method rule method
    then false
    else if rule.clean_only && tainted
    then false
    else true

module _ (host : Text) (port : ℕ) (method : Option Text) (tainted : Bool) where
  unfoldable pub decide_from : ℕ → List Rule → Action → Verdict
  decide_from i [] default = record { action = default; reason = by_default }
  decide_from i (rule ∷ rules) default =
      let rest = decide_from (suc i) rules default in
      if applies rule host port method tainted
      then record { action = rule.action; reason = by_rule i rule.host }
      else rest

unfoldable pub decide : Policy → Text → ℕ → Option Text → Bool → Verdict
unfolding decide_from
decide p host port method tainted = decide_from host port method tainted 0 p.rules p.default

-- The document: `none` for a field that is absent.
pub record RawRule : Type 0 where
  pub host : Option Text
  pub action : Option Text
  pub ports : List ℕ
  pub methods : List Text
  pub clean_only : Bool

pub record RawPolicy : Type 0 where
  pub default : Option Text
  pub rules : List RawRule
  pub allow_private_addresses : List Network

abbrev pub or_else {ℓ} : {A : Type ℓ} → Option A → A → A
or_else none d = d
or_else (some a) d = a

-- The `ValueError`s of `from_dict`, the second with the rule's index.
pub data PolicyError : Type 0 where
  bad_default : PolicyError
  bad_rule : ℕ → PolicyError

pub data Parsed {ℓ} (A : Type ℓ) : Type ℓ where
  ok : A → Parsed A
  err : PolicyError → Parsed A

-- `str(…).lower()`, where it is one of `_ACTIONS`
unfoldable pub parse_action : Text → Option Action
parse_action s =
    if lower s == codes "allow"
    then some allow
    else if lower s == codes "deny"
    then some deny
    else if lower s == codes "ask"
    then some ask
    else none

-- One rule; the host must not be empty.
unfoldable pub parse_rule : ℕ → RawRule → Parsed Rule
unfolding parse_action
parse_rule i raw = elim (parse_action (or_else raw.action [])) [
  | none ↦ err (bad_rule i)
  | some action ↦
      if is_empty (or_else raw.host [])
      then err (bad_rule i)
      else ok (record {
        host = or_else raw.host [];
        action = action;
        ports = raw.ports;
        methods = map upper raw.methods;
        clean_only = raw.clean_only;
      })
]

infixl 5 ◌>>=◌
abbrev pub ◌>>=◌ {ℓ κ} : {A : Type ℓ} {B : Type κ} → Parsed A → (A → Parsed B) → Parsed B
ok a >>= f = f a
err e >>= f = err e

unfoldable pub parse_rules : ℕ → List RawRule → Parsed (List Rule)
unfolding parse_rule
parse_rules i [] = ok []
parse_rules i (raw ∷ raws) = do
  rule ← parse_rule i raw
  rules ← parse_rules (suc i) raws
  ok (rule ∷ rules)

unfoldable pub from_dict : RawPolicy → Parsed Policy
unfolding parse_rules
from_dict raw = elim (parse_action (or_else raw.default (codes "ask"))) [
  | none ↦ err bad_default
  | some default ↦ do
    rules ← parse_rules 0 raw.rules
    ok (record {
      default = default;
      rules = rules;
      allow_private_addresses = raw.allow_private_addresses;
    })
]
