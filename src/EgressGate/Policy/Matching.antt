-- ===== src/EgressGate/Policy/Matching.antt =====
-- When a rule applies, as a relation between texts, ports and methods (`Rule.matches_host` and the
-- loop body of `Policy.decide` in prax_sandbox/egress_gate/policy.py).
use prax_sandbox.Base.{
  ℕ, ◌<◌, ◌≡◌, refl, ◌↔◌, ◌≢◌, ◌⊎◌, inl, inr, Bool, true, false, List, [], ◌∷◌, ◌++◌, Option, none,
  some, arith, Bool-cases, length, length-append, drop, is_empty, Elem, nat_eq, contains_iff,
}
use prax_sandbox.Text.{Text, codes, text_beq_iff, text_eq, upper, starts_with}
use prax_sandbox.Text.Laws.{starts_with-drop, ends_with_split, ends_with-append}
use prax_sandbox.EgressGate.Policy.{
  Rule, normal_host, matches_pattern, matches_host, misses_port, misses_method, applies,
}

-- `*.rest` matches `label.rest` for a label that is not empty; any other pattern matches itself.
abbrev pub IsMatch : Text → Text → Type 0
IsMatch pattern host =
    ((rest : Text) × (label : Text) × (pattern ≡ codes "*." ++ rest)
      × (host ≡ label ++ (codes "." ++ rest))
      × (label ≢ []))
    ⊎ ((starts_with (codes "*.") pattern ≡ false) × (host ≡ pattern))

label_not_empty : (label t : Text) → length t < length (label ++ t) → label ≢ []
label_not_empty [] t h = absurd (omega arith)
label_not_empty (c ∷ label) t h = ground arith

longer : (label t : Text) → label ≢ [] → length t < length (label ++ t)
longer [] t h = absurd (h refl)
longer (c ∷ label) t h = omega (arith, length-append {0} label t)

wildcard_sound :
    (rest host : Text)
    → matches_pattern (codes "*." ++ rest) host ≡ true
    → (label : Text) × (host ≡ label ++ (codes "." ++ rest)) × (label ≢ [])
unfolding matches_pattern starts_with
wildcard_sound rest host h =
    let (label, e) = ends_with_split (codes "." ++ rest) host (ground arith) in
    let long : length (codes "." ++ rest) < length host = ground arith in
    (label, e, label_not_empty label (codes "." ++ rest) (rw e at long))

wildcard_complete :
    (rest label : Text)
    → label ≢ []
    → matches_pattern (codes "*." ++ rest) (label ++ (codes "." ++ rest)) ≡ true
unfolding matches_pattern starts_with
wildcard_complete rest label h =
    ground (arith, ends_with-append label (codes "." ++ rest), longer label (codes "." ++ rest) h)

exact_iff :
    (pattern host : Text)
    → starts_with (codes "*.") pattern ≡ false
    → (matches_pattern pattern host ≡ true) ↔ (host ≡ pattern)
unfolding matches_pattern
exact_iff pattern host plain = rw plain (text_beq_iff host pattern)

pub matches_pattern_iff :
    (pattern host : Text) → (matches_pattern pattern host ≡ true) ↔ IsMatch pattern host
matches_pattern_iff pattern host = (sound, complete)
  where
    sound : matches_pattern pattern host ≡ true → IsMatch pattern host
    sound h = elim (Bool-cases (starts_with (codes "*.") pattern)) [
      | inl star ↦
          let shape = starts_with-drop (codes "*.") pattern star in
          let (label, e, ne) = wildcard_sound (drop 2 pattern) host (rw shape at h) in
          inl (drop 2 pattern, label, shape, e, ne)
      | inr plain ↦ inr (plain, (exact_iff pattern host plain).0 h)
    ]

    complete : IsMatch pattern host → matches_pattern pattern host ≡ true
    complete (inl (rest, label, p, e, ne)) = rw (p, e) (wildcard_complete rest label ne)
    complete (inr (plain, e)) = (exact_iff pattern host plain).1 e

-- A rule with methods is met by a method that is seen and listed.
abbrev pub MethodListed : List Text → Option Text → Type 0
MethodListed methods none = methods ≡ []
MethodListed methods (some m) = (methods ≡ []) ⊎ Elem (upper m) methods

-- All that a rule asks of a request, each part with its escape.
pub record Applies (rule : Rule) (host : Text) (port : ℕ) (method : Option Text) (tainted : Bool)
    : Type 0 where
  pub host_matches : IsMatch (normal_host rule.host) (normal_host host)
  pub port_listed : (rule.ports ≡ []) ⊎ Elem port rule.ports
  pub method_listed : MethodListed rule.methods method
  pub clean : (rule.clean_only ≡ false) ⊎ (tainted ≡ false)

not_empty : {A : Type 0} (xs : List A) → is_empty xs ≡ true → xs ≡ []
not_empty [] h = refl
not_empty (x ∷ xs) h = cc

port_iff :
    (rule : Rule) (port : ℕ)
    → (misses_port rule port ≡ false) ↔ ((rule.ports ≡ []) ⊎ Elem port rule.ports)
unfolding misses_port
port_iff rule port = ground (arith, contains_iff rule.ports port, not_empty rule.ports)

method_iff :
    (rule : Rule) (method : Option Text)
    → (misses_method rule method ≡ false) ↔ MethodListed rule.methods method
unfolding misses_method
method_iff rule none = ground (arith, not_empty rule.methods)
method_iff rule (some m) =
    ground (arith, contains_iff rule.methods (upper m), not_empty rule.methods)

matches_host_iff :
    (rule : Rule) (host : Text)
    → (matches_host rule host ≡ true) ↔ IsMatch (normal_host rule.host) (normal_host host)
unfolding matches_host
matches_host_iff rule host = matches_pattern_iff (normal_host rule.host) (normal_host host)

-- `applies` holds exactly of the requests that the rule is written for.
pub applies_iff :
    (rule : Rule) (host : Text) (port : ℕ) (method : Option Text) (tainted : Bool)
    → (applies rule host port method tainted ≡ true) ↔ Applies rule host port method tainted
unfolding applies
applies_iff rule host port method tainted =
    let host_iff = matches_host_iff rule host in
    let ports = port_iff rule port in
    let methods = method_iff rule method in
    (
      λ h. record {
        host_matches = host_iff.0 (ground arith);
        port_listed = ports.0 (ground arith);
        method_listed = methods.0 (ground arith);
        clean = ground arith;
      },
      λ a.
          rw (host_iff.1 a.host_matches, ports.1 a.port_listed, methods.1 a.method_listed)
            (ground arith),
    )
