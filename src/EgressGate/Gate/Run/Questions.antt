-- ===== src/EgressGate/Gate/Run/Questions.antt =====
-- Questions and the requests that wait on them (`_pending`, `_by_dest` and the futures of
-- prax_sandbox/egress_gate/gate.py).
use prax_sandbox.Base.{
  ℕ, suc, ◌≤◌, ◌<◌, ◌≡◌, ◌≢◌, List, [], ◌∷◌, ◌++◌, Option, none, some, arith, if◌then◌else◌, ◌==◌,
  nat_eq, All, update, Map, Option-cases, Bool-cases, inl, inr,
}
use prax_sandbox.Text.{Text, text_beq_iff, text_eq}
use prax_sandbox.EgressGate.Policy.{Action}
use prax_sandbox.EgressGate.Gate.{
  Gate, Pending, Waiter, Why, find, remove, Decision, resolve, forget,
}
use prax_sandbox.EgressGate.Gate.Run.{System}

pub find-remove :
    (i j : ℕ) (ps : List Pending) → find j (remove i ps) ≡ (if i == j then none else find j ps)
unfolding find remove
find-remove i j [] = ground arith
find-remove i j (p ∷ ps) = ground (arith, find-remove i j ps)

abbrev or_new : Option Pending → ℕ → Pending → Option Pending
or_new (some q) j p = some q
or_new none j p = if p.id == j then some p else none

pub find-append :
    (j : ℕ) (ps : List Pending) (p : Pending) → find j (ps ++ (p ∷ [])) ≡ or_new (find j ps) j p
unfolding find
find-append j [] p = ground arith
find-append j (q ∷ ps) p = ground (arith, find-append j ps p)

-- The questions that a person can see, the index by destination and the futures agree.
pub record Agrees (g : Gate) : Type 0 where
  pub listed :
      (i : ℕ) (p : Pending)
      → find i g.pending ≡ some p
      → (p.id ≡ i) × (i < g.next_id) × (g.by_dest p.key ≡ some i) × (g.futures i ≡ none)
  pub indexed :
      (d : Text) (i : ℕ)
      → g.by_dest d ≡ some i
      → (p : Pending) × (find i g.pending ≡ some p) × (p.key ≡ d)
  pub fresh : (i : ℕ) → g.next_id ≤ i → g.futures i ≡ none

-- A waiting request has an answer to collect, or its question can still be answered.
pub record IsAttended (g : Gate) (w : Waiter) : Type 0 where
  pub known : w.question.id < g.next_id
  pub same_key : w.dest ≡ w.question.key
  pub visible : g.futures w.question.id ≡ none → find w.question.id g.pending ≡ some w.question

pub record IsSound (s : System) : Type 0 where
  pub agrees : Agrees s.gate
  pub attended : All (IsAttended s.gate) s.waiters

-- What `answer` and a time-out have in common: the question is taken off and its future resolved.
abbrev pub closed : Gate → Pending → Action × Why → Map Text Decision → Gate
closed g p r decisions = record (forget g p p.key) {
  decisions = decisions;
  futures = resolve g.futures p.id r;
}

module _ (g : Gate) (p : Pending) (r : Action × Why) (ds : Map Text Decision) (a : Agrees g)
    (old : p.id < g.next_id) (seen : g.futures p.id ≡ none → find p.id g.pending ≡ some p) where
  kept_index :
      (d : Text) (i : ℕ)
      → (closed g p r ds).by_dest d ≡ some i
      → (g.by_dest d ≡ some i) × (p.id ≢ i)
  unfolding forget
  kept_index d i h =
      let same = text_beq_iff p.key d in
      let was : g.by_dest d ≡ some i = ground arith in
      let (q, found, at) = a.indexed d i was in (was, ground (arith, a.listed i q found, seen))

  pub Agrees-closed : Agrees (closed g p r ds)
  unfolding forget
  Agrees-closed = record {
    listed = λ i q h.
        ground (arith, find-remove p.id i g.pending, a.listed i q, text_beq_iff p.key q.key);
    indexed = λ d i h.
        let (was, ne) = kept_index d i h in
        let (q, found, at) = a.indexed d i was in
        (q, ground (arith, find-remove p.id i g.pending), at);
    fresh = λ i h. ground (arith, a.fresh i);
  }

  pub IsAttended-closed : (w : Waiter) → IsAttended g w → IsAttended (closed g p r ds) w
  unfolding forget
  IsAttended-closed w h = record {
    known = h.known;
    same_key = h.same_key;
    visible = λ e. ground (arith, find-remove p.id w.question.id g.pending, h.visible);
  }

-- A new question, put for a destination that has none.
abbrev pub opened : Gate → Pending → Gate
opened g p = record g {
  next_id = suc g.next_id;
  pending = g.pending ++ (p ∷ []);
  by_dest = update g.by_dest p.key (some p.id);
}

module _ (g : Gate) (p : Pending) (a : Agrees g) (new : p.id ≡ g.next_id)
    (unasked : g.by_dest p.key ≡ none) where
  pub find_new : find g.next_id g.pending ≡ none
  find_new = elim (Option-cases (find g.next_id g.pending)) [
    | inl e ↦ e
    | inr (q, e) ↦ absurd (omega (arith, (a.listed g.next_id q e).1))
  ]

  pub Agrees-opened : Agrees (opened g p)
  Agrees-opened = record {
    listed = λ i q h.
        ground
          (arith, find-append i g.pending p, a.listed i q, a.fresh i, text_beq_iff p.key q.key);
    indexed = λ d i h. elim (Bool-cases (p.key == d)) [
      | inl same ↦
          (p, ground (arith, find-append i g.pending p, find_new), (text_beq_iff p.key d).0 same)
      | inr other ↦
          let (q, found, at) = a.indexed d i (ground arith) in
          (q, ground (arith, find-append i g.pending p), at)
    ];
    fresh = λ i h. ground (arith, a.fresh i);
  }

  pub IsAttended-opened : (w : Waiter) → IsAttended g w → IsAttended (opened g p) w
  IsAttended-opened w h = record {
    known = omega (arith, h.known);
    same_key = h.same_key;
    visible = λ e. ground (arith, find-append w.question.id g.pending p, h.visible);
  }
