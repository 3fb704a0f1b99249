-- ===== src/EgressGate/Gate.antt =====
-- The state of `Gate` in prax_sandbox/egress_gate/gate.py and its operations on taint, decisions
-- and questions. Each operation is atomic in the source up to its `await`, and takes the time that
-- `time.monotonic()` shows, read once; times and durations are whole numbers of one unit. A question's future is the
-- entry of its id in `futures`. A reason is data in place of a formatted text.
pub mod Deciding
pub mod Run
use prax_sandbox.Base.{
  ℕ, suc, ◌+◌, ◌-◌, max, Bool, true, false, not, ◌&&◌, ◌||◌, List, [], ◌∷◌, ◌++◌, Option, none,
  some, ltb, if◌then◌else◌, ◌==◌, nat_eq, is_empty, keep, Map, empty_map, update, keep_values,
}
use prax_sandbox.Text.{Text, codes, text_eq, lower, upper, decimal}
use prax_sandbox.EgressGate.Policy.{Action, allow, deny, ask, Reason, Policy}
use prax_sandbox.EgressGate.Policy

-- `path or "/"`
abbrev or_root : Option Text → Text
or_root none = codes "/"
or_root (some p) = if is_empty p then codes "/" else p

unfoldable pub dest_key : Text → ℕ → Option Text → Option Text → Text
dest_key host port none path = lower host ++ (codes ":" ++ decimal port)
dest_key host port (some method) path =
    (lower host ++ (codes ":" ++ decimal port))
    ++ (codes " " ++ (upper method ++ (codes " " ++ or_root path)))

pub data Why : Type 0 where
  by_policy : Reason → Why
  -- `allowed by …` and `denied by …`
  by_person : Bool → Text → Why
  tainted_since_asked : Why
  no_answer : Why
  asked_no_answer : Why
  remembered : Why → Why

pub record Decision : Type 0 where
  pub action : Action
  pub expires : ℕ
  pub why : Why
  pub granted_tainted : Bool

pub record Pending : Type 0 where
  pub id : ℕ
  pub key : Text
  pub host : Text
  pub port : ℕ
  pub method : Option Text
  pub path : Option Text
  pub tainted : Bool
  pub created : ℕ

pub record GateConfig : Type 0 where
  pub policy : Policy
  pub admin_token : Text
  pub taint_token : Text
  pub ask_timeout : ℕ
  pub allow_ttl : ℕ
  pub deny_ttl : ℕ
  pub taint_ttl : ℕ
  pub max_connections : ℕ

pub record Gate : Type 0 where
  pub decisions : Map Text Decision
  pub pending : List Pending
  pub by_dest : Map Text ℕ
  -- the count of `_ids`
  pub next_id : ℕ
  pub tainted_until : ℕ
  pub taint_reason : Text
  pub futures : Map ℕ (Action × Why)

-- Gate.__init__
abbrev pub new_gate : Gate
new_gate = record {
  decisions = empty_map;
  pending = [];
  by_dest = empty_map;
  next_id = 1;
  tainted_until = 0;
  taint_reason = [];
  futures = empty_map;
}

abbrev pub is_tainted : Gate → ℕ → Bool
is_tainted g now = ltb now g.tainted_until

abbrev pub is_allow : Action → Bool
is_allow allow = true
is_allow _ = false

-- `ttl or self.cfg.taint_ttl`
abbrev pub or_default : Option ℕ → ℕ → ℕ
or_default none d = d
or_default (some t) d = if t == 0 then d else t

module _ (cfg : GateConfig) where
  unfoldable pub set_taint : Gate → ℕ → Bool → Text → Option ℕ → Bool → Gate
  set_taint g now true reason ttl raise_only =
      let until = now + or_default ttl cfg.taint_ttl in
      record g {
        tainted_until = if raise_only then max g.tainted_until until else until;
        taint_reason = reason;
        decisions =
            if is_tainted g now
            then g.decisions
            else keep_values (λ d. not (is_allow d.action)) g.decisions;
      }
  set_taint g now false reason ttl raise_only = record g { tainted_until = 0; taint_reason = [] }

-- self._pending.get(id)
unfoldable pub find : ℕ → List Pending → Option Pending
find i [] = none
find i (p ∷ ps) = if p.id == i then some p else find i ps

-- self._pending.pop(id, None)
unfoldable pub remove : ℕ → List Pending → List Pending
remove i ps = keep (λ p. not (p.id == i)) ps

-- A request that waits: the question that it waits on, and until when.
pub record Waiter : Type 0 where
  pub question : Pending
  pub dest : Text
  pub tainted : Bool
  pub deadline : ℕ

-- How `decide` goes on: it returns, or it awaits an answer.
pub data Outcome : Type 0 where
  returned : Action → Why → Outcome
  waits : Waiter → Outcome

abbrev pub find_some : Option ℕ → List Pending → Option Pending
find_some none ps = none
find_some (some i) ps = find i ps

module _ (cfg : GateConfig) where
  -- `_ask`, up to its `await`: it gives up when `ask_timeout` has passed since the question was put.
  await_answer : Pending → Text → Bool → ℕ → Outcome
  await_answer p dest tainted now = waits (record {
    question = p;
    dest = dest;
    tainted = tainted;
    deadline = now + (cfg.ask_timeout - (now - p.created));
  })

  unfoldable pub ask_person :
      Gate → ℕ → Text → Text → ℕ → Option Text → Option Text → Bool → Gate × Outcome
  unfolding await_answer
  ask_person g now dest host port method path tainted =
      elim (find_some (g.by_dest dest) g.pending) [
        | some p ↦ (g, await_answer p dest tainted now)
        | none ↦
            let p : Pending = record {
              id = g.next_id;
              key = dest;
              host = host;
              port = port;
              method = method;
              path = path;
              tainted = tainted;
              created = now;
            } in
            (
              record g {
                next_id = suc g.next_id;
                pending = g.pending ++ (p ∷ []);
                by_dest = update g.by_dest dest (some p.id);
              },
              await_answer p dest tainted now,
            )
      ]

  -- `cached and time.monotonic() < cached[1]`, and an allow given clean does not serve tainted.
  unfoldable pub recall : Option Decision → ℕ → Bool → Option (Action × Why)
  recall none now tainted = none
  recall (some d) now tainted =
      if ltb now d.expires && not (is_allow d.action && (tainted && not d.granted_tainted))
      then some (d.action, remembered d.why)
      else none

  module _ (g : Gate) (now : ℕ) (host : Text) (port : ℕ) (method path : Option Text)
      (tainted : Bool) where
    abbrev dest : Text
    dest = dest_key host port method path

    -- A remembered answer is returned, else a person is asked.
    unfoldable pub after_recall : Option (Action × Why) → Gate × Outcome
    after_recall (some (action, why)) = (g, returned action why)
    after_recall none = ask_person g now dest host port method path tainted

    unfoldable pub after_policy : Action → Reason → Gate × Outcome
    unfolding after_recall
    after_policy allow reason = (g, returned allow (by_policy reason))
    after_policy deny reason = (g, returned deny (by_policy reason))
    after_policy ask reason = after_recall (recall (g.decisions dest) now tainted)

  unfoldable pub decide : Gate → ℕ → Text → ℕ → Option Text → Option Text → Gate × Outcome
  unfolding after_policy
  decide g now host port method path =
      let tainted = is_tainted g now in
      let verdict = Policy.decide cfg.policy host port method tainted in
      after_policy g now host port method path tainted verdict.action verdict.reason

-- `if self._by_dest.get(dest) == pending.id: pop`
abbrev forget_dest : Option ℕ → ℕ → Option ℕ
forget_dest none i = none
forget_dest (some j) i = if j == i then none else some j

unfoldable pub forget : Gate → Pending → Text → Gate
forget g p dest = record g {
  pending = remove p.id g.pending;
  by_dest = update g.by_dest dest (forget_dest (g.by_dest dest) p.id);
}

-- `if not future.done(): future.set_result(r)`
abbrev pub resolve : Map ℕ (Action × Why) → ℕ → Action × Why → Map ℕ (Action × Why)
resolve fs i r = elim (fs i) [ none ↦ update fs i (some r) | some _ ↦ fs ]

module _ (cfg : GateConfig) where
  -- The `except TimeoutError` of `_ask`, for one request that waited.
  unfoldable pub time_out : Gate → ℕ → Waiter → Gate
  unfolding forget
  time_out g now w =
      let g' = forget g w.question w.dest in
      record g' {
        decisions = update g'.decisions w.dest (
            some (record {
              action = deny;
              expires = now + cfg.deny_ttl;
              why = no_answer;
              granted_tainted = w.tainted;
            }));
        futures = resolve g'.futures w.question.id (deny, asked_no_answer);
      }

  -- `ttl if ttl is not None else …`
  abbrev pub hold : Bool → Option ℕ → ℕ
  hold granted (some t) = t
  hold granted none = if granted then cfg.allow_ttl else cfg.deny_ttl

  abbrev pub answer_of : Bool → Text → Action × Why
  answer_of granted by = (if granted then allow else deny, by_person granted by)

  -- The person allows a question put while the sandbox was clean, and it is tainted now.
  abbrev pub is_stale : Gate → ℕ → Pending → Bool → Bool
  is_stale g now p granted = granted && (is_tainted g now && not p.tainted)

  unfoldable pub settle : Gate → ℕ → Pending → Bool → Option ℕ → Text → Gate
  unfolding forget
  settle g now p granted ttl by =
      if is_stale g now p granted
      then (let g' = forget g p p.key in
          record g' { futures = resolve g'.futures p.id (deny, tainted_since_asked) })
      else (let decided : Decision = record {
        action = (answer_of granted by).0;
        expires = now + hold granted ttl;
        why = by_person granted by;
        granted_tainted = p.tainted;
      } in
          let g' =
            forget (record g { decisions = update g.decisions p.key (some decided) }) p p.key in
          record g' { futures = resolve g'.futures p.id (answer_of granted by) })

  unfoldable pub answer : Gate → ℕ → ℕ → Bool → Option ℕ → Text → Gate × Bool
  unfolding settle
  answer g now id granted ttl by = elim (find id g.pending) [
    | none ↦ (g, false)
    | some p ↦ (settle g now p granted ttl by, true)
  ]
