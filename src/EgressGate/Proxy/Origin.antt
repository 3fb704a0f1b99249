-- ===== src/EgressGate/Proxy/Origin.antt =====
-- The request head that goes upstream (`_origin_form` in prax_sandbox/egress_gate/gate.py), as the
-- lines that a server reads.
use prax_sandbox.Base.{
  ℕ, ◌≡◌, refl, ap, ◌∙◌, sym, some, Bool, true, false, not, ◌&&◌, ◌||◌, List, [], ◌∷◌, ◌++◌, arith,
  ◌==◌, nat_eq, is_empty, keep, All, ◌⊎◌, append_assoc, Bool-cases, inl, inr,
}
use prax_sandbox.Text.{Text, codes, crlf, split_crlf, join, lower, lower_code, starts_with}
use prax_sandbox.EgressGate.Proxy.{
  is_hop_header, kept_headers, host_line, head_line, is_latin1, origin_form,
}

abbrev is_break : ℕ → ℕ → Bool
is_break c d = c == 13 && d == 10

-- A text with no line break in it.
abbrev pub IsLine : Text → Type 0
IsLine [] = Unit
IsLine (c ∷ []) = Unit
IsLine (c ∷ d ∷ s) = (is_break c d ≡ false) × IsLine (d ∷ s)

line_then : (w s : Text) → IsLine w → split_crlf (w ++ (crlf ++ s)) ≡ w ∷ split_crlf s
unfolding split_crlf
line_then [] s h = refl
line_then (c ∷ []) s h = ground arith
line_then (c ∷ d ∷ w) s (h, hs) = rw (h, line_then (d ∷ w) s hs)

-- The first line begins as the text does, if it is not empty.
first_line :
    (d : ℕ) (s : Text)
    → (t : Text) × (ts : List Text) × (split_crlf (d ∷ s) ≡ t ∷ ts)
      × ((t ≡ []) ⊎ ((t' : Text) × (t ≡ d ∷ t')))
unfolding split_crlf
first_line d [] = (d ∷ [], [], refl, inr ([], refl))
first_line d (e ∷ s) = elim (Bool-cases (is_break d e)) [
  | inl yes_break ↦ ([], split_crlf s, rw yes_break, inl refl)
  | inr other ↦ let (t, ts, eq, _) = first_line e s in (d ∷ t, ts, rw (other, eq), inr (t, refl))
]

IsLine-cons :
    (c d : ℕ) (t : Text)
    → is_break c d ≡ false
    → (t ≡ []) ⊎ ((t' : Text) × (t ≡ d ∷ t'))
    → IsLine t
    → IsLine (c ∷ t)
IsLine-cons c d [] h _ l = tt
IsLine-cons c d (e ∷ t) h (inl none_there) l = cc
IsLine-cons c d (e ∷ t) h (inr (t', same)) l = (ground arith, l)

split_crlf-IsLine : (s : Text) → All IsLine (split_crlf s)
unfolding split_crlf
split_crlf-IsLine [] = (tt, tt)
split_crlf-IsLine (c ∷ []) = (tt, tt)
split_crlf-IsLine (c ∷ d ∷ s) = elim (Bool-cases (is_break c d)) [
  | inl yes_break ↦ rw yes_break (tt, split_crlf-IsLine s)
  | inr other ↦
      let (t, ts, eq, begins) = first_line d s in
      let (l, ls) : IsLine t × All IsLine ts = rw eq at (split_crlf-IsLine (d ∷ s)) in
      rw (other, eq) (IsLine-cons c d t other begins l, ls)
]

All-keep : {A : Type 0} (P : A → Type 0) (p : A → Bool) (xs : List A) → All P xs → All P (keep p xs)
All-keep P p [] h = tt
All-keep P p (x ∷ xs) (h, hs) = ground (arith, All-keep P p xs hs)

-- Joined lines with a last one come apart again.
lines_then :
    (w : Text) (ws : List Text) (s : Text)
    → All IsLine (w ∷ ws)
    → split_crlf (join crlf (w ∷ ws) ++ (crlf ++ s)) ≡ w ∷ (ws ++ split_crlf s)
unfolding join
lines_then w [] s (h, _) = line_then w s h
lines_then w (v ∷ ws) s (h, hs) =
    let more = join crlf (v ∷ ws) in
    ap split_crlf (append_assoc w (crlf ++ more) (crlf ++ s))
    ∙ line_then w (more ++ (crlf ++ s)) h
    ∙ ap (λ ls. w ∷ ls) (lines_then v ws s hs)

-- The header lines as they go out: where none is kept there is an empty line in their place.
abbrev pub sent_lines : List Text → List Text
sent_lines [] = [] ∷ []
sent_lines (h ∷ hs) = h ∷ hs

sent_lines-split :
    (hs : List Text) (s : Text)
    → All IsLine hs
    → split_crlf (join crlf hs ++ (crlf ++ s)) ≡ sent_lines hs ++ split_crlf s
unfolding join
sent_lines-split [] s h = line_then [] s tt
sent_lines-split (w ∷ ws) s h = lines_then w ws s h

kept_headers-IsLine : (rest : Text) → All IsLine (kept_headers rest)
unfolding kept_headers
kept_headers-IsLine rest = All-keep IsLine _ (split_crlf rest) (split_crlf-IsLine rest)

-- The text begins so, in any case.
abbrev pub Begins : Text → Text → Type 0
Begins p h = (s : Text) × (t : Text) × (h ≡ s ++ t) × (lower s ≡ p)

Begins-starts_with : (p h : Text) → starts_with p (lower h) ≡ true → Begins p h
unfolding starts_with lower
Begins-starts_with [] h e = ([], h, refl, refl)
Begins-starts_with (a ∷ p) [] e = absurd (ground arith)
Begins-starts_with (a ∷ p) (b ∷ h) e =
    let both : (a ≡ lower_code b) × (starts_with p (lower h) ≡ true) = ground arith in
    let (s, t, parts, low) = Begins-starts_with p h both.1 in
    (b ∷ s, t, ap (◌∷◌ b) parts, ap (λ x. x ∷ lower s) (sym both.0) ∙ ap (◌∷◌ a) low)

starts_with-lower : (p s t : Text) → lower s ≡ p → starts_with p (lower (s ++ t)) ≡ true
unfolding starts_with lower
starts_with-lower p [] t e = rw (← e) refl
starts_with-lower p (b ∷ s) t e = rw (← e) (ground (arith, starts_with-lower (lower s) s t refl))

starts_with-Begins : (p h : Text) → Begins p h → starts_with p (lower h) ≡ true
starts_with-Begins p h (s, t, parts, low) = rw parts (starts_with-lower p s t low)

-- What a line of the client's head must be to be left out.
abbrev pub IsLeftOut : Text → Type 0
IsLeftOut h =
    (h ≡ [])
    ⊎ (Begins (codes "proxy-") h ⊎ (Begins (codes "connection:") h ⊎ Begins (codes "host:") h))

-- The second list is the first one, in its order, without what is to be left out.
abbrev pub AreKept : List Text → List Text → Type 0
AreKept [] out = out ≡ []
AreKept (h ∷ hs) out =
    (IsLeftOut h × AreKept hs out)
    ⊎ ((IsLeftOut h → ⊥) × ((out' : List Text) × (out ≡ h ∷ out') × AreKept hs out'))

is_kept-false : (h : Text) → (not (is_empty h) && not (is_hop_header h)) ≡ false → IsLeftOut h
is_kept-false [] e = inl refl
is_kept-false (c ∷ h) e = elim (Bool-cases (starts_with (codes "proxy-") (lower (c ∷ h)))) [
  | inl y ↦ inr (inl (Begins-starts_with (codes "proxy-") (c ∷ h) y))
  | inr n ↦ elim (Bool-cases (starts_with (codes "connection:") (lower (c ∷ h)))) [
    | inl y ↦ inr (inr (inl (Begins-starts_with (codes "connection:") (c ∷ h) y)))
    | inr n' ↦ inr (inr (inr (Begins-starts_with (codes "host:") (c ∷ h) (last _ _ _ e n n'))))
  ]
]
  where
    last : (a b d : Bool) → not (a || b || d) ≡ false → a ≡ false → b ≡ false → d ≡ true
    last a b d e n n' = ground arith

is_kept-true : (h : Text) → (not (is_empty h) && not (is_hop_header h)) ≡ true → IsLeftOut h → ⊥
is_kept-true h e (inl none_there) = let e' : false ≡ true = rw none_there at e in cc
is_kept-true h e (inr (inl b)) = let y = starts_with-Begins (codes "proxy-") h b in ground arith
is_kept-true h e (inr (inr (inl b))) =
    let y = starts_with-Begins (codes "connection:") h b in ground arith
is_kept-true h e (inr (inr (inr b))) =
    let y = starts_with-Begins (codes "host:") h b in ground arith

keep-AreKept :
    (hs : List Text) → AreKept hs (keep (λ h. not (is_empty h) && not (is_hop_header h)) hs)
keep-AreKept [] = refl
keep-AreKept (h ∷ hs) = elim (Bool-cases (not (is_empty h) && not (is_hop_header h))) [
  | inl y ↦ rw (keep, y) (inr (is_kept-true h y, (_, refl, keep-AreKept hs)))
  | inr n ↦ rw (keep, n) (inl (is_kept-false h n, keep-AreKept hs))
]

abbrev pub end_lines : List Text
end_lines = codes "Connection: close" ∷ [] ∷ [] ∷ []

-- Where the request line and the host have no line break in them and no character above code point
-- 255, `_origin_form` gives a head, and what a server reads of it line by line, at each CRLF, is the
-- request line, one line with the host and port that were judged, the kept lines of the client's head
-- and `Connection: close`; where none is kept, an empty line stands before `Connection: close`. The
-- kept lines are those of the client's head in their order, without the empty ones and those that
-- begin, in any case, with `Proxy-`, `Connection:` or `Host:`. Any other line is kept: one with a
-- blank before its colon, and one with a bare line feed in it.
pub origin_form-lines :
    (method path version rest host : Text) (port : ℕ)
    → IsLine (head_line method path version)
    → IsLine (host_line host port)
    → is_latin1 (head_line method path version ++ (crlf ++ (host_line host port ++ crlf))) ≡ true
    → (out : Text) × (kept : List Text) × (origin_form method path version rest host port
        ≡ some out)
      × (split_crlf out
          ≡ head_line method path version ∷ host_line host port ∷ (sent_lines kept ++ end_lines))
      × AreKept (split_crlf rest) kept
unfolding origin_form split_crlf kept_headers
origin_form-lines method path version rest host port first second encodes =
    let tail = codes "Connection: close" ++ (crlf ++ crlf) in
    let headers = join crlf (kept_headers rest) ++ (crlf ++ tail) in
    let line1 = head_line method path version in
    let line2 = host_line host port in
    let at_headers = sent_lines-split (kept_headers rest) tail (kept_headers-IsLine rest) in
    let at_host = line_then line2 headers second ∙ ap (λ ls. line2 ∷ ls) at_headers in
    (
      line1 ++ (crlf ++ (line2 ++ (crlf ++ headers))),
      kept_headers rest,
      rw (encodes, origin_form) refl,
      line_then line1 (line2 ++ (crlf ++ headers)) first ∙ ap (λ ls. line1 ∷ ls) at_host,
      keep-AreKept (split_crlf rest),
    )
