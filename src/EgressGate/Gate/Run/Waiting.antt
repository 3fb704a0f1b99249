-- ===== src/EgressGate/Gate/Run/Waiting.antt =====
-- What holds of every waiting request, through the changes of their list.
use mathlib.Core.Path.{subst}
use prax_sandbox.Base.{ℕ, zero, suc, ◌≡◌, List, [], ◌∷◌, ◌++◌, some, All}
use prax_sandbox.EgressGate.Gate.{Waiter}
use prax_sandbox.EgressGate.Gate.Run.{waiter_at, without}

pub All-map :
    {A : Type 0} (P Q : A → Type 0) → ((x : A) → P x → Q x) → (xs : List A) → All P xs → All Q xs
All-map P Q f [] h = tt
All-map P Q f (x ∷ xs) (h, hs) = (f x h, All-map P Q f xs hs)

pub All-snoc :
    {A : Type 0} (P : A → Type 0) (xs : List A) (x : A) → All P xs → P x → All P (xs ++ (x ∷ []))
All-snoc P [] x h p = (p, tt)
All-snoc P (y ∷ xs) x (q, h) p = (q, All-snoc P xs x h p)

pub All-without : (P : Waiter → Type 0) (n : ℕ) (ws : List Waiter) → All P ws → All P (without n ws)
unfolding without
All-without P n [] h = tt
All-without P zero (w ∷ ws) (p, h) = h
All-without P (suc n) (w ∷ ws) (p, h) = (p, All-without P n ws h)

pub All-waiter_at :
    (P : Waiter → Type 0) (n : ℕ) (ws : List Waiter) (w : Waiter)
    → All P ws
    → waiter_at n ws ≡ some w
    → P w
unfolding waiter_at
All-waiter_at P n [] w h e = cc
All-waiter_at P zero (v ∷ ws) w (p, h) e = subst P (cc) p
All-waiter_at P (suc n) (v ∷ ws) w (p, h) e = All-waiter_at P n ws w h e

pub All-zip :
    {A : Type 0} (P Q R : A → Type 0)
    → ((x : A) → P x → Q x → R x)
    → (xs : List A) → All P xs
    → All Q xs
    → All R xs
All-zip P Q R f [] h k = tt
All-zip P Q R f (x ∷ xs) (h, hs) (k, ks) = (f x h k, All-zip P Q R f xs hs ks)
