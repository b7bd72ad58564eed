-- ===== src/Common/Actions.antt =====
-- Fallible calls that change a state, with `?` as the bind of a `do` block.
use midnight_did_rs.Common.{Result, ok, err}

-- A call from a state, with what it returns and the state that it leaves.
abbrev pub Action : Type 0 → Type 0 → Type 0 → Type 0
Action σ E A = σ → Result E A × σ

-- `?`: what comes behind a call that returned.
abbrev pub resume : {σ E A B : Type 0} → (A → Action σ E B) → Result E A × σ → Result E B × σ
resume f (ok a, s) = f a s
resume f (err e, s) = (err e, s)

infixl 5 ◌>>=◌ ◌>>◌
abbrev pub ◌>>=◌ : {σ E A B : Type 0} → Action σ E A → (A → Action σ E B) → Action σ E B
(m >>= f) s = resume f (m s)

abbrev pub ◌>>◌ : {σ E B : Type 0} → Action σ E (Unit {0}) → Action σ E B → Action σ E B
m >> k = m >>= λ _. k

abbrev pub done : {σ E A : Type 0} → Result E A → Action σ E A
done r s = (r, s)

abbrev pub failed : {D E A : Type 0} → (D → E) → Result D A → Result E A
failed f (ok a) = ok a
failed f (err e) = err (f e)

-- `.map_err(f)` behind a call.
abbrev pub map_action_err : {σ D E A : Type 0} → (D → E) → Action σ D A → Action σ E A
map_action_err f m s = let (r, after) = m s in (failed f r, after)
