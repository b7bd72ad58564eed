-- ===== src/Domain/Document/Loops.antt =====
-- The loops of `DidDocument::validate` over keys: when they find no issue.
use midnight_did_rs.Common.{
  ℕ, ◌+◌, ◌≡◌, ◌≢◌, refl, subst, Bool, true, false, ◌||◌, not, List, [], ◌∷◌, ◌++◌, Text, text_eq,
  text_eq_refl, text_eq_sound, All, if◌then◌else◌, arith, decimal, codes,
}
use mathlib.Core.List.{concat-ne-nil}
use midnight_did_rs.Domain.Validation.{ValidationIssue, issue_at}
use midnight_did_rs.Domain.Document.{
  contains, insert_if, append_if, method_loop, relation_loop, endpoint_loop,
}

-- No key is in `seen`, and none comes twice.
abbrev pub Fresh : List Text → List Text → Type 0
Fresh seen [] = Unit {0}
Fresh seen (key ∷ keys) = (contains seen key ≡ false) × Fresh (key ∷ seen) keys

-- No key comes twice.
abbrev pub Distinct : List Text → Type 0
Distinct [] = Unit {0}
Distinct (key ∷ keys) = All (λ other. other ≢ key) keys × Distinct keys

pub append_if-nil :
    (test : Bool) (i : ValidationIssue) (issues : List ValidationIssue)
    → append_if test i issues ≡ []
    → (test ≡ false) × (issues ≡ [])
append_if-nil true i issues h = absurd (concat-ne-nil i issues h)
append_if-nil false i issues h = (refl, h)

pub method_loop_sound :
    (index : ℕ) (seen : List Text) (issues : List ValidationIssue) (ids : List Text)
    → (method_loop index seen issues ids).1 ≡ []
    → (issues ≡ []) × Fresh seen ids
unfolding method_loop
method_loop_sound index seen issues [] h = (h, tt)
method_loop_sound index seen issues (c ∷ ids) h =
    let (a, f) = method_loop_sound (index + 1) _ _ ids h in
    let (old, none) = append_if-nil (contains seen c) _ issues a in
    (none, (old, subst (λ (b : Bool). Fresh (insert_if (not b) c seen) ids) old f))

pub method_loop_complete :
    (index : ℕ) (seen ids : List Text) → Fresh seen ids → (method_loop index seen [] ids).1 ≡ []
unfolding method_loop
method_loop_complete index seen [] h = refl
method_loop_complete index seen (c ∷ ids) (new, f) =
    rw (new, method_loop) (method_loop_complete (index + 1) (c ∷ seen) ids f)

pub relation_loop_sound :
    (known : List Text) (name : Text) (index : ℕ) (seen : List Text) (issues : List ValidationIssue)
    (ids : List Text)
    → relation_loop known name index seen issues ids ≡ []
    → (issues ≡ []) × Fresh seen ids × All (λ c. contains known c ≡ true) ids
unfolding relation_loop
relation_loop_sound known name index seen issues [] h = (h, tt, tt)
relation_loop_sound known name index seen issues (c ∷ ids) h =
    let (a, f, k) = relation_loop_sound known name (index + 1) _ _ ids h in
    let (old, missing, none) =
      both (contains seen c) (contains known c)
        (issue_at (name ++ codes " must not contain duplicate entries") (name ∷ decimal index ∷ []))
        (issue_at (name ++ codes " references a verificationMethod id that does not exist")
          (name ∷ decimal index ∷ []))
        issues a in
    (none, (old, subst (λ (b : Bool). Fresh (insert_if (not b) c seen) ids) old f), (missing, k))
  where
    both :
        (old there : Bool) (i j : ValidationIssue) (issues : List ValidationIssue)
        → (if old then append_if true i issues else append_if (not there) j issues) ≡ []
        → (old ≡ false) × (there ≡ true) × (issues ≡ [])
    both true there i j issues h = absurd (concat-ne-nil i issues h)
    both false true i j issues h = (refl, refl, h)
    both false false i j issues h = absurd (concat-ne-nil j issues h)

pub relation_loop_complete :
    (known : List Text) (name : Text) (index : ℕ) (seen ids : List Text)
    → Fresh seen ids
    → All (λ c. contains known c ≡ true) ids
    → relation_loop known name index seen [] ids ≡ []
unfolding relation_loop
relation_loop_complete known name index seen [] h k = refl
relation_loop_complete known name index seen (c ∷ ids) (new, f) (there, k) =
    rw (new, there, relation_loop)
      (relation_loop_complete known name (index + 1) (c ∷ seen) ids f k)

pub endpoint_loop_sound :
    (index endpoint_index : ℕ) (seen : List Text) (issues : List ValidationIssue) (keys : List Text)
    → endpoint_loop index endpoint_index seen issues keys ≡ []
    → (issues ≡ []) × Fresh seen keys
unfolding endpoint_loop
endpoint_loop_sound index e seen issues [] h = (h, tt)
endpoint_loop_sound index e seen issues (c ∷ keys) h =
    let (a, f) = endpoint_loop_sound index (e + 1) _ _ keys h in
    let (old, none) = append_if-nil (contains seen c) _ issues a in
    (none, (old, subst (λ (b : Bool). Fresh (insert_if (not b) c seen) keys) old f))

pub endpoint_loop_complete :
    (index endpoint_index : ℕ) (seen keys : List Text)
    → Fresh seen keys
    → endpoint_loop index endpoint_index seen [] keys ≡ []
unfolding endpoint_loop
endpoint_loop_complete index e seen [] h = refl
endpoint_loop_complete index e seen (c ∷ keys) (new, f) =
    rw (new, endpoint_loop) (endpoint_loop_complete index (e + 1) (c ∷ seen) keys f)

contains_same :
    (seen : List Text) (c key : Text)
    → contains seen c ≡ true
    → text_eq c key ≡ true
    → contains seen key ≡ true
contains_same seen c key h e =
    subst (λ (k : Text). contains seen k ≡ true) (text_eq_sound c key e) h

insert_cases :
    (old : Bool) (seen : List Text) (c key : Text)
    → contains seen c ≡ old
    → contains (insert_if (not old) c seen) key ≡ (text_eq c key || contains seen key)
unfolding contains
insert_cases true seen c key h = ground (arith, contains_same seen c key h)
insert_cases false seen c key h = refl

-- The set that `method_loop` fills holds the ids, with what it held before.
pub contains-method_loop :
    (index : ℕ) (seen : List Text) (issues : List ValidationIssue) (ids : List Text) (key : Text)
    → contains (method_loop index seen issues ids).0 key ≡ (contains ids key || contains seen key)
unfolding method_loop contains
contains-method_loop index seen issues [] key = refl
contains-method_loop index seen issues (c ∷ ids) key = ground (
  arith,
  contains-method_loop (index + 1) (insert_if (not (contains seen c)) c seen)
      (append_if (contains seen c)
        (issue_at (codes "verificationMethod ids must be unique")
          (codes "verificationMethod" ∷ decimal index ∷ codes "id" ∷ []))
        issues)
      ids key,
  insert_cases (contains seen c) seen c key refl,
)

fresh_parts :
    (key : Text) (seen keys : List Text)
    → All (λ c. contains (key ∷ seen) c ≡ false) keys
    → All (λ other. other ≢ key) keys × All (λ c. contains seen c ≡ false) keys
unfolding contains
fresh_parts key seen [] h = (tt, tt)
fresh_parts key seen (c ∷ keys) (hc, h) =
    let (a, b) = fresh_parts key seen keys h in
    ((ground (arith, text_eq_refl key), a), (ground arith, b))

fresh_join :
    (key : Text) (seen keys : List Text)
    → All (λ other. other ≢ key) keys
    → All (λ c. contains seen c ≡ false) keys
    → All (λ c. contains (key ∷ seen) c ≡ false) keys
unfolding contains
fresh_join key seen [] a b = tt
fresh_join key seen (c ∷ keys) (n, a) (e, b) =
    (ground (arith, text_eq_sound key c), fresh_join key seen keys a b)

pub Distinct-of_Fresh :
    (seen keys : List Text)
    → Fresh seen keys
    → Distinct keys × All (λ c. contains seen c ≡ false) keys
Distinct-of_Fresh seen [] h = (tt, tt)
Distinct-of_Fresh seen (key ∷ keys) (new, f) =
    let (d, a) = Distinct-of_Fresh (key ∷ seen) keys f in
    let (n, o) = fresh_parts key seen keys a in ((n, d), (new, o))

pub Fresh-of_Distinct :
    (seen keys : List Text)
    → Distinct keys
    → All (λ c. contains seen c ≡ false) keys
    → Fresh seen keys
Fresh-of_Distinct seen [] d a = tt
Fresh-of_Distinct seen (key ∷ keys) (n, d) (new, a) =
    (new, Fresh-of_Distinct (key ∷ seen) keys d (fresh_join key seen keys n a))
