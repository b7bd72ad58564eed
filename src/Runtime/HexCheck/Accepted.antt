-- ===== src/Runtime/HexCheck/Accepted.antt =====
-- Which texts the hex checks accept.
use midnight_did_rs.Common.{
  ℕ, ◌+◌, ◌*◌, ◌<◌, ◌≡◌, ◌↔◌, refl, sym, ap, codes, ok-injective, true, false, [], ◌∷◌, Text,
  str_len-ascii, length, all, is_empty, is_ascii_hexdigit, ok, Result-cases, >>=-eq-ok, arith, inl,
  inr,
}
use midnight_did_rs.Runtime.HexCheck.{
  check_digits, validate_hex, validate_hex_exact, JubjubPointHex, new_point,
  jubjub_coordinate_bytes,
}
use midnight_did_rs.Method.Did.Subject.{hex_ascii}

-- Hex digits for exactly `n` bytes, and `n` is not 0.
abbrev pub IsHexOf : ℕ → Text → Type 0
IsHexOf n s = (all is_ascii_hexdigit s ≡ true) × (length s ≡ 2 * n) × (0 < n)

check_digits_iff :
    (field : Text) (idx : ℕ) (s : Text)
    → (check_digits field idx s ≡ ok tt) ↔ (all is_ascii_hexdigit s ≡ true)
unfolding check_digits
check_digits_iff field idx [] = ((λ _. refl), λ _. refl)
check_digits_iff field idx (ch ∷ s) =
    let (sound, complete) = check_digits_iff field (idx + 1) s in
    ((λ h. ground (arith, sound)), (λ h. ground (arith, complete)))

not_empty_iff : (s : Text) → (is_empty s ≡ false) ↔ (0 < length s)
not_empty_iff [] = ((λ h. absurd (cc h)), λ h. absurd (omega (arith, h)))
not_empty_iff (c ∷ s) = ((λ _. omega arith), λ _. refl)

-- A text passes the check for `n` bytes exactly if it is `2 * n` hex digits and not empty: its
-- length in bytes, which the code measures, is then its number of digits.
pub validate_hex_exact_iff :
    (s : Text) (n : ℕ) (field : Text) → (validate_hex_exact s n field ≡ ok tt) ↔ IsHexOf n s
unfolding validate_hex_exact validate_hex
validate_hex_exact_iff s n field = (
  (λ h. elim (Result-cases (check_digits field 0 s)) [
    | inr (e, c) ↦ absurd (ground arith)
    | inl (_, c) ↦
        let digits = (check_digits_iff field 0 s).0 c in
        let len = str_len-ascii s (hex_ascii s digits) in
        let long = (not_empty_iff s).0 (ground arith) in
        (digits, ground (arith, len), ground (arith, len, long))
  ]),
  (λ h.
      let (digits, len, pos) = h in
      let same = str_len-ascii s (hex_ascii s digits) in
      let full = (not_empty_iff s).1 (omega (arith, len, pos)) in
      ground (arith, (check_digits_iff field 0 s).1 digits)),
)

-- The constructors of the three ledger values accept exactly the well-formed ones, and return
-- what they were given.
pub new_point_iff :
    (args p : JubjubPointHex)
    → (new_point args ≡ ok p) ↔ (
        (p ≡ args)
        × IsHexOf jubjub_coordinate_bytes args.x
        × IsHexOf jubjub_coordinate_bytes args.y)
unfolding new_point
new_point_iff args p =
    let (xs, xc) = validate_hex_exact_iff args.x 32 (codes "JubjubPointHex.x") in
    let (ys, yc) = validate_hex_exact_iff args.y 32 (codes "JubjubPointHex.y") in
    (
      (λ h.
          let (_, hx, h1) =
            >>=-eq-ok (validate_hex_exact args.x 32 (codes "JubjubPointHex.x")) _ h in
          let (_, hy, h2) =
            >>=-eq-ok (validate_hex_exact args.y 32 (codes "JubjubPointHex.y")) _ h1 in
          (sym (ok-injective h2), xs hx, ys hy)),
      (λ h. rw (xc h.1, yc h.2) (ap ok (sym h.0))),
    )
