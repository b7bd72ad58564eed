-- ===== src/Common/Texts.antt =====
-- Rust's `str` as the list of its Unicode scalar values.
use Prim.Native.Nat.{ℕ, ◌+◌, ◌<◌}
use Prim.Native.Char.{code}
use Prim.Native.String.{String}
use mathlib.Core.Path.{◌≡◌, refl, sym, ap, ap₂, subst, ◌∙◌}
use mathlib.Core.Logic.{◌≢◌, ◌↔◌}
use mathlib.Core.Bool.{Bool, true, false, ◌&&◌, ◌||◌}
use mathlib.Core.Option.{Option, none, some}
use mathlib.Core.List.{List, [], ◌∷◌, ◌++◌}
use native.Mathlib.Omega.{arith}
use midnight_did_rs.Common.Tests.{ltb, leb, ◌==◌, if◌then◌else◌, ==_iff, &&-eq-true}
use midnight_did_rs.Common.Lists.{length, is_empty, all, All}

abbrev pub Text : Type 0
Text = List ℕ

-- The scalar values of a literal.
abbrev pub codes : String → Text
codes String.[] = []
codes (String.◌∷◌ c s) = code c ∷ codes s

-- The number of UTF-8 bytes of a scalar value, and `str::len`.
abbrev utf8_width : ℕ → ℕ
utf8_width c = if ltb c 128 then 1 else if ltb c 2048 then 2 else if ltb c 65536 then 3 else 4

abbrev pub str_len : Text → ℕ
str_len [] = 0
str_len (c ∷ s) = utf8_width c + str_len s

unfoldable pub text_eq : Text → Text → Bool
text_eq [] [] = true
text_eq [] (d ∷ t) = false
text_eq (c ∷ s) [] = false
text_eq (c ∷ s) (d ∷ t) = c == d && text_eq s t

unfoldable pub starts_with : Text → Text → Bool
starts_with s [] = true
starts_with [] (d ∷ p) = false
starts_with (c ∷ s) (d ∷ p) = c == d && starts_with s p

abbrev split_step : Bool → ℕ → Text → Option (Text × Text) → Option (Text × Text)
split_step true c s o = some ([], s)
split_step false c s none = none
split_step false c s (some (a, b)) = some (c ∷ a, b)

-- `str::split_once(c)`, which is also `find(c)` with the slices on both sides of the match.
unfoldable pub split_once : ℕ → Text → Option (Text × Text)
split_once sep [] = none
split_once sep (c ∷ s) = split_step (c == sep) c s (split_once sep s)

abbrev push_head : ℕ → List Text → List Text
push_head c [] = (c ∷ []) ∷ []
push_head c (p ∷ ps) = (c ∷ p) ∷ ps

-- `str::split(c)`: at least one part.
unfoldable pub split : ℕ → Text → List Text
split sep [] = [] ∷ []
split sep (c ∷ s) = let rest = split sep s in if c == sep then [] ∷ rest else push_head c rest

-- `char::is_whitespace`.
unfoldable pub is_whitespace : ℕ → Bool
is_whitespace c =
    (leb 9 c && leb c 13)
    || c == 32
    || c == 0x85
    || c == 0xA0
    || c == 0x1680
    || (leb 0x2000 c && leb c 0x200A)
    || c == 0x2028
    || c == 0x2029
    || c == 0x202F
    || c == 0x205F
    || c == 0x3000

trim_start : Text → Text
trim_start [] = []
trim_start (c ∷ s) = let rest = trim_start s in if is_whitespace c then rest else c ∷ s

-- Without the white space at the end.
trim_end : Text → Text
trim_end [] = []
trim_end (c ∷ s) = elim (trim_end s) [
  | [] ↦ if is_whitespace c then [] else c ∷ []
  | d ∷ t ↦ c ∷ d ∷ t
]

unfoldable pub trim : Text → Text
unfolding trim_start trim_end is_whitespace
trim s = trim_end (trim_start s)

trim_end-cons : (c : ℕ) (s : Text) → is_whitespace c ≡ false → is_empty (trim_end (c ∷ s)) ≡ false
unfolding trim_end
trim_end-cons c s h = kept (trim_end s)
  where
    kept :
        (t : Text)
        → is_empty (elim t [ [] ↦ if is_whitespace c then [] else c ∷ [] | d ∷ t ↦ c ∷ d ∷ t ])
          ≡ false
    kept [] = rw h refl
    kept (d ∷ t) = refl

-- White space is all that `trim` takes away.
pub trim-cons : (c : ℕ) (s : Text) → is_whitespace c ≡ false → is_empty (trim (c ∷ s)) ≡ false
unfolding trim trim_start
trim-cons c s h = rw h (trim_end-cons c s h)

-- `str::trim_end_matches(c)`.
unfoldable pub trim_end_matches : ℕ → Text → Text
trim_end_matches sep [] = []
trim_end_matches sep (c ∷ s) = elim (trim_end_matches sep s) [
  | [] ↦ if c == sep then [] else c ∷ []
  | d ∷ t ↦ c ∷ d ∷ t
]

-- The ASCII classes of `char` and `u8`.
abbrev pub is_digit : ℕ → Bool
is_digit c = leb b'0' c && leb c b'9'

abbrev pub is_lower : ℕ → Bool
is_lower c = leb b'a' c && leb c b'z'

abbrev pub is_upper : ℕ → Bool
is_upper c = leb b'A' c && leb c b'Z'

abbrev pub is_ascii_alphabetic : ℕ → Bool
is_ascii_alphabetic c = is_lower c || is_upper c

abbrev pub is_ascii_alphanumeric : ℕ → Bool
is_ascii_alphanumeric c = is_digit c || is_lower c || is_upper c

abbrev pub is_ascii_hexdigit : ℕ → Bool
is_ascii_hexdigit c = is_digit c || (leb b'a' c && leb c b'f') || (leb b'A' c && leb c b'F')

abbrev pub to_ascii_lowercase : ℕ → ℕ
to_ascii_lowercase c = if is_upper c then c + 32 else c

pub text_eq_refl : (s : Text) → text_eq s s ≡ true
unfolding text_eq
text_eq_refl [] = refl
text_eq_refl (c ∷ s) = ground (arith, text_eq_refl s)

pub text_eq_sound : (s t : Text) → text_eq s t ≡ true → s ≡ t
unfolding text_eq
text_eq_sound [] [] h = refl
text_eq_sound [] (d ∷ t) h = cc
text_eq_sound (c ∷ s) [] h = cc
text_eq_sound (c ∷ s) (d ∷ t) h =
    let (e, r) = &&-eq-true (c == d) (text_eq s t) h in
    ap₂ ◌∷◌ ((==_iff c d).0 e) (text_eq_sound s t r)

pub text_eq_iff : (s t : Text) → (text_eq s t ≡ true) ↔ (s ≡ t)
text_eq_iff s t =
    (text_eq_sound s t, λ (e : s ≡ t). ap (λ (u : Text). text_eq s u) (sym e) ∙ text_eq_refl s)

pub starts_with-append : (p s : Text) → starts_with (p ++ s) p ≡ true
unfolding starts_with
starts_with-append [] [] = refl
starts_with-append [] (c ∷ s) = refl
starts_with-append (d ∷ p) s = ground (arith, starts_with-append p s)

-- The separator does not occur.
abbrev pub Lacks : ℕ → Text → Type 0
Lacks sep = All (λ c. c ≢ sep)

pub split_once_append :
    (sep : ℕ) (a b : Text) → Lacks sep a → split_once sep (a ++ sep ∷ b) ≡ some (a, b)
unfolding split_once
split_once_append sep [] b h = ground arith
split_once_append sep (c ∷ a) b (hc, h) = ground (arith, split_once_append sep a b h)

pub split_once-Lacks : (sep : ℕ) (s : Text) → Lacks sep s → split_once sep s ≡ none
unfolding split_once
split_once-Lacks sep [] h = refl
split_once-Lacks sep (c ∷ s) (hc, h) = ground (arith, split_once-Lacks sep s h)

-- What the two slices of a match are.
abbrev Splits : ℕ → Text → Option (Text × Text) → Type 0
Splits sep s none = Lacks sep s
Splits sep s (some (a, b)) = (s ≡ a ++ sep ∷ b) × Lacks sep a

split_step-Splits :
    (sep c : ℕ) (s : Text) (t : Bool) (o : Option (Text × Text))
    → (c == sep) ≡ t
    → Splits sep s o
    → Splits sep (c ∷ s) (split_step t c s o)
split_step-Splits sep c s true o e h = (ap (λ (d : ℕ). d ∷ s) ((==_iff c sep).0 e), tt)
split_step-Splits sep c s false none e h = (ground arith, h)
split_step-Splits sep c s false (some (a, b)) e (p, h) =
    (ap (λ (t : Text). c ∷ t) p, (ground arith, h))

pub split_once-Splits : (sep : ℕ) (s : Text) → Splits sep s (split_once sep s)
unfolding split_once
split_once-Splits sep [] = tt
split_once-Splits sep (c ∷ s) =
    split_step-Splits sep c s (c == sep) (split_once sep s) refl (split_once-Splits sep s)

pub split_once_sound :
    (sep : ℕ) (s a b : Text) → split_once sep s ≡ some (a, b) → (s ≡ a ++ sep ∷ b) × Lacks sep a
split_once_sound sep s a b h = subst (Splits sep s) h (split_once-Splits sep s)

pub split-append : (sep : ℕ) (a b : Text) → Lacks sep a → split sep (a ++ sep ∷ b) ≡ a ∷ split sep b
unfolding split
split-append sep [] b h = ground arith
split-append sep (c ∷ a) b (hc, h) = ground (arith, split-append sep a b h)

pub split-Lacks : (sep : ℕ) (a : Text) → Lacks sep a → split sep a ≡ a ∷ []
unfolding split
split-Lacks sep [] h = refl
split-Lacks sep (c ∷ a) (hc, h) = ground (arith, split-Lacks sep a h)

-- The parts with `sep` between them.
abbrev pub join : ℕ → List Text → Text
join sep [] = []
join sep (p ∷ []) = p
join sep (p ∷ q ∷ ps) = p ++ sep ∷ join sep (q ∷ ps)

abbrev IsSplit : ℕ → Text → List Text → Type 0
IsSplit sep s [] = ⊥
IsSplit sep s (p ∷ ps) = (join sep (p ∷ ps) ≡ s) × All (Lacks sep) (p ∷ ps)

IsSplit-cases :
    (sep c : ℕ) (s : Text) (t : Bool) (ps : List Text)
    → (c == sep) ≡ t
    → IsSplit sep s ps
    → IsSplit sep (c ∷ s) (if t then [] ∷ ps else push_head c ps)
IsSplit-cases sep c s t [] e h = absurd h
IsSplit-cases sep c s true (p ∷ ps) e (h, l) =
    (ap₂ (λ (d : ℕ) (u : Text). d ∷ u) (sym ((==_iff c sep).0 e)) h, (tt, l))
IsSplit-cases sep c s false (p ∷ []) e (h, l) =
    (ap (λ (u : Text). c ∷ u) h, ((ground arith, l.0), tt))
IsSplit-cases sep c s false (p ∷ q ∷ ps) e (h, l) =
    (ap (λ (u : Text). c ∷ u) h, ((ground arith, l.0), l.1))

split-IsSplit : (sep : ℕ) (s : Text) → IsSplit sep s (split sep s)
unfolding split
split-IsSplit sep [] = (refl, (tt, tt))
split-IsSplit sep (c ∷ s) =
    IsSplit-cases sep c s (c == sep) (split sep s) refl (split-IsSplit sep s)

-- The parts are what `split` says: joined they are the text, and none holds the separator.
pub split_sound :
    (sep : ℕ) (s p : Text) (ps : List Text)
    → split sep s ≡ p ∷ ps
    → (join sep (p ∷ ps) ≡ s) × All (Lacks sep) (p ∷ ps)
split_sound sep s p ps h = subst (IsSplit sep s) h (split-IsSplit sep s)

pub trim_end_matches-Lacks : (sep : ℕ) (s : Text) → Lacks sep s → trim_end_matches sep s ≡ s
unfolding trim_end_matches
trim_end_matches-Lacks sep [] h = refl
trim_end_matches-Lacks sep (c ∷ s) (hc, h) = rw (trim_end_matches-Lacks sep s h) (last sep c s hc)
  where
    last :
        (sep c : ℕ) (s : Text)
        → c ≢ sep
        → (elim s [ [] ↦ if c == sep then [] else c ∷ [] | d ∷ t ↦ c ∷ d ∷ t ]) ≡ c ∷ s
    last sep c [] n = ground arith
    last sep c (d ∷ t) n = refl

pub trim_end_matches-append :
    (sep : ℕ) (s t : Text)
    → trim_end_matches sep t ≡ []
    → trim_end_matches sep (s ++ t) ≡ trim_end_matches sep s
unfolding trim_end_matches
trim_end_matches-append sep [] t h = h
trim_end_matches-append sep (c ∷ s) t h = rw (trim_end_matches-append sep s t h)

pub Lacks-of_all :
    (sep : ℕ) (p : ℕ → Bool) (s : Text) → p sep ≡ false → all p s ≡ true → Lacks sep s
Lacks-of_all sep p [] f h = tt
Lacks-of_all sep p (c ∷ s) f h =
    let (hc, hs) = &&-eq-true (p c) (all p s) h in
    ((λ (e : c ≡ sep). cc (ap p e)), Lacks-of_all sep p s f hs)

-- On ASCII text `len` counts the characters.
pub str_len-ascii : (s : Text) → All (λ c. c < 128) s → str_len s ≡ length s
str_len-ascii [] h = refl
str_len-ascii (c ∷ s) (hc, h) = ground (arith, str_len-ascii s h)
