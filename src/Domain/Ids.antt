-- ===== src/Domain/Ids.antt =====
-- crates/midnight-did-domain/src/ids.rs: the typed identifiers. `Deserialize` calls `new`.
use midnight_did_rs.Common.{
  ℕ, ◌≡◌, ◌↔◌, refl, sym, ap, ◌∙◌, arith, Bool, true, false, not, ◌||◌, ◌&&◌, ◌==◌, leb, Option,
  none, some, [], ◌∷◌, ◌++◌, Text, codes, any, is_empty, is_whitespace, starts_with, split_once,
  trim, Lacks, split_once_append, split_once_sound, if◌then◌else◌, Result, ok, err, ==_iff,
  &&-eq-true, trim-cons, ok-injective,
}

pub data IdError : Type 0 where
  empty missing_fragment_prefix bad_fragment_chars missing_did_fragment : IdError
  invalid_did_uri : Text → IdError

pub record DidKeyId : Type 0 where
  pub did_url : Text

pub record FragmentId : Type 0 where
  pub reference : Text

pub record ServiceId : Type 0 where
  pub name : Text

-- The `match` on the first `#`.
key_id_of : Text → Option (Text × Text) → Result IdError DidKeyId
key_id_of s none = err missing_did_fragment
key_id_of s (some (before, [])) = err missing_did_fragment
key_id_of s (some (before, c ∷ after)) = ok (record { did_url = s })

-- `DidKeyId::new`
unfoldable pub new_did_key_id : Text → Result IdError DidKeyId
unfolding key_id_of
new_did_key_id s =
    if is_empty (trim s)
    then err empty
    else if not (starts_with s (codes "did:"))
    then err (invalid_did_uri s)
    else key_id_of s (split_once b'#' s)

behind : Option (Text × Text) → Text
behind none = []
behind (some (before, after)) = after

-- `DidKeyId::fragment`
unfoldable pub key_fragment : DidKeyId → Text
unfolding behind
key_fragment id = behind (split_once b'#' id.did_url)

-- `char::is_control`
abbrev is_control : ℕ → Bool
is_control c = leb c 31 || (leb 127 c && leb c 159)

-- `FragmentId::new`; the text behind `#` is what `skip(1)` leaves.
unfoldable pub new_fragment_id : Text → Result IdError FragmentId
new_fragment_id [] = err empty
new_fragment_id (c ∷ body) =
    if not (c == b'#')
    then err missing_fragment_prefix
    else if is_empty body
    then err empty
    else if any (λ d. is_whitespace d || is_control d) body
    then err bad_fragment_chars
    else ok (record { reference = c ∷ body })

-- `ServiceId::new`
unfoldable pub new_service_id : Text → Result IdError ServiceId
new_service_id s = if is_empty (trim s) then err empty else ok (record { name = s })

-- A text that begins with `did:` and holds a `#` with a fragment behind the first one.
abbrev pub IsKeyId : Text → Text → Type 0
IsKeyId s fragment =
    (starts_with s (codes "did:") ≡ true)
    × ((before : Text) × (s ≡ before ++ b'#' ∷ fragment) × Lacks b'#' before)
    × (is_empty fragment ≡ false)

trim_did : (s : Text) → starts_with s (codes "did:") ≡ true → is_empty (trim s) ≡ false
unfolding starts_with is_whitespace
trim_did [] h = cc h
trim_did (c ∷ s) h = trim-cons c s (is_d c ((==_iff c b'd').0 (&&-eq-true (c == b'd') _ h).0))
  where
    is_d : (c : ℕ) → c ≡ b'd' → is_whitespace c ≡ false
    is_d c e = rw e refl

key_fragment-split_once :
    (id : DidKeyId) (s : Text) (o : Option (Text × Text))
    → id.did_url ≡ s
    → split_once b'#' s ≡ o
    → key_fragment id ≡ behind o
unfolding key_fragment
key_fragment-split_once id s o e h = ap (λ (u : Text). behind (split_once b'#' u)) e ∙ ap behind h

key_id_of_sound :
    (s : Text) (o : Option (Text × Text)) (id : DidKeyId)
    → split_once b'#' s ≡ o
    → key_id_of s o ≡ ok id
    → (id.did_url ≡ s)
      × ((before : Text) × (s ≡ before ++ b'#' ∷ key_fragment id) × Lacks b'#' before)
      × (is_empty (key_fragment id) ≡ false)
unfolding key_id_of behind
key_id_of_sound s none id h m = cc m
key_id_of_sound s (some (before, [])) id h m = cc m
key_id_of_sound s (some (before, c ∷ after)) id h m =
    let url = ap (λ (i : DidKeyId). i.did_url) (sym (ok-injective m)) in
    let (parts, lacks) = split_once_sound b'#' s before (c ∷ after) h in
    let frag : key_fragment id ≡ c ∷ after =
      key_fragment-split_once id s (some (before, c ∷ after)) url h in
    (
      url,
      (before, parts ∙ ap (λ (t : Text). before ++ b'#' ∷ t) (sym frag), lacks),
      ap (λ (t : Text). is_empty t) frag,
    )

key_id_of_complete :
    (s : Text) (id : DidKeyId) (before f : Text)
    → id.did_url ≡ s
    → is_empty f ≡ false
    → key_id_of s (some (before, f)) ≡ ok id
unfolding key_id_of
key_id_of_complete s id before [] e h = cc h
key_id_of_complete s id before (c ∷ f) e h = ap (λ (t : Text). ok (record { did_url = t })) (sym e)

-- `DidKeyId::new` accepts exactly the texts that begin with `did:` and hold a `#` with a fragment
-- that is not empty behind the first one, as they are, and `fragment` returns what stands behind
-- the first `#`.
pub new_did_key_id_iff :
    (s : Text) (id : DidKeyId)
    → (new_did_key_id s ≡ ok id) ↔ ((id.did_url ≡ s) × IsKeyId s (key_fragment id))
unfolding new_did_key_id
new_did_key_id_iff s id = (sound, complete)
  where
    sound : new_did_key_id s ≡ ok id → (id.did_url ≡ s) × IsKeyId s (key_fragment id)
    sound h =
        let (url, parts, full) = key_id_of_sound s (split_once b'#' s) id refl (ground arith) in
        (url, (ground arith, parts, full))

    complete : (id.did_url ≡ s) × IsKeyId s (key_fragment id) → new_did_key_id s ≡ ok id
    complete (url, (did, (before, e, lacks), full)) =
        let cut : split_once b'#' s ≡ some (before, key_fragment id) =
          ap (λ (t : Text). split_once b'#' t) e
          ∙ split_once_append b'#' before (key_fragment id) lacks in
        rw (trim_did s did, did, cut) (key_id_of_complete s id before (key_fragment id) url full)
