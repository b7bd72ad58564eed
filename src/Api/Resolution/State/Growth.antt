-- ===== src/Api/Resolution/State/Growth.antt =====
-- What the loops of `ledger_state_to_did_document` over the two tables of methods collect.
use midnight_did_rs.Common.{
  ◌≡◌, refl, sym, ap, ◌∙◌, subst, true, not, ◌||◌, Option, List, [], ◌∷◌, ◌++◌, append-nil,
  append_assoc, Text, All, map, arith, Result, ok, guard, map_err, map_err-eq-ok, guard-eq-ok,
  >>=-eq-ok, ok-injective,
}
use midnight_did_rs.Domain.Names.{DidKeyId}
use midnight_did_rs.Domain.Methods.{VerificationMethod, NewVerificationMethod, new_method}
use midnight_did_rs.Domain.Methods.Accepted.{new_method_iff}
use midnight_did_rs.Domain.Document.{or_nil, contains}
use midnight_did_rs.Domain.Document.Loops.{Fresh}
use midnight_did_rs.Domain.Jwk.{PublicKeyJwk, VerificationMethodType, json_web_key}
use midnight_did_rs.Runtime.Ledger.{
  DidLedgerSnapshot, LedgerVerificationMethod, LedgerSchnorrJubjubVerificationMethod,
}
use midnight_did_rs.Api.Errors.{ApiError, validation_error}
use midnight_did_rs.Api.Resolution.Ids.{verification_method_fragment_id, absolute_did_url_reference}
use midnight_did_rs.Api.Resolution.Keys.{schnorr_jubjub_pk_to_jwk}
use midnight_did_rs.Api.Resolution.State.{
  Crates, Collected, collect, method_entries, schnorr_entries, non_empty,
}

abbrev pub key_of : {A : Type 0} → Text × A → Text
key_of (key, a) = key

-- The keys of the two tables of methods.
abbrev pub method_keys : DidLedgerSnapshot → List Text
method_keys state =
    map key_of state.verification_methods ++ map key_of state.schnorr_jubjub_verification_methods

-- The form that the code compares: a DID URL with a fragment is kept whole.
abbrev pub normal_ids : List Text → List Text
normal_ids keys = map verification_method_fragment_id keys

abbrev pub ids_of : List VerificationMethod → List Text
ids_of methods = map (λ (vm : VerificationMethod). vm.id.key_id) methods

abbrev pub key_texts : Option (List DidKeyId) → List Text
key_texts keys = map (λ (k : DidKeyId). k.key_id) (or_nil keys)

abbrev pub pushed : List Text → List Text → List Text
pushed seen [] = seen
pushed seen (k ∷ ks) = pushed (k ∷ seen) ks

pub map-append :
    {A B : Type 0} (f : A → B) (xs ys : List A) → map f (xs ++ ys) ≡ map f xs ++ map f ys
map-append f [] ys = refl
map-append f (x ∷ xs) ys = ap (λ (t : List _). f x ∷ t) (map-append f xs ys)

Fresh-append :
    (seen ks ls : List Text) → Fresh seen ks → Fresh (pushed seen ks) ls → Fresh seen (ks ++ ls)
Fresh-append seen [] ls f g = g
Fresh-append seen (k ∷ ks) ls (new, f) g = (new, Fresh-append (k ∷ seen) ks ls f g)

pushed-append : (seen ks ls : List Text) → pushed (pushed seen ks) ls ≡ pushed seen (ks ++ ls)
pushed-append seen [] ls = refl
pushed-append seen (k ∷ ks) ls = pushed-append (k ∷ seen) ks ls

contains-pushed :
    (seen ks : List Text) (key : Text)
    → contains (pushed seen ks) key ≡ (contains ks key || contains seen key)
unfolding contains
contains-pushed seen [] key = refl
contains-pushed seen (k ∷ ks) key = ground (arith, contains-pushed (k ∷ seen) ks key)

pub known_pushed :
    (ks seen : List Text) (key : Text)
    → seen ≡ pushed [] ks
    → contains seen key ≡ true
    → contains ks key ≡ true
unfolding contains
known_pushed ks seen key e t =
    let all_pushed = ap (λ (l : List Text). contains l key) e ∙ contains-pushed [] ks key in
    ground (arith, all_pushed)

pub or_nil-non_empty : {A : Type 0} (xs : List A) → or_nil (non_empty xs) ≡ xs
or_nil-non_empty [] = refl
or_nil-non_empty (x ∷ xs) = refl

-- A part of the loops: the ids that it adds, in their order.
abbrev pub Grows : Text → List Text → Collected → Collected → Type 0
Grows did keys before after =
    Fresh before.seen_ids (normal_ids keys)
    × (after.seen_ids ≡ pushed before.seen_ids (normal_ids keys))
    × (ids_of after.methods ≡ ids_of before.methods ++ map (absolute_did_url_reference did) keys)

pub All-imp :
    {A : Type 0} (P Q : A → Type 0) → ((a : A) → P a → Q a) → (xs : List A) → All P xs → All Q xs
All-imp P Q f [] h = tt
All-imp P Q f (x ∷ xs) (p, h) = (f x p, All-imp P Q f xs h)

none_added : (did : Text) (before after : Collected) → before ≡ after → Grows did [] before after
none_added did before after e = (
  tt,
  ap (λ (c : Collected). c.seen_ids) (sym e),
  ap (λ (c : Collected). ids_of c.methods) (sym e) ∙ sym (append-nil (ids_of before.methods)),
)

module _ (crates : Crates) (did : Text) where
  collect-Grows :
      (id : Text) (jwk : Result ApiError PublicKeyJwk)
      (typ : Result ApiError VerificationMethodType) (before after : Collected)
      → collect crates did id jwk typ before ≡ ok after
      → Grows did (id ∷ []) before after
  unfolding collect
  collect-Grows id jwk typ before after h =
      let (key, _, h1) = >>=-eq-ok jwk _ h in
      let (_, g, h2) =
        >>=-eq-ok (guard (not (contains before.seen_ids (verification_method_fragment_id id))) _) _
          h1 in
      let (type_, _, h3) = >>=-eq-ok typ _ h2 in
      let input : NewVerificationMethod = record {
        id = absolute_did_url_reference did id;
        type_ = type_;
        controller = did;
        public_key_jwk = key;
      } in
      let (vm, made, h4) =
        >>=-eq-ok (map_err validation_error (new_method crates.engine crates.urls input)) _ h3 in
      let fresh = guard-eq-ok _ _ g in
      let (same, _, _, _) =
        (new_method_iff crates.engine crates.urls input vm).0 (map_err-eq-ok _ _ made) in
      (
        (ground arith, tt),
        ap (λ (c : Collected). c.seen_ids) (sym (ok-injective h4)),
        ap (λ (c : Collected). ids_of c.methods) (sym (ok-injective h4))
            ∙ map-append (λ (m : VerificationMethod). m.id.key_id) before.methods (vm ∷ [])
            ∙ ap (λ (m : VerificationMethod). ids_of before.methods ++ m.id.key_id ∷ []) same,
      )

  pub Grows-append :
      (ks ls : List Text) (b c d : Collected)
      → Grows did ks b c
      → Grows did ls c d
      → Grows did (ks ++ ls) b d
  Grows-append ks ls b c d (f1, s1, m1) (f2, s2, m2) =
      let split_ks = map-append verification_method_fragment_id ks ls in
      (
        subst (λ (t : List Text). Fresh b.seen_ids t) (sym split_ks)
            (Fresh-append b.seen_ids (normal_ids ks) (normal_ids ls) f1
              (subst (λ (t : List Text). Fresh t (normal_ids ls)) s1 f2)),
        s2
            ∙ ap (λ (t : List Text). pushed t (normal_ids ls)) s1
            ∙ pushed-append b.seen_ids (normal_ids ks) (normal_ids ls)
            ∙ ap (λ (t : List Text). pushed b.seen_ids t) (sym split_ks),
        m2
            ∙ ap (λ (t : List Text). t ++ map (absolute_did_url_reference did) ls) m1
            ∙ append_assoc (ids_of b.methods) (map (absolute_did_url_reference did) ks) _
            ∙ ap (λ (t : List Text). ids_of b.methods ++ t)
                (sym (map-append (absolute_did_url_reference did) ks ls)),
      )

  pub method_entries-Grows :
      (entries : List (Text × LedgerVerificationMethod)) (before after : Collected)
      → method_entries crates did entries before ≡ ok after
      → Grows did (map key_of entries) before after
  unfolding method_entries
  method_entries-Grows [] before after h = none_added did before after (ok-injective h)
  method_entries-Grows ((id, method) ∷ rest) before after h =
      let (between, h1, h2) = >>=-eq-ok (collect crates did id _ _ before) _ h in
      Grows-append (id ∷ []) (map key_of rest) before between after
        (collect-Grows id _ _ before between h1) (method_entries-Grows rest between after h2)

  pub schnorr_entries-Grows :
      (entries : List (Text × LedgerSchnorrJubjubVerificationMethod)) (before after : Collected)
      → schnorr_entries crates did entries before ≡ ok after
      → Grows did (map key_of entries) before after
  unfolding schnorr_entries
  schnorr_entries-Grows [] before after h = none_added did before after (ok-injective h)
  schnorr_entries-Grows ((id, method) ∷ rest) before after h =
      let jwk = schnorr_jubjub_pk_to_jwk crates.engine crates.decode_hex method in
      let (between, h1, h2) =
        >>=-eq-ok (collect crates did id jwk (ok json_web_key) before)
          (schnorr_entries crates did rest) h in
      Grows-append (id ∷ []) (map key_of rest) before between after
        (collect-Grows id jwk (ok json_web_key) before between h1)
        (schnorr_entries-Grows rest between after h2)
