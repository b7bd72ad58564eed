-- ===== src/Method/Offchain/Projection/Projected.antt =====
-- What the projection of an off-chain state shows.
use midnight_did_rs.Common.{◌≡◌, [], ◌∷◌, codes, map}
use midnight_did_rs.Domain.Codecs.{Base64}
use midnight_did_rs.Domain.Uri.{UrlParser}
use midnight_did_rs.Domain.Methods.Accepted.{method_of}
use midnight_did_rs.Domain.Document.{many_contexts}
use midnight_did_rs.Method.Did.{MidnightDidString}
use midnight_did_rs.Method.Offchain.State.{OffchainVerificationMethod, OffchainMidnightDidState}
use midnight_did_rs.Method.Offchain.Projection.Selected.{Shown, Lists}
use midnight_did_rs.Method.Offchain.Projection.{OffchainProjectedDocument, new_of}
use midnight_did_rs.Method.Offchain.Projection.Accepted.{projected_service}

module _ (engine : Base64) (urls : UrlParser) where
  -- What a document shows of a state under a DID string.
  pub record Projects (did : MidnightDidString) (state : OffchainMidnightDidState)
      (doc : OffchainProjectedDocument) : Type 0 where
    pub context :
        doc.context
        ≡ many_contexts (
            codes "https://www.w3.org/ns/did/v1"
            ∷ codes "https://w3c.github.io/vc-jws-2020/contexts/v1"
            ∷ [])
    pub id : doc.id.did ≡ did.value
    pub also_known_as : Shown state.also_known_as doc.also_known_as
    pub controller : doc.controller ≡ did
    pub methods :
        doc.verification_method
        ≡ map
            (λ (m : OffchainVerificationMethod). method_of engine urls (new_of did m))
            state.verification_method
    pub authentication : Lists (λ r. r.authentication) state.verification_method doc.authentication
    pub assertion_method :
        Lists (λ r. r.assertion_method) state.verification_method doc.assertion_method
    pub key_agreement : Lists (λ r. r.key_agreement) state.verification_method doc.key_agreement
    pub capability_invocation :
        Lists (λ r. r.capability_invocation) state.verification_method doc.capability_invocation
    pub capability_delegation :
        Lists (λ r. r.capability_delegation) state.verification_method doc.capability_delegation
    pub services : Shown (map (projected_service engine urls) state.service) doc.service
