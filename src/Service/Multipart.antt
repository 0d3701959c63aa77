-- ===== src/Service/Multipart.antt =====
-- backend/crates/object-service/src/multipart_create.rs and multipart_commit.rs. The trait's operations
-- are parameters, functions of the world `W`.
use grove_storage.Prelude.{
  ◌≡◌, refl, ap, Bool, true, false, Option, none, some, List, [], ◌∷◌, ◌++◌, Text,
}
use grove_storage.Policy.Validation.{Observed, seen, failed}
use grove_storage.Service.Commit.{Outcome, done, fail}

pub record MultipartCreate (W E : Type 0) : Type 0 where
  pub create_vendor_upload : W → Observed E Text × W
  pub attach_vendor_upload : Text → W → Observed E (Unit {0}) × W
  pub prepare_relay : W → Observed E (Unit {0}) × W
  pub compensate : Option Text → W → W

module _ {W E : Type 0} where
  abbrev pub after_prepare :
      MultipartCreate W E → Text → Observed E (Unit {0}) × W → Outcome E (Unit {0}) × W
  after_prepare ops id (failed e, w) = (fail e, ops.compensate (some id) w)
  after_prepare ops id (seen u, w) = (done u, w)

  abbrev pub after_attach :
      MultipartCreate W E → Text → Observed E (Unit {0}) × W → Outcome E (Unit {0}) × W
  after_attach ops id (failed e, w) = (fail e, ops.compensate (some id) w)
  after_attach ops id (seen u, w) = after_prepare ops id (ops.prepare_relay w)

  abbrev pub after_create : MultipartCreate W E → Observed E Text × W → Outcome E (Unit {0}) × W
  after_create ops (failed e, w) = (fail e, ops.compensate none w)
  after_create ops (seen id, w) = after_attach ops id (ops.attach_vendor_upload id w)

  unfoldable pub initialize : MultipartCreate W E → W → Outcome E (Unit {0}) × W
  initialize ops w = after_create ops (ops.create_vendor_upload w)

pub record MultipartCommit (W E P : Type 0) : Type 0 where
  pub prepare : W → Observed E (Option P) × W
  pub complete : P → W → Observed E (Option Text) × W
  pub finalize : Text → W → Observed E Bool × W

pub data MultipartError (E : Type 0) : Type 0 where
  operation : E → MultipartError E
  ownership_lost : MultipartError E

module _ {W E : Type 0} where
  abbrev pub after_finalize :
      Text → Observed E Bool × W → Outcome (MultipartError E) (Option Text) × W
  after_finalize etag (failed e, w) = (fail (operation e), w)
  after_finalize etag (seen true, w) = (done (some etag), w)
  after_finalize etag (seen false, w) = (done none, w)

module _ {W E P : Type 0} where
  abbrev pub after_complete :
      MultipartCommit W E P
      → Observed E (Option Text) × W
      → Outcome (MultipartError E) (Option Text) × W
  after_complete ops (failed e, w) = (fail (operation e), w)
  after_complete ops (seen none, w) = (fail ownership_lost, w)
  after_complete ops (seen (some etag), w) = after_finalize etag (ops.finalize etag w)

  abbrev pub after_claim :
      MultipartCommit W E P
      → Observed E (Option P) × W
      → Outcome (MultipartError E) (Option Text) × W
  after_claim ops (failed e, w) = (fail (operation e), w)
  after_claim ops (seen none, w) = (done none, w)
  after_claim ops (seen (some p), w) = after_complete ops (ops.complete p w)

  unfoldable pub commit_multipart :
      MultipartCommit W E P → W → Outcome (MultipartError E) (Option Text) × W
  commit_multipart ops w = after_claim ops (ops.prepare w)

-- The calls of an initialization, in their order.
pub data Call : Type 0 where
  created attached prepared : Call
  compensated : Option Text → Call

-- Operations that answer as given and write down each call.
abbrev pub recording :
    {E : Type 0}
    → Observed E Text
    → Observed E (Unit {0})
    → Observed E (Unit {0})
    → MultipartCreate (List Call) E
recording create attach prepare = record {
  create_vendor_upload = λ w. (create, w ++ created ∷ []);
  attach_vendor_upload = λ id w. (attach, w ++ attached ∷ []);
  prepare_relay = λ w. (prepare, w ++ prepared ∷ []);
  compensate = λ id w. w ++ compensated id ∷ [];
}

abbrev pub handle_of : {E : Type 0} → Observed E Text → Option Text
handle_of (failed e) = none
handle_of (seen id) = some id

-- The compensations among the calls.
abbrev pub compensations : List Call → List (Option Text)
compensations [] = []
compensations (compensated id ∷ calls) = id ∷ compensations calls
compensations (created ∷ calls) = compensations calls
compensations (attached ∷ calls) = compensations calls
compensations (prepared ∷ calls) = compensations calls

abbrev pub expected_compensations :
    {E : Type 0} → Outcome E (Unit {0}) → Option Text → List (Option Text)
expected_compensations (done u) id = []
expected_compensations (fail e) id = id ∷ []

-- Whatever the operations answer, an initialization that fails compensates exactly once, with the
-- vendor's handle if there is one, and one that succeeds never does.
pub compensations-initialize :
    {E : Type 0} (create : Observed E Text) (attach prepare : Observed E (Unit {0}))
    → compensations (initialize (recording create attach prepare) []).1
      ≡ expected_compensations
          (initialize (recording create attach prepare) []).0
          (handle_of create)
unfolding initialize
compensations-initialize (failed e) attach prepare = refl
compensations-initialize (seen id) (failed e) prepare = refl
compensations-initialize (seen id) (seen u) (failed e) = refl
compensations-initialize (seen id) (seen u) (seen v) = refl

module _ {W E P : Type 0} (ops : MultipartCommit W E P) where
  -- A multipart commit that answers an ETag has claimed a snapshot of the parts, completed exactly
  -- that snapshot with this ETag, and finalized with it.
  pub commit_multipart_done :
      (w : W) (etag : Text)
      → (commit_multipart ops w).0 ≡ done (some etag)
      → (p : P) × ((ops.prepare w).0 ≡ seen (some p))
        × ((ops.complete p (ops.prepare w).1).0 ≡ seen (some etag))
        × ((ops.finalize etag (ops.complete p (ops.prepare w).1).1).0 ≡ seen true)
  unfolding commit_multipart
  commit_multipart_done w etag h = claimed (ops.prepare w) h
    where
      finalized :
          (made : Text) (answer : Observed E Bool × W)
          → (after_finalize made answer).0 ≡ done (some etag)
          → (made ≡ etag) × (answer.0 ≡ seen true)
      finalized made (failed e, w) h = cc
      finalized made (seen true, w) h = (cc h, refl)
      finalized made (seen false, w) h = cc

      completed :
          (answer : Observed E (Option Text) × W)
          → (after_complete ops answer).0 ≡ done (some etag)
          → (answer.0 ≡ seen (some etag)) × ((ops.finalize etag answer.1).0 ≡ seen true)
      completed (failed e, w) h = cc
      completed (seen none, w) h = cc
      completed (seen (some made), w) h =
          let (same, won) = finalized made (ops.finalize made w) h in
          (ap (λ t. seen (some t)) same, rw same at won)

      claimed :
          (answer : Observed E (Option P) × W)
          → (after_claim ops answer).0 ≡ done (some etag)
          → (p : P) × (answer.0 ≡ seen (some p))
            × ((ops.complete p answer.1).0 ≡ seen (some etag))
            × ((ops.finalize etag (ops.complete p answer.1).1).0 ≡ seen true)
      claimed (failed e, w) h = cc
      claimed (seen none, w) h = cc
      claimed (seen (some p), w) h =
          let (made, won) = completed (ops.complete p w) h in (p, refl, made, won)
