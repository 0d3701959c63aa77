-- ===== src/Lifecycle/PartClaims.antt =====
-- A part of a relayed upload that is claimed and given up: claim_relay_part and cancel_relay_part of
-- backend/crates/db/src/files/multipart.rs.
use grove_storage.Prelude.{
  ℕ, ◌≡◌, refl, sym, ap, Bool, true, false, List, [], ◌∷◌, ◌++◌, ◌&&◌, ◌==◌, not, is_some, arith,
  All, Bool-cases, inl, inr,
}
use grove_storage.Table.{
  exists_where, update_where, delete_where, affected, affected_of_none, exists-update_keep,
  exists_mono_none, exists_mono, affected_of_exists,
}
use grove_storage.Db.Schema.{Db, Clock, Lease, LeasePart, claimed, done}
use grove_storage.Db.Where.{part_at, write_lease_of, upload_of, pending_multipart}
use grove_storage.Db.Tx.{ok}
use grove_storage.Files.Multipart.{
  part_claimed, claim_relay_part, claim_relay_part_tx, claim_part, cancel_relay_part,
  cancel_relay_part_tx, done_part, measured_claim, first_claim, new_part, live_lease, extend,
}
use grove_storage.Lifecycle.Rules.{hit}

-- The primary key of `lease_parts`, and that a done part has its measurement.
abbrev pub OnePart : List LeasePart → Type 0
OnePart [] = Unit {0}
OnePart (p ∷ ps) = (exists_where (part_at p.lease_id p.part_no) ps ≡ false) × OnePart ps

abbrev pub measured_if_done : LeasePart → Bool
measured_if_done p = elim p.state [
  | claimed ↦ true
  | done ↦ is_some p.uploaded_size && is_some p.uploaded_md5
]

abbrev given_up : ℕ → ℕ → List LeasePart → List LeasePart
given_up l n ps =
    delete_where (λ p. first_claim l n p && true)
      (update_where (λ p. measured_claim l n p && true) (λ p. record p { state = done }) ps)

given_up_other :
    (l n : ℕ) (ps : List LeasePart) → exists_where (part_at l n) ps ≡ false → given_up l n ps ≡ ps
unfolding delete_where update_where exists_where
given_up_other l n [] h = refl
given_up_other l n (p ∷ ps) h = ground (arith, given_up_other l n ps)

given_up_new :
    (l n : ℕ) (ps : List LeasePart)
    → exists_where (part_at l n) ps ≡ false
    → given_up l n (ps ++ new_part l n ∷ []) ≡ ps
unfolding delete_where update_where exists_where
given_up_new l n [] h = ground arith
given_up_new l n (p ∷ ps) h = ground (arith, given_up_new l n ps)

claimed_other :
    (l n : ℕ) (ps : List LeasePart)
    → exists_where (part_at l n) ps ≡ false
    → update_where (done_part l n) (λ p. record p { state = claimed }) ps ≡ ps
unfolding update_where exists_where
claimed_other l n [] h = refl
claimed_other l n (p ∷ ps) h = ground (arith, claimed_other l n ps)

-- A part with a measurement is as it was after a claim and its cancellation.
done_again : (p : LeasePart) → p.state ≡ done → record p { state = done } ≡ p
done_again p e = ap (λ s. record p { state = s }) (sym e)

no_done :
    (l n : ℕ) (ps : List LeasePart)
    → exists_where (part_at l n) ps ≡ false
    → exists_where (done_part l n) ps ≡ false
no_done l n ps = exists_mono_none (done_part l n) (part_at l n) ps (λ r e. ground arith)

given_up_again :
    (l n : ℕ) (ps : List LeasePart)
    → OnePart ps
    → All (λ p. measured_if_done p ≡ true) ps
    → exists_where (done_part l n) ps ≡ true
    → given_up l n (update_where (done_part l n) (λ p. record p { state = claimed }) ps) ≡ ps
unfolding delete_where update_where exists_where
given_up_again l n [] one full h = cc
given_up_again l n (p ∷ ps) one full h = elim (Bool-cases (part_at l n p)) [
  | inl t ↦
      let lease : p.lease_id ≡ l = ground (arith, t) in
      let number : p.part_no ≡ n = ground (arith, t) in
      let free = rw (lease, number) at one.0 in
      let claim_rest = claimed_other l n ps free in
      let give_rest = given_up_other l n ps free in
      let none_done = no_done l n ps free in
      rw (claim_rest, give_rest) (ground (arith, t, full.0, none_done, h, done_again p))
  | inr f ↦ ground (arith, f, h, given_up_again l n ps one.1 full.1)
]

-- A live write lease of the file is still one after it was extended.
still_mine :
    (now file lease ttl : ℕ) (free : Bool) (leases : List Lease)
    → not (affected (λ le. live_lease now file lease le && free) leases == 0) ≡ true
    → exists_where
        (λ (le : Lease). le.id == lease && write_lease_of file le)
        (update_where (λ le. live_lease now file lease le && free) (extend now ttl) leases)
      ≡ true
still_mine now file lease ttl free leases won =
    exists-update_keep _ _ (extend now ttl) leases (λ r e. ground arith)
      (exists_mono (λ le. live_lease now file lease le && free) _ leases (λ r e. ground arith)
        (hit _ leases won))

-- A part that was claimed and is given up leaves the ledger of parts as it was before the claim,
-- if the ledger has one row for each part and a measurement for each done one.
pub cancel_relay_part-claim_relay_part :
    (now : Clock) (file lease part ttl : ℕ) (db : Db)
    → OnePart db.parts
    → All (λ p. measured_if_done p ≡ true) db.parts
    → (claim_relay_part now file lease part ttl db).0 ≡ ok part_claimed
    → (cancel_relay_part file lease part (claim_relay_part now file lease part ttl db).1).1.parts
      ≡ db.parts
unfolding claim_relay_part claim_relay_part_tx claim_part cancel_relay_part cancel_relay_part_tx
cancel_relay_part-claim_relay_part now file lease part ttl db one full h =
    let free = not (exists_where (upload_of file) db.uploads) in
    elim (Bool-cases (exists_where (pending_multipart file) db.files)) [
      | inr f ↦ cc (rw f at h)
      | inl locked ↦
          elim (Bool-cases
            (not (affected (λ le. live_lease now.tx_now file lease le && free) db.leases == 0))) [
              | inr f ↦ cc (rw (locked, f) at h)
              | inl live ↦
                  let mine = still_mine now.tx_now file lease ttl free db.leases live in
                  elim (Bool-cases (exists_where (part_at lease part) db.parts)) [
                    | inr new ↦
                        rw (locked, live, new) (rw mine (given_up_new lease part db.parts new))
                    | inl known ↦ elim (Bool-cases (exists_where (done_part lease part) db.parts)) [
                      | inr f ↦ cc (rw (locked, live, known, affected_of_none _ db.parts f) at h)
                      | inl was ↦
                          let taken : not (affected (done_part lease part) db.parts == 0) ≡ true =
                            ground
                              (arith, affected_of_exists (done_part lease part) db.parts was) in
                          rw (locked, live, known, taken)
                            (rw mine (given_up_again lease part db.parts one full was))
                    ]
                  ]
            ]
    ]
