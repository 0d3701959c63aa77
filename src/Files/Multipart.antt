-- ===== src/Files/Multipart.antt =====
-- backend/crates/db/src/files/multipart.rs: the part ledger of a relayed multipart upload, and the
-- extension of its write lease.
use grove_storage.Prelude.{
  ℕ, ◌+◌, Bool, true, false, ◌&&◌, ◌==◌, not, Option, some, none, List, [], ◌∷◌, ◌++◌, map, Text,
  ltb, if◌then◌else◌, is_some, is_none, max,
}
use grove_storage.Table.{exists_where, find_where, select_where, affected, update_where}
use grove_storage.Table.Order.{order_by}
use grove_storage.Db.Schema.{Clock, Db, Lease, LeasePart, claimed, done, is_done, is_issued}
use grove_storage.Db.Where.{
  pending_file, pending_multipart, issued_write, write_lease_of, upload_of, native_upload, part_at,
  claimed_part,
}
use grove_storage.Db.Tx.{
  Tx, Reply, run_tx, ◌>>=◌, ◌>>◌, or_return, require, commit, reads, next, update_leases,
  update_parts, delete_parts,
}
use grove_storage.Files.Completion.{renew, measured}

pub data RelayPartClaim : Type 0 where
  part_claimed part_busy part_unavailable : RelayPartClaim

-- `GREATEST(expires_at, now + ttl)`.
abbrev pub extend : ℕ → ℕ → Lease → Lease
extend now ttl le = record le { expires_at = max le.expires_at (now + ttl) }

-- `id = $1 AND file_id = $2 AND kind = 'write' AND state = 'issued' AND expires_at > now`.
abbrev pub live_lease : ℕ → ℕ → ℕ → Lease → Bool
live_lease now file_id lease_id le =
    le.id == lease_id && issued_write file_id le && ltb now le.expires_at

abbrev pub new_part : ℕ → ℕ → LeasePart
new_part lease_id part_no = record {
  lease_id = lease_id;
  part_no = part_no;
  state = claimed;
  uploaded_size = none;
  uploaded_md5 = none;
}

abbrev pub done_part : ℕ → ℕ → LeasePart → Bool
done_part lease_id part_no p = part_at lease_id part_no p && is_done p.state

-- `INSERT ... ON CONFLICT (lease_id, part_no) DO UPDATE SET state = 'claimed' WHERE state =
-- 'done'`, with the rows inserted or updated.
unfoldable pub claim_part : {R : Type 0} → ℕ → ℕ → Tx R ℕ
claim_part lease_id part_no db =
    let known = exists_where (part_at lease_id part_no) db.parts in
    next (if known then affected (done_part lease_id part_no) db.parts else 1) (record db {
      parts =
          if known
          then update_where (done_part lease_id part_no) (λ p. record p { state = claimed })
              db.parts
          else db.parts ++ new_part lease_id part_no ∷ [];
    })

unfoldable pub claim_relay_part_tx : Clock → ℕ → ℕ → ℕ → ℕ → Tx RelayPartClaim RelayPartClaim
unfolding claim_part
claim_relay_part_tx now file_id lease_id part_no ttl = do
  locked ← reads (λ db. exists_where (pending_multipart file_id) db.files)
  require locked part_unavailable
  owned ← reads (λ db. exists_where (upload_of file_id) db.uploads)
  n ←
      update_leases (λ le. live_lease now.tx_now file_id lease_id le && not owned)
        (extend now.tx_now ttl)
  or_return part_unavailable n
  m ← claim_part lease_id part_no
  or_return part_busy m
  commit part_claimed

unfoldable pub claim_relay_part : Clock → ℕ → ℕ → ℕ → ℕ → Db → Reply RelayPartClaim × Db
unfolding claim_relay_part_tx run_tx
claim_relay_part now file_id lease_id part_no ttl =
    run_tx (claim_relay_part_tx now file_id lease_id part_no ttl)

unfoldable pub renew_relay_part_lease_tx : Clock → ℕ → ℕ → ℕ → ℕ → Tx Bool Bool
renew_relay_part_lease_tx now file_id lease_id part_no ttl = do
  locked ← reads (λ db. exists_where (pending_file file_id) db.files)
  require locked false
  part ← reads (λ db. exists_where (claimed_part lease_id part_no) db.parts)
  owned ← reads (λ db. exists_where (native_upload file_id) db.uploads)
  n ←
      update_leases (λ le. le.id == lease_id && issued_write file_id le && part && not owned)
        (renew now.tx_now ttl)
  or_return false n
  commit true

unfoldable pub renew_relay_part_lease : Clock → ℕ → ℕ → ℕ → ℕ → Db → Reply Bool × Db
unfolding renew_relay_part_lease_tx run_tx
renew_relay_part_lease now file_id lease_id part_no ttl =
    run_tx (renew_relay_part_lease_tx now file_id lease_id part_no ttl)

-- The write lease `lease_id` belongs to the file.
abbrev pub lease_of_file : ℕ → ℕ → Db → Bool
lease_of_file file_id lease_id db =
    exists_where (λ (le : Lease). le.id == lease_id && write_lease_of file_id le) db.leases

abbrev pub finish : ℕ → Text → LeasePart → LeasePart
finish size md5 p = record p { state = done; uploaded_size = some size; uploaded_md5 = some md5 }

unfoldable pub finish_relay_part_tx : ℕ → ℕ → ℕ → ℕ → Text → Tx Bool Bool
finish_relay_part_tx file_id lease_id part_no size md5 = do
  locked ← reads (λ db. exists_where (pending_file file_id) db.files)
  require locked false
  mine ← reads (lease_of_file file_id lease_id)
  n ← update_parts (λ p. claimed_part lease_id part_no p && mine) (finish size md5)
  or_return false n
  commit true

unfoldable pub finish_relay_part : ℕ → ℕ → ℕ → ℕ → Text → Db → Reply Bool × Db
unfolding finish_relay_part_tx run_tx
finish_relay_part file_id lease_id part_no size md5 =
    run_tx (finish_relay_part_tx file_id lease_id part_no size md5)

-- A claimed part with an earlier measurement goes back to it; one without is removed.
abbrev pub measured_claim : ℕ → ℕ → LeasePart → Bool
measured_claim lease_id part_no p =
    claimed_part lease_id part_no p && is_some p.uploaded_size && is_some p.uploaded_md5

abbrev pub first_claim : ℕ → ℕ → LeasePart → Bool
first_claim lease_id part_no p =
    claimed_part lease_id part_no p && is_none p.uploaded_size && is_none p.uploaded_md5

unfoldable pub cancel_relay_part_tx : ℕ → ℕ → ℕ → Tx (Unit {0}) (Unit {0})
cancel_relay_part_tx file_id lease_id part_no = do
  mine ← reads (lease_of_file file_id lease_id)
  _ ← update_parts (λ p. measured_claim lease_id part_no p && mine) (λ p. record p { state = done })
  _ ← delete_parts (λ p. first_claim lease_id part_no p && mine)
  commit tt

unfoldable pub cancel_relay_part : ℕ → ℕ → ℕ → Db → Reply (Unit {0}) × Db
unfolding cancel_relay_part_tx run_tx
cancel_relay_part file_id lease_id part_no = run_tx (cancel_relay_part_tx file_id lease_id part_no)

-- `UPDATE leases SET upload_id = $2 WHERE id = $1`.
unfoldable pub attach_upload_id : ℕ → Text → Db → Reply (Unit {0}) × Db
unfolding run_tx
attach_upload_id lease_id upload_id = run_tx (do
  _ ← update_leases (λ le. le.id == lease_id) (λ le. record le { upload_id = some upload_id })
  commit tt)

-- The write lease of a file.
unfoldable pub write_lease : ℕ → Db → Option Lease
write_lease file_id db = find_where (write_lease_of file_id) db.leases

-- `id = $1 AND state = 'issued' AND expires_at > now` and no native upload owns its file.
abbrev pub extendable : ℕ → ℕ → Db → Lease → Bool
extendable now lease_id db le =
    le.id == lease_id
    && is_issued le.state
    && ltb now le.expires_at
    && not (exists_where (native_upload le.file_id) db.uploads)

unfoldable pub extend_write_lease_tx : Clock → ℕ → ℕ → Tx Bool Bool
extend_write_lease_tx now lease_id ttl = do
  locked ← reads (λ db.
      exists_where
        (λ (le : Lease). le.id == lease_id && exists_where (pending_file le.file_id) db.files)
        db.leases)
  require locked false
  free ← reads (λ db le. extendable now.tx_now lease_id db le)
  n ← update_leases free (extend now.tx_now ttl)
  or_return false n
  commit true

unfoldable pub extend_write_lease : Clock → ℕ → ℕ → Db → Reply Bool × Db
unfolding extend_write_lease_tx run_tx
extend_write_lease now lease_id ttl = run_tx (extend_write_lease_tx now lease_id ttl)

-- The measured parts of a lease, by number.
unfoldable pub done_parts : ℕ → Db → List (ℕ × Option ℕ × Option Text)
unfolding order_by
done_parts lease_id db = map measured (
    order_by (λ (p : LeasePart). p.part_no)
      (select_where (λ p. p.lease_id == lease_id && is_done p.state) db.parts))
