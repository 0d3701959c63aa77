-- ===== src/Registry/Parts.antt =====
-- backend/crates/db/src/s3_registry/uploads.rs, second part: the parts of an open S3 session.
use grove_storage.Prelude.{ℕ, Bool, true, false, ◌&&◌, ◌==◌, Text}
use grove_storage.Table.{exists_where}
use grove_storage.Db.Schema.{Clock, Db, Upload, is_opened}
use grove_storage.Db.Where.{pending_file, issued_write, claimed_part, s3_upload}
use grove_storage.Db.Tx.{
  Tx, Reply, run_tx, ◌>>=◌, ◌>>◌, or_return, require, commit, reads, update_leases, update_parts,
}
use grove_storage.Files.Completion.{renew}
use grove_storage.Files.Multipart.{
  RelayPartClaim, part_claimed, part_busy, part_unavailable, live_lease, extend, claim_part, finish,
  lease_of_file, cancel_relay_part_tx,
}
use grove_storage.Registry.Sessions.{mode_file, keyed}

-- The open multipart session of a file.
abbrev pub open_multipart : ℕ → Upload → Bool
open_multipart file_id u = s3_upload file_id u && u.multipart && is_opened u.state

unfoldable pub claim_upload_part_tx :
    Clock → Text → Text → ℕ → ℕ → ℕ → ℕ → Tx RelayPartClaim RelayPartClaim
unfolding claim_part
claim_upload_part_tx now client_id key file_id lease_id part_no ttl = do
  locked ← reads (λ db. exists_where (mode_file client_id file_id true) db.files)
  require locked part_unavailable
  session ← reads (λ db. exists_where (λ u. open_multipart file_id u && keyed key u) db.uploads)
  require session part_unavailable
  n ← update_leases (live_lease now.tx_now file_id lease_id) (extend now.tx_now ttl)
  or_return part_unavailable n
  m ← claim_part lease_id part_no
  or_return part_busy m
  commit part_claimed

unfoldable pub claim_upload_part :
    Clock → Text → Text → ℕ → ℕ → ℕ → ℕ → Db → Reply RelayPartClaim × Db
unfolding claim_upload_part_tx run_tx
claim_upload_part now client_id key file_id lease_id part_no ttl =
    run_tx (claim_upload_part_tx now client_id key file_id lease_id part_no ttl)

unfoldable pub renew_upload_part_lease_tx : Clock → ℕ → ℕ → ℕ → ℕ → Tx Bool Bool
renew_upload_part_lease_tx now file_id lease_id part_no ttl = do
  locked ← reads (λ db. exists_where (pending_file file_id) db.files)
  require locked false
  owned ← reads (λ db.
      exists_where (open_multipart file_id) db.uploads
      && lease_of_file file_id lease_id db
      && exists_where (claimed_part lease_id part_no) db.parts)
  require owned false
  n ← update_leases (λ le. le.id == lease_id && issued_write file_id le) (renew now.tx_now ttl)
  or_return false n
  commit true

unfoldable pub renew_upload_part_lease : Clock → ℕ → ℕ → ℕ → ℕ → Db → Reply Bool × Db
unfolding renew_upload_part_lease_tx run_tx
renew_upload_part_lease now file_id lease_id part_no ttl =
    run_tx (renew_upload_part_lease_tx now file_id lease_id part_no ttl)

unfoldable pub finish_upload_part_tx : ℕ → ℕ → ℕ → ℕ → Text → Tx Bool Bool
finish_upload_part_tx file_id lease_id part_no size md5 = do
  locked ← reads (λ db. exists_where (pending_file file_id) db.files)
  require locked false
  session ← reads (λ db. exists_where (open_multipart file_id) db.uploads)
  require session false
  mine ← reads (lease_of_file file_id lease_id)
  n ← update_parts (λ p. claimed_part lease_id part_no p && mine) (finish size md5)
  or_return false n
  commit true

unfoldable pub finish_upload_part : ℕ → ℕ → ℕ → ℕ → Text → Db → Reply Bool × Db
unfolding finish_upload_part_tx run_tx
finish_upload_part file_id lease_id part_no size md5 =
    run_tx (finish_upload_part_tx file_id lease_id part_no size md5)

-- The statements are those of `cancel_relay_part`.
unfoldable pub cancel_upload_part : ℕ → ℕ → ℕ → Db → Reply (Unit {0}) × Db
unfolding cancel_relay_part_tx run_tx
cancel_upload_part file_id lease_id part_no = run_tx (cancel_relay_part_tx file_id lease_id part_no)
