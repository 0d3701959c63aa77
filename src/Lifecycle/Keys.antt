-- ===== src/Lifecycle/Keys.antt =====
-- The invariant is kept by a change of the logical keys, which may detach a file.
use grove_storage.Prelude.{ℕ, ◌≢◌, refl, Option, none, some, List, arith, Text, ◌==◌}
use grove_storage.Table.{find_where, update_where, delete_where}
use grove_storage.Table.Keyed.{Distinct-update, row_at-update}
use grove_storage.Db.Schema.{Db, Clock, ObjectKey}
use grove_storage.Db.Tx.{Tx, pure, key_at, bind, ◌>>=◌, refer_file, update_keys}
use grove_storage.Files.Sweep.{detach}
use grove_storage.Registry.Keys.{
  active_file, detach_displaced, replace_key, old_file, upsert_key_in_tx, upsert_key, delete_key,
  remove_key, detach_removed,
}
use grove_storage.Lifecycle.Invariant.{IsSound}
use grove_storage.Lifecycle.Rules.{After, keeps_run, After-if, After-mono}

-- What a change of the keys does to the database: the keys, and at most one file other than `id`
-- that is detached.
pub data KeyChange (now : Clock) (id : ℕ) (db : Db) : Db → Type 0 where
  kept : (keys : List ObjectKey) → KeyChange now id db (record db { keys = keys })
  moved :
      (keys : List ObjectKey) (old : ℕ)
      → old ≢ id
      → KeyChange now id db (record db {
        keys = keys;
        files = update_where (active_file old) (detach now.tx_now) db.files;
      })

pub detach-IsSound :
    (now : Clock) (old : ℕ) (db : Db)
    → IsSound db
    → IsSound (record db { files = update_where (active_file old) (detach now.tx_now) db.files })
detach-IsSound now old db h = record {
  one_file = Distinct-update _ _ _ _ (λ r. refl) h.one_file;
  one_upload = h.one_upload;
  at = λ k. rw row_at-update (ground (arith, h.at k));
}

pub KeyChange-IsSound :
    {now : Clock} {id : ℕ} {db db' : Db} → KeyChange now id db db' → IsSound db → IsSound db'
KeyChange-IsSound (kept keys) h = record {
  one_file = h.one_file;
  one_upload = h.one_upload;
  at = h.at;
}
KeyChange-IsSound {now} {db = db} (moved keys old ne) h =
    let s = detach-IsSound now old db h in
    record { one_file = s.one_file; one_upload = s.one_upload; at = s.at }

After-old_file :
    {R A : Type 0} (Q : A → Db → Type 0) (o : Option ObjectKey) (f : ℕ → Tx R A) (db : Db)
    → ((k : ObjectKey) → After Q (f k.file_id db))
    → After Q (bind (old_file o db) f)
After-old_file Q none f db h = tt
After-old_file Q (some k) f db h = h k

pub upsert_key_in_tx-KeyChange :
    (R : Type 0) (now : Clock) (client key : Text) (id : ℕ) (db : Db)
    → After
        (λ displaced db'. KeyChange now id db db')
        (upsert_key_in_tx {R = R} now client key id db)
unfolding upsert_key_in_tx
upsert_key_in_tx-KeyChange R now client key id db = λ refers.
    After-if (λ displaced db'. KeyChange now id db db') _ (pure none)
      (replace_key now client key id) _ (λ e. kept _)
      λ e.
        After-old_file (λ displaced db'. KeyChange now id db db') _
          (λ old. do
            _ ← refer_file id
            _ ←
                update_keys (key_at client key)
                  (λ k. record k { file_id = id; updated_at = now.tx_now })
            detach_displaced now old id)
          _
          λ k held.
            After-if (λ displaced db'. KeyChange now id db db') (k.file_id == id) (pure none) _ _
              (λ same. kept _) (λ other. moved _ k.file_id (ground arith))

pub upsert_key-IsSound :
    (now : Clock) (client key : Text) (id : ℕ) (db : Db)
    → IsSound db
    → IsSound (upsert_key now client key id db).1
unfolding upsert_key
upsert_key-IsSound now client key id db h =
    keeps_run IsSound (upsert_key_in_tx now client key id) db h (
      After-mono (λ displaced db'. KeyChange now id db db') (λ displaced db'. IsSound db')
        (upsert_key_in_tx {R = Option ℕ} now client key id db)
        (λ displaced db' change. KeyChange-IsSound change h)
        (upsert_key_in_tx-KeyChange (Option ℕ) now client key id db))

pub delete_key-IsSound :
    (now : Clock) (client key : Text) (db : Db)
    → IsSound db
    → IsSound (delete_key now client key db).1
unfolding delete_key
delete_key-IsSound now client key db h =
    keeps_run IsSound (do removed ← remove_key client key; detach_removed now removed) db h
      (removed (find_where (key_at client key) db.keys)
        (record db { keys = delete_where (key_at client key) db.keys })
        (record { one_file = h.one_file; one_upload = h.one_upload; at = h.at }))
  where
    removed :
        (o : Option ObjectKey) (db : Db)
        → IsSound db
        → After (λ r db'. IsSound db') (detach_removed now o db)
    removed none db h = h
    removed (some k) db h = detach-IsSound now k.file_id db h
