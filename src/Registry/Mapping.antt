-- ===== src/Registry/Mapping.antt =====
-- What backend/crates/db/src/s3_registry/keys.rs does to the mapping from logical keys to files.
use mathlib.Core.Option
use grove_storage.Prelude.{
  ℕ, ◌≡◌, refl, ap, Bool, true, false, Option, none, some, List, [], ◌∷◌, ◌++◌, arith, Text,
  text_eq_refl, ◌==◌, inl, inr, Bool-cases, Option-cases, if◌then◌else◌, is_some,
}
use grove_storage.Table.{exists_where, find_where, update_where, delete_where, exists-update_never}
use grove_storage.Db.Schema.{Db, Clock, ObjectKey}
use grove_storage.Db.Tx.{ok, err, foreign_key_violation, key_at, has_client, has_file}
use grove_storage.Registry.Keys.{
  get_key, upsert_key, upsert_key_in_tx, delete_key, active_file, new_key,
}

module _ {A : Type 0} (p : A → Bool) where
  exists-eq-find : (rs : List A) → exists_where p rs ≡ is_some (find_where p rs)
  unfolding exists_where find_where
  exists-eq-find [] = refl
  exists-eq-find (r ∷ rs) = ground (arith, exists-eq-find rs)

  find-update :
      (g : A → A) (rs : List A)
      → ((r : A) → p (g r) ≡ p r)
      → find_where p (update_where p g rs) ≡ Option.map g (find_where p rs)
  unfolding find_where update_where
  find-update g [] h = refl
  find-update g (r ∷ rs) h = ground (arith, h r, find-update g rs h)

  find-append :
      (rs : List A) (x : A)
      → find_where p rs ≡ none
      → p x ≡ true
      → find_where p (rs ++ x ∷ []) ≡ some x
  unfolding find_where
  find-append [] x h px = ground arith
  find-append (r ∷ rs) x h px = ground (arith, find-append rs x)

  find-delete : (rs : List A) → find_where p (delete_where p rs) ≡ none
  unfolding find_where delete_where
  find-delete [] = refl
  find-delete (r ∷ rs) = ground (arith, find-delete rs)

abbrev pub file_of_key : Option ObjectKey → Option ℕ
file_of_key none = none
file_of_key (some k) = some k.file_id

-- The file that a mapping to `id` takes the key from.
abbrev pub displaced : ℕ → Option ObjectKey → Option ℕ
displaced id none = none
displaced id (some k) = if k.file_id == id then none else some k.file_id

-- No file of this id is active.
abbrev pub Detached : Db → Option ℕ → Type 0
Detached db none = Unit {0}
Detached db (some old) = exists_where (active_file old) db.files ≡ false

-- An upsert for a client and a file that exist succeeds: afterwards the key is mapped to the file, and
-- the answer is the other file that the key was mapped to before, if there was one, which is active
-- no more.
pub upsert_key-get_key :
    (now : Clock) (client key : Text) (id : ℕ) (db : Db)
    → has_client client db ≡ true
    → has_file id db ≡ true
    → ((upsert_key now client key id db).0 ≡ ok (displaced id (get_key client key db)))
      × (file_of_key (get_key client key (upsert_key now client key id db).1) ≡ some id)
      × Detached (upsert_key now client key id db).1 (displaced id (get_key client key db))
unfolding upsert_key upsert_key_in_tx get_key
upsert_key-get_key now client key id db owner held =
    let known = exists-eq-find (key_at client key) db.keys in
    let moved =
      find-update (key_at client key) (λ k. record k { file_id = id; updated_at = now.tx_now })
        db.keys (λ r. refl) in
    elim (Option-cases (find_where (key_at client key) db.keys)) [
      | inl e ↦
          rw (known, e, owner, held)
            (
              refl,
              ap file_of_key (
                  find-append (key_at client key) db.keys (new_key now.tx_now client key id) e
                    (ground (arith, text_eq_refl client, text_eq_refl key))),
              tt,
            )
      | inr (k, e) ↦ elim (Bool-cases (k.file_id == id)) [
        | inl t ↦ rw (known, e) (rw (e, held, t) (refl, ap file_of_key (rw e at moved), tt))
        | inr f ↦
            rw (known, e)
              (rw (e, held, f)
                (
                  refl,
                  ap file_of_key (rw e at moved),
                  exists-update_never (active_file k.file_id) _ _ db.files (λ r. ground arith),
                ))
      ]
    ]

-- An upsert for a file that does not exist fails with a foreign key violation, whether the key is
-- mapped or not, and leaves the whole database.
pub upsert_key_missing :
    (now : Clock) (client key : Text) (id : ℕ) (db : Db)
    → has_file id db ≡ false
    → ((upsert_key now client key id db).0 ≡ err foreign_key_violation)
      × ((upsert_key now client key id db).1 ≡ db)
unfolding upsert_key upsert_key_in_tx
upsert_key_missing now client key id db gone =
    let known = exists-eq-find (key_at client key) db.keys in
    elim (Option-cases (find_where (key_at client key) db.keys)) [
      | inl e ↦
          rw (known, e, gone)
            (elim (Bool-cases (has_client client db)) [
              | inl t ↦ rw t (refl, refl)
              | inr f ↦ rw f (refl, refl)
            ])
      | inr (k, e) ↦ rw (known, e) (rw (e, gone) (refl, refl))
    ]

-- A deletion of a key answers the file it was mapped to, which is active no more, and leaves the
-- key without a mapping.
pub delete_key-get_key :
    (client key : Text) (now : Clock) (db : Db)
    → ((delete_key now client key db).0 ≡ ok (file_of_key (get_key client key db)))
      × (get_key client key (delete_key now client key db).1 ≡ none)
      × Detached (delete_key now client key db).1 (file_of_key (get_key client key db))
unfolding delete_key get_key
delete_key-get_key client key now db =
    elim (Option-cases (find_where (key_at client key) db.keys)) [
      | inl e ↦ rw e (refl, find-delete (key_at client key) db.keys, tt)
      | inr (k, e) ↦ rw e (
        refl,
        find-delete (key_at client key) db.keys,
        exists-update_never (active_file k.file_id) _ _ db.files (λ r. ground arith),
      )
    ]
