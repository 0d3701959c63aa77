-- ===== src/Db/Schema.antt =====
-- The object tables of backend/crates/db/migrations (0002 to 0008), a row as a record. A uuid and a
-- time in seconds are numbers; a size is a number, since the schema checks that it is not negative.
use grove_storage.Prelude.{ℕ, Bool, true, false, Option, List, Text}

pub data FileState : Type 0 where
  pending active deleted reclaimed : FileState

pub data LeaseKind : Type 0 where
  write read : LeaseKind

pub data LeaseState : Type 0 where
  issued committed expired canceled : LeaseState

pub data PartState : Type 0 where
  claimed done : PartState

pub data Protocol : Type 0 where
  native s3 : Protocol

pub data UploadState : Type 0 where
  opened completing cleaning : UploadState

pub record File : Type 0 where
  pub id : ℕ
  pub client_id : Text
  pub state : FileState
  pub declared_size : ℕ
  pub content_type : Option Text
  pub declared_md5 : Option Text
  pub etag : Option Text
  pub part_size : Option ℕ
  pub created_at : ℕ
  pub committed_at : Option ℕ
  pub deleted_at : Option ℕ
  pub recovery_after : ℕ

pub record Location : Type 0 where
  pub file_id : ℕ
  pub storage_id : Text
  pub object_key : Text

pub record Lease : Type 0 where
  pub id : ℕ
  pub file_id : ℕ
  pub kind : LeaseKind
  pub state : LeaseState
  pub expires_at : ℕ
  pub secret_hash : Option Text
  pub uploaded_size : Option ℕ
  pub uploaded_md5 : Option Text
  pub upload_id : Option Text
  pub created_at : ℕ

pub record LeasePart : Type 0 where
  pub lease_id : ℕ
  pub part_no : ℕ
  pub state : PartState
  pub uploaded_size : Option ℕ
  pub uploaded_md5 : Option Text

pub record Upload : Type 0 where
  pub file_id : ℕ
  pub protocol : Protocol
  pub key : Option Text
  pub multipart : Bool
  pub if_none_match : Bool
  pub state : UploadState
  pub expected_size : Option ℕ
  pub expected_etag : Option Text
  pub updated_at : ℕ
  pub recovery_after : ℕ

pub record ObjectKey : Type 0 where
  pub client_id : Text
  pub key : Text
  pub file_id : ℕ
  pub updated_at : ℕ

pub record LeaseHistory : Type 0 where
  pub at : ℕ
  pub file_id : ℕ
  pub storage_id : Text
  pub client_id : Text
  pub kind : LeaseKind
  pub size : ℕ

pub record Client : Type 0 where
  pub id : Text
  pub storage_id : Text

pub record Db : Type 0 where
  pub clients : List Client
  pub files : List File
  pub locations : List Location
  pub leases : List Lease
  pub parts : List LeasePart
  pub uploads : List Upload
  pub keys : List ObjectKey
  pub history : List LeaseHistory

-- `grove_time.transaction_now()` and `grove_time.wall_now()` of one transaction.
pub record Clock : Type 0 where
  pub tx_now : ℕ
  pub wall_now : ℕ

abbrev pub is_pending : FileState → Bool
is_pending pending = true
is_pending _ = false

abbrev pub is_active : FileState → Bool
is_active active = true
is_active _ = false

abbrev pub is_deleted : FileState → Bool
is_deleted deleted = true
is_deleted _ = false

abbrev pub is_reclaimed : FileState → Bool
is_reclaimed reclaimed = true
is_reclaimed _ = false

abbrev pub is_write : LeaseKind → Bool
is_write write = true
is_write read = false

abbrev pub is_issued : LeaseState → Bool
is_issued issued = true
is_issued _ = false

abbrev pub is_claimed : PartState → Bool
is_claimed claimed = true
is_claimed done = false

abbrev pub is_done : PartState → Bool
is_done claimed = false
is_done done = true

abbrev pub is_native : Protocol → Bool
is_native native = true
is_native s3 = false

abbrev pub is_s3 : Protocol → Bool
is_s3 native = false
is_s3 s3 = true

abbrev pub is_opened : UploadState → Bool
is_opened opened = true
is_opened _ = false

abbrev pub is_completing : UploadState → Bool
is_completing completing = true
is_completing _ = false

abbrev pub is_cleaning : UploadState → Bool
is_cleaning cleaning = true
is_cleaning _ = false
