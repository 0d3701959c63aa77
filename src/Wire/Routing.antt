-- ===== src/Wire/Routing.antt =====
-- What a request has, when operation.rs accepts it.
use grove_storage.Prelude.{
  ◌≡◌, ◌≤◌, inl, inr, Bool, true, false, some, Text, bytes, text_eq, ◌||◌, any, is_empty, arith,
  Bool-cases, Option-cases, text_eq→eq,
}
use grove_storage.Policy.Validation.{pos, negsuc}
use grove_storage.Wire.Query.{query_flag, query_value}
use grove_storage.Wire.Operation.{
  Operation, put, get, head, delete, create_multipart, upload_part, complete_multipart,
  abort_multipart, to, classify, unsupported, uploads, upload_id, part_number, repeated, parsed,
  part_of, plain, start_upload, in_upload, with_id, route,
}

abbrev pub method_of : Operation → Text
method_of put = bytes "PUT"
method_of get = bytes "GET"
method_of head = bytes "HEAD"
method_of delete = bytes "DELETE"
method_of create_multipart = bytes "POST"
method_of (upload_part id n) = bytes "PUT"
method_of (complete_multipart id) = bytes "POST"
method_of (abort_multipart id) = bytes "DELETE"

-- The parameters of an operation, by the query's flags and values.
abbrev pub Asks : Text → Operation → Type 0
Asks q (upload_part id n) =
    (query_flag q uploads ≡ false)
    × (query_value q upload_id ≡ some id)
    × (is_empty id ≡ false)
    × (parsed (query_value q part_number) ≡ some (pos n))
    × (1 ≤ n)
    × (n ≤ 10000)
Asks q (complete_multipart id) =
    (query_flag q uploads ≡ false)
    × (query_value q upload_id ≡ some id)
    × (is_empty id ≡ false)
    × (query_flag q part_number ≡ false)
Asks q (abort_multipart id) =
    (query_flag q uploads ≡ false)
    × (query_value q upload_id ≡ some id)
    × (is_empty id ≡ false)
    × (query_flag q part_number ≡ false)
Asks q create_multipart =
    (query_flag q uploads ≡ true)
    × (query_flag q upload_id ≡ false)
    × (query_flag q part_number ≡ false)
Asks q _ =
    (query_flag q uploads ≡ false)
    × (query_flag q upload_id ≡ false)
    × (query_flag q part_number ≡ false)

abbrev pub Fits : Text → Text → Operation → Type 0
Fits m q op = (m ≡ method_of op) × Asks q op

-- A function that chooses by the method answers each operation for its own method.
plain-Fits :
    (m q : Text) (op : Operation)
    → query_flag q uploads ≡ false
    → query_flag q upload_id ≡ false
    → query_flag q part_number ≡ false
    → plain m ≡ to op
    → Fits m q op
plain-Fits m q op h1 h2 h3 h = ground (
  arith,
  h,
  text_eq→eq m (bytes "PUT"),
  text_eq→eq m (bytes "GET"),
  text_eq→eq m (bytes "HEAD"),
  text_eq→eq m (bytes "DELETE"),
)

start_upload-Fits :
    (m q : Text) (op : Operation)
    → query_flag q uploads ≡ true
    → start_upload m (query_flag q upload_id) (query_flag q part_number) ≡ to op
    → Fits m q op
start_upload-Fits m q op h1 h = ground (arith, h, text_eq→eq m (bytes "POST"))

part_of-Fits :
    (m q id : Text) (op : Operation)
    → m ≡ bytes "PUT"
    → query_flag q uploads ≡ false
    → query_value q upload_id ≡ some id
    → is_empty id ≡ false
    → part_of id (parsed (query_value q part_number)) ≡ to op
    → Fits m q op
part_of-Fits m q id op put_method h1 h2 h3 h =
    elim (Option-cases (parsed (query_value q part_number))) [
      | inl e ↦ cc (rw e at h)
      | inr (negsuc n, e) ↦ cc (rw e at h)
      | inr (pos n, e) ↦ let h' = rw e at h in ground (arith, h', e)
    ]

in_upload-Fits :
    (m q id : Text) (op : Operation)
    → query_flag q uploads ≡ false
    → query_value q upload_id ≡ some id
    → is_empty id ≡ false
    → in_upload m q (query_flag q part_number) id ≡ to op
    → Fits m q op
in_upload-Fits m q id op h1 h2 h3 h = elim (Bool-cases (text_eq m (bytes "PUT"))) [
  | inl t ↦ part_of-Fits m q id op (text_eq→eq m _ t) h1 h2 h3 (rw t at h)
  | inr f ↦
      let h' = rw f at h in
      ground (arith, h', text_eq→eq m (bytes "POST"), text_eq→eq m (bytes "DELETE"))
]

with_id-Fits :
    (m q : Text) (op : Operation)
    → query_flag q uploads ≡ false
    → with_id m q (query_flag q part_number) (query_value q upload_id) ≡ to op
    → Fits m q op
with_id-Fits m q op h1 h = elim (Option-cases (query_value q upload_id)) [
  | inl e ↦ cc (rw e at h)
  | inr (id, e) ↦
      let h' = rw e at h in
      elim (Bool-cases (is_empty id)) [
        | inl t ↦ cc (rw t at h')
        | inr f ↦ in_upload-Fits m q id op h1 e f (rw f at h')
      ]
]

route-Fits : (m q : Text) (op : Operation) → route m q ≡ to op → Fits m q op
route-Fits m q op h = elim (Bool-cases (query_flag q uploads)) [
  | inl t ↦ start_upload-Fits m q op t (rw t at h)
  | inr f ↦ elim (Bool-cases (query_flag q upload_id)) [
    | inl t ↦ with_id-Fits m q op f (rw (f, t) at h)
    | inr g ↦ elim (Bool-cases (query_flag q part_number)) [
      | inl t ↦ let h' = rw (f, g, t) at h in ground (arith, h')
      | inr k ↦ plain-Fits m q op f g k (rw (f, g, k) at h)
    ]
  ]
]

-- A request that is routed is no copy and asks for nothing unsupported, gives none of the upload
-- parameters twice, has the method of its operation, and has exactly the parameters that the
-- operation takes: an upload part its upload and a number from 1 to 10,000, the completion and the
-- abort of an upload no part number, and the plain operations none of the three.
pub classify-Fits :
    (m q : Text) (copy : Bool) (op : Operation)
    → classify m q copy ≡ to op
    → Fits m q op
      × (copy ≡ false)
      × (any (query_flag q) unsupported ≡ false)
      × (repeated q uploads ≡ false)
      × (repeated q upload_id ≡ false)
      × (repeated q part_number ≡ false)
unfolding classify
classify-Fits m q copy op h = elim (Bool-cases (copy || any (query_flag q) unsupported)) [
  | inl t ↦ cc (rw t at h)
  | inr f ↦
      elim (Bool-cases (repeated q uploads || repeated q upload_id || repeated q part_number)) [
        | inl t ↦ cc (rw (f, t) at h)
        | inr g ↦ (
          route-Fits m q op (rw (f, g) at h),
          ground arith,
          ground arith,
          ground arith,
          ground arith,
          ground arith,
        )
      ]
]
