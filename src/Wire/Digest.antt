-- ===== src/Wire/Digest.antt =====
-- backend/crates/s3-protocol/src/integrity.rs: checksums, and the conditional headers of a request.
-- The decoders of the base64 and hex crates are parameters.
use grove_storage.Prelude.{
  ℕ, ◌≡◌, ◌≢◌, refl, ap, Bool, false, Option, none, some, List, [], ◌∷◌, ◌++◌, Text, bytes, text_eq,
  ◌&&◌, ◌||◌, ◌==◌, is_empty, any, All, All-append, map, arith, leb, length, if◌then◌else◌,
}
use grove_storage.Wire.Split.{split, join, split-join, Lacks}

pub data Digest : Type 0 where
  verified invalid_digest bad_digest : Digest

abbrev pub compare_digest : Option Text → Text → Digest
compare_digest none actual = invalid_digest
compare_digest (some decoded) actual =
    if length decoded == length actual
    then (if text_eq decoded actual then verified else bad_digest)
    else invalid_digest

abbrev pub verify_base64 : (Text → Option Text) → Text → Text → Digest
verify_base64 decode expected actual = compare_digest (decode expected) actual

abbrev hex_digest : (Text → Option Text) → Text → Option Text → Digest
hex_digest decode expected none = bad_digest
hex_digest decode expected (some b) = verify_base64 decode expected b

unfoldable pub verify_hex : (Text → Option Text) → (Text → Option Text) → Text → Text → Digest
verify_hex decode unhex expected actual = hex_digest decode expected (unhex actual)

-- `str::trim`, of a header's ASCII text.
abbrev pub is_space : ℕ → Bool
is_space b = b == 32 || leb 9 b && leb b 13

abbrev pub trim_start : Text → Text
trim_start [] = []
trim_start (b ∷ t) = if is_space b then trim_start t else b ∷ t

abbrev pub trim_end : Text → Text
trim_end [] = []
trim_end (b ∷ t) = let rest = trim_end t in if is_space b && is_empty rest then [] else b ∷ rest

unfoldable pub trim : Text → Text
trim s = trim_end (trim_start s)

abbrev pub quoted : Text → Text
quoted etag = b'"' ∷ etag ++ b'"' ∷ []

abbrev match_etag : Text → Option Text → Bool
match_etag value none = false
match_etag value (some etag) = any (λ c. text_eq (trim c) (quoted etag)) (split b',' value)

unfoldable pub if_match_matches : Text → Option Text → Bool
if_match_matches value etag = text_eq (trim value) (bytes "*") || match_etag value etag

trim_end_quoted : (e : Text) → trim_end (e ++ b'"' ∷ []) ≡ e ++ b'"' ∷ []
trim_end_quoted [] = refl
trim_end_quoted (b ∷ e) = ground (arith, trim_end_quoted e, ends e)
  where
    ends : (e : Text) → is_empty (e ++ b'"' ∷ []) ≡ false
    ends [] = refl
    ends (b ∷ e) = refl

trim-quoted : (e : Text) → trim (quoted e) ≡ quoted e
unfolding trim
trim-quoted e = ap (◌∷◌ b'"') (trim_end_quoted e)

end_eq : (e d : Text) → text_eq (e ++ b'"' ∷ []) (d ++ b'"' ∷ []) ≡ text_eq e d
unfolding text_eq
end_eq [] [] = refl
end_eq [] (b ∷ []) = ground arith
end_eq [] (b ∷ c ∷ d) = ground arith
end_eq (a ∷ []) [] = ground arith
end_eq (a ∷ c ∷ e) [] = ground arith
end_eq (a ∷ e) (b ∷ d) = ground (arith, end_eq e d)

quoted_eq : (e d : Text) → text_eq (quoted e) (quoted d) ≡ text_eq e d
unfolding text_eq
quoted_eq e d = end_eq e d

-- A text that begins with a quote is not the star.
no_star :
    (e : Text) (es : List Text)
    → text_eq (trim (join b',' (map quoted (e ∷ es)))) (bytes "*") ≡ false
unfolding text_eq trim join
no_star e [] = refl
no_star e (x ∷ es) = refl

any-map-quoted :
    (d : Text) (es : List Text)
    → any (λ c. text_eq (trim c) (quoted d)) (map quoted es) ≡ any (λ e. text_eq e d) es
any-map-quoted d [] = refl
any-map-quoted d (e ∷ es) = rw (trim-quoted e, quoted_eq e d, any-map-quoted d es) refl

quoted-Lacks : (e : Text) → Lacks b',' e → Lacks b',' (quoted e)
quoted-Lacks e h = (omega arith, All-append (λ c. c ≢ b',') e (b'"' ∷ []) h (omega arith))

quoted-All : (es : List Text) → All (Lacks b',') es → All (Lacks b',') (map quoted es)
quoted-All [] h = tt
quoted-All (e ∷ es) h = (quoted-Lacks e h.0, quoted-All es h.1)

-- An If-Match header that lists quoted ETags matches exactly the ETags it lists, and no object
-- without an ETag.
pub if_match_matches-join :
    (e : Text) (es : List Text) (d : Text)
    → All (Lacks b',') (e ∷ es)
    → (if_match_matches (join b',' (map quoted (e ∷ es))) (some d)
        ≡ any (λ x. text_eq x d) (e ∷ es))
      × (if_match_matches (join b',' (map quoted (e ∷ es))) none ≡ false)
unfolding if_match_matches
if_match_matches-join e es d h =
    let pieces = split-join b',' (quoted e) (map quoted es) (quoted-All (e ∷ es) h) in
    rw (no_star e es, pieces) (any-map-quoted d (e ∷ es), refl)
