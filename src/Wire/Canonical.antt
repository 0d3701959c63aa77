-- ===== src/Wire/Canonical.antt =====
-- What the canonical query of a signature does not depend on.
use mathlib.Core.List.{Perm, foldr}
use mathlib.Core.List.Perm
use grove_storage.Prelude.{
  ◌≡◌, ◌≢◌, refl, sym, ap, ◌∙◌, Bool, true, false, List, [], ◌∷◌, ◌++◌, Text, text_eq_iff,
  text_eq_refl, not, is_empty, map, if◌then◌else◌, arith, All, All-append,
}
use grove_storage.Wire.Split.{join, split-join, split_once_piece, Lacks}
use grove_storage.Wire.Query.{
  insert, sort, text_le, pair_le, pair_of, is_signed, canonical_pairs, canonicalize_query,
  show_pair, signature,
}

module _ {A : Type 0} (le : A → A → Bool) (total : (a b : A) → le a b ≡ false → le b a ≡ true)
    (trans : (a b c : A) → le a b ≡ true → le b c ≡ true → le a c ≡ true)
    (antisym : (a b : A) → le a b ≡ true → le b a ≡ true → a ≡ b) where
  insert_comm : (x y : A) (l : List A) → insert le x (insert le y l) ≡ insert le y (insert le x l)
  unfolding insert
  insert_comm x y [] = ground (arith, total x y, antisym x y)
  insert_comm x y (z ∷ l) = ground (
    arith,
    total x y,
    antisym x y,
    trans x y z,
    trans y x z,
    total x z,
    total y z,
    insert_comm x y l,
  )

text_le_total : (s t : Text) → text_le s t ≡ false → text_le t s ≡ true
unfolding text_le
text_le_total [] t h = cc
text_le_total (a ∷ s) [] h = refl
text_le_total (a ∷ s) (b ∷ t) h = ground (arith, text_le_total s t)

text_le_trans : (s t u : Text) → text_le s t ≡ true → text_le t u ≡ true → text_le s u ≡ true
unfolding text_le
text_le_trans [] t u h k = refl
text_le_trans (a ∷ s) [] u h k = cc
text_le_trans (a ∷ s) (b ∷ t) [] h k = cc
text_le_trans (a ∷ s) (b ∷ t) (c ∷ u) h k = ground (arith, text_le_trans s t u)

text_le_antisym : (s t : Text) → text_le s t ≡ true → text_le t s ≡ true → s ≡ t
unfolding text_le
text_le_antisym [] [] h k = refl
text_le_antisym [] (b ∷ t) h k = cc
text_le_antisym (a ∷ s) [] h k = cc
text_le_antisym (a ∷ s) (b ∷ t) h k = ground (arith, text_le_antisym s t)

pair_le_total : (p q : Text × Text) → pair_le p q ≡ false → pair_le q p ≡ true
unfolding pair_le
pair_le_total (k, v) (l, w) h =
    ground (arith, text_le_total k l, text_le_total v w, text_eq_iff k l, text_eq_iff l k)

pair_le_antisym : (p q : Text × Text) → pair_le p q ≡ true → pair_le q p ≡ true → p ≡ q
unfolding pair_le
pair_le_antisym (k, v) (l, w) h g =
    ground (arith, text_le_antisym k l, text_le_antisym v w, text_eq_iff k l, text_eq_iff l k)

pair_le_trans : (p q r : Text × Text) → pair_le p q ≡ true → pair_le q r ≡ true → pair_le p r ≡ true
unfolding pair_le
pair_le_trans (k, v) (l, w) (m, x) h g = ground (
  arith,
  text_le_trans k l m,
  text_le_trans v w x,
  text_le_antisym k l,
  text_eq_iff k l,
  text_eq_iff l m,
  text_eq_iff k m,
)

-- One piece, put among the pairs of the others.
abbrev put : Text → List (Text × Text) → List (Text × Text)
put p acc =
    if is_empty p
    then acc
    else (if is_signed (pair_of p) then insert pair_le (pair_of p) acc else acc)

canonical_pairs-foldr : (ps : List Text) → canonical_pairs ps ≡ foldr put [] ps
unfolding canonical_pairs sort
canonical_pairs-foldr [] = refl
canonical_pairs-foldr (p ∷ ps) = ground (arith, canonical_pairs-foldr ps)

put_comm : (p q : Text) (acc : List (Text × Text)) → put p (put q acc) ≡ put q (put p acc)
put_comm p q acc = ground (
  arith,
  insert_comm pair_le pair_le_total pair_le_trans pair_le_antisym (pair_of p) (pair_of q) acc,
)

canonical_pairs-perm : {ps qs : List Text} → Perm ps qs → canonical_pairs ps ≡ canonical_pairs qs
canonical_pairs-perm {ps} {qs} r =
    canonical_pairs-foldr ps
    ∙ Perm.foldr-eq (hlevel) put put_comm r []
    ∙ sym (canonical_pairs-foldr qs)

-- Requests that name the same parameters in another order have the same canonical query.
pub canonicalize_query-perm :
    (p : Text) (ps : List Text) (q : Text) (qs : List Text)
    → All (Lacks b'&') (p ∷ ps)
    → All (Lacks b'&') (q ∷ qs)
    → Perm (p ∷ ps) (q ∷ qs)
    → canonicalize_query (join b'&' (p ∷ ps)) ≡ canonicalize_query (join b'&' (q ∷ qs))
unfolding canonicalize_query
canonicalize_query-perm p ps q qs hp hq r =
    rw (split-join b'&' p ps hp, split-join b'&' q qs hq)
      (ap (λ pairs. join b'&' (map show_pair pairs)) (canonical_pairs-perm r))

pair_of_piece : (k v : Text) → Lacks b'=' k → pair_of (k ++ b'=' ∷ v) ≡ (k, v)
unfolding pair_of
pair_of_piece k v h = rw (split_once_piece b'=' k v h) refl

signature_piece : (v : Text) → is_signed (pair_of (signature ++ b'=' ∷ v)) ≡ false
signature_piece v =
    ap is_signed (pair_of_piece signature v (omega arith)) ∙ ap not (text_eq_refl signature)

drop_signature :
    (v : Text) (ps qs : List Text)
    → canonical_pairs (ps ++ (signature ++ b'=' ∷ v) ∷ qs) ≡ canonical_pairs (ps ++ qs)
unfolding canonical_pairs sort
drop_signature v [] qs = ground (arith, signature_piece v)
drop_signature v (p ∷ ps) qs = ground (arith, drop_signature v ps qs)

-- The signature is not signed: a query has the canonical query of the same query without it.
pub canonicalize_query-signature :
    (v p : Text) (ps qs : List Text)
    → All (Lacks b'&') (p ∷ ps)
    → All (Lacks b'&') qs
    → Lacks b'&' v
    → canonicalize_query (join b'&' (p ∷ ps ++ (signature ++ b'=' ∷ v) ∷ qs))
      ≡ canonicalize_query (join b'&' (p ∷ ps ++ qs))
unfolding canonicalize_query
canonicalize_query-signature v p ps qs hp hq hv =
    let piece = signature ++ b'=' ∷ v in
    let lacks : Lacks b'&' piece =
      All-append (λ c. c ≢ b'&') signature (b'=' ∷ v) (omega arith) (omega arith, hv) in
    let tail = All-append (Lacks b'&') ps (piece ∷ qs) hp.1 (lacks, hq) in
    let left = split-join b'&' p (ps ++ piece ∷ qs) (hp.0, tail) in
    let right = split-join b'&' p (ps ++ qs) (hp.0, All-append (Lacks b'&') ps qs hp.1 hq) in
    let shown = λ (pairs : List (Text × Text)). join b'&' (map show_pair pairs) in
    ap (λ pieces. shown (canonical_pairs pieces)) left
    ∙ ap shown (drop_signature v (p ∷ ps) qs)
    ∙ sym (ap (λ pieces. shown (canonical_pairs pieces)) right)
