-- ===== src/Decode/DbRef.antt =====
-- When bson_to_sv makes a MongoDB::DBRef.
use mongo_perl_driver.Common.{
  ℕ, ◌+◌, ◌≡◌, ap, ◌∙◌, ◌≢◌, ◌↔◌, inl, inr, Bool, true, false, ◌&&◌, List, [], ◌∷◌, arith, ◌==◌,
  Bool-cases, if_true, if_false, length, bytes_eq, bytes_eq→eq,
}
use mongo_perl_driver.Perl.{Bytes, db_ref}
use mongo_perl_driver.Outcome.{ok_same, ok, >>=-eq-ok}
use mongo_perl_driver.Libbson.{Fields, document, nil, field}
use mongo_perl_driver.Decode.{
  Out, Entries, Reader, Filling, fresh, hv_fetch, store, still_dbref, finish, fetched, elem_to_sv,
  hv_fill, ref_key, db_key,
}
use mongo_perl_driver.Decode.{id_key, db_ref}

-- The names of the fields, in order.
abbrev pub names : Fields → List Bytes
names nil = []
names (field k v fs) = k ∷ names fs

-- Whether a value is a MongoDB::DBRef.
abbrev pub is_db_ref : Out → Bool
is_db_ref (db_ref ref id db) = true
is_db_ref _ = false

no_ref : (es : Entries) → is_db_ref (Out.hash es) ≢ true
no_ref es e = cc

wrong_number :
    (n : ℕ) (b : Bool) (ns : List Bytes)
    → n ≡ length ns
    → length ns ≢ 3
    → ((n == 3) && b) ≡ true ↔ ns ≡ ref_key ∷ id_key ∷ db_key ∷ []
wrong_number n b ns count differs = (λ e. ground arith, λ e. absurd (differs (ap length e)))

three_names :
    (a b c : Bytes)
    → still_dbref 3 (still_dbref 2 (still_dbref 1 true a) b) c ≡ true
      ↔ a ∷ b ∷ c ∷ [] ≡ ref_key ∷ id_key ∷ db_key ∷ []
unfolding still_dbref
three_names a b c = (
  λ e.
      let first : bytes_eq a ref_key ≡ true = ground arith in
      let second : bytes_eq b id_key ≡ true = ground arith in
      let third : bytes_eq c db_key ≡ true = ground arith in
      rw (bytes_eq→eq a ref_key first, bytes_eq→eq b id_key second, bytes_eq→eq c db_key third),
  λ e.
      let first : a ≡ ref_key = cc in
      let second : b ≡ id_key = cc in let third : c ≡ db_key = cc in rw (first, second, third),
)

module _ (reader : Reader) where
  hv_fill_num :
      (s t : Filling) (fs : Fields)
      → hv_fill reader s fs ≡ ok t
      → t.key_num ≡ s.key_num + length (names fs)
  unfolding hv_fill elem_to_sv store
  hv_fill_num s t nil h =
      let same : s.key_num ≡ t.key_num = ap (λ f. f.key_num) (ok_same h) in omega arith
  hv_fill_num s t (field k v fs) h =
      let (o, made, later) = >>=-eq-ok (elem_to_sv reader v) _ h in
      omega (arith, hv_fill_num (store s k o) t fs later)

  -- The loop has its flag set after three names exactly when they are the three of a DBRef.
  pub hv_fill-is_dbref :
      (fs : Fields) (s : Filling)
      → hv_fill reader fresh fs ≡ ok s
      → ((s.key_num == 3) && s.is_dbref) ≡ true ↔ names fs ≡ ref_key ∷ id_key ∷ db_key ∷ []
  unfolding hv_fill elem_to_sv store still_dbref
  hv_fill-is_dbref nil s h =
      wrong_number s.key_num s.is_dbref [] (hv_fill_num fresh s nil h) λ e. omega arith
  hv_fill-is_dbref (field a u nil) s h =
      wrong_number s.key_num s.is_dbref (a ∷ []) (hv_fill_num fresh s (field a u nil) h)
        λ e. omega arith
  hv_fill-is_dbref (field a u (field b v nil)) s h =
      wrong_number s.key_num s.is_dbref (a ∷ b ∷ [])
        (hv_fill_num fresh s (field a u (field b v nil)) h) λ e. omega arith
  hv_fill-is_dbref (field a u (field b v (field c w nil))) s h =
      let (o, made, h1) = >>=-eq-ok (elem_to_sv reader u) _ h in
      let (o', made', h2) = >>=-eq-ok (elem_to_sv reader v) _ h1 in
      let (o'', made'', h3) = >>=-eq-ok (elem_to_sv reader w) _ h2 in
      let number : s.key_num ≡ 3 = hv_fill_num fresh s (field a u (field b v (field c w nil))) h in
      let flag : still_dbref 3 (still_dbref 2 (still_dbref 1 true a) b) c ≡ s.is_dbref =
        ap (λ f. f.is_dbref) (ok_same h3) in
      rw (number, ← flag) (three_names a b c)
  hv_fill-is_dbref (field a u (field b v (field c w (field d x fs)))) s h =
      wrong_number s.key_num s.is_dbref (a ∷ b ∷ c ∷ d ∷ names fs)
        (omega (arith, hv_fill_num fresh s (field a u (field b v (field c w (field d x fs)))) h))
        λ e. omega arith

  finish-is_db_ref :
      (s : Filling) (o : Out)
      → finish reader s ≡ ok o
      → is_db_ref o ≡ true
        ↔ (((s.key_num == 3) && s.is_dbref) ≡ true) × (reader.inflate_dbrefs ≡ true)
  unfolding finish fetched
  finish-is_db_ref s o h =
      elim (Bool-cases ((s.key_num == 3) && (s.is_dbref && reader.inflate_dbrefs))) [
        | inl three ↦
            let (ref, r, h1) =
              >>=-eq-ok (fetched (hv_fetch s.ret ref_key)) _ (if_true _ _ _ _ three h) in
            let (id, i, h2) = >>=-eq-ok (fetched (hv_fetch s.ret id_key)) _ h1 in
            let (db, d, h3) = >>=-eq-ok (fetched (hv_fetch s.ret db_key)) _ h2 in
            (λ e. (ground arith, ground arith), λ e. rw (← ok_same h3))
        | inr otherwise ↦
            let plain : Out.hash s.ret ≡ o = ok_same (if_false _ _ _ _ otherwise h) in
            (λ e. absurd (no_ref s.ret (ap is_db_ref plain ∙ e)), λ e. ground arith)
      ]

  -- A document that elem_to_sv reads is made a MongoDB::DBRef exactly when inflate_dbrefs is set
  -- and the names of its fields are "$ref", "$id" and "$db", in this order and no others.
  pub elem_to_sv-is_db_ref :
      (fs : Fields) (o : Out)
      → elem_to_sv reader (document fs) ≡ ok o
      → is_db_ref o ≡ true
        ↔ (names fs ≡ ref_key ∷ id_key ∷ db_key ∷ []) × (reader.inflate_dbrefs ≡ true)
  unfolding elem_to_sv
  elem_to_sv-is_db_ref fs o h =
      let (s, filled, done) = >>=-eq-ok (hv_fill reader fresh fs) _ h in
      let both = finish-is_db_ref s o done in
      let named = hv_fill-is_dbref fs s filled in
      (
        λ e. let (three, inflate) = both.0 e in (named.0 three, inflate),
        λ e. both.1 (named.1 e.0, e.1),
      )
