-- ===== src/Libbson.antt =====
-- The interface of libbson (bson/, bundled) that perl_mongo.c calls, as an argument of the model,
-- with its documented behaviour as laws, and an implementation that shows the laws can hold.
use mongo_perl_driver.Common.{ℕ, ℤ, Bool, true, ◌≡◌, refl, []}
use mongo_perl_driver.Perl.{Bytes}

-- A value with no document inside; each is appended by the bson_append_* of its name, or is a
-- type that only an iterator meets. A double is its bit pattern, an OID its twelve bytes.
pub data Leaf : Type 0 where
  double : ℕ → Leaf
  utf8 : Bytes → Leaf
  binary : ℕ → Bytes → Leaf
  undefined : Leaf
  oid : Bytes → Leaf
  bool : Bool → Leaf
  date_time : ℤ → Leaf
  null : Leaf
  regex : Bytes → Bytes → Leaf
  dbpointer : Leaf
  code : Bytes → Leaf
  symbol : Bytes → Leaf
  int32 : ℤ → Leaf
  timestamp : ℕ → ℕ → Leaf
  int64 : ℤ → Leaf
  minkey maxkey : Leaf

-- What iterating over a document shows: its fields in order.
mutual
  pub data Value : Type 0 where
    leaf : Leaf → Value
    document : Fields → Value
    array : Fields → Value
    code_with_scope : Bytes → Fields → Value

  pub data Fields : Type 0 where
    nil : Fields
    field : Bytes → Value → Fields → Fields

infixl 60 ◌⋈◌
-- One document's fields followed by another's.
abbrev pub ◌⋈◌ : Fields → Fields → Fields
nil ⋈ gs = gs
field k v fs ⋈ gs = field k v (fs ⋈ gs)

abbrev pub single : Bytes → Value → Fields
single k v = field k v nil

pub ⋈-nil : (fs : Fields) → fs ⋈ nil ≡ fs
⋈-nil nil = refl
⋈-nil (field k v fs) = rw (⋈-nil fs)

pub ⋈_assoc : (fs gs hs : Fields) → fs ⋈ gs ⋈ hs ≡ fs ⋈ (gs ⋈ hs)
⋈_assoc nil gs hs = refl
⋈_assoc (field k v fs) gs hs = rw (⋈_assoc fs gs hs)

pub record Libbson : Type 1 where
  -- bson_t
  pub Bson : Type 0
  pub bson_new : Bson
  -- bson_append_double, _utf8, _binary, … with key length -1
  pub append : Bson → Bytes → Leaf → Bson
  -- bson_append_document_begin: the child; _end: the parent
  pub document_begin : Bson → Bytes → Bson
  pub document_end : Bson → Bytes → Bson → Bson
  pub array_begin : Bson → Bytes → Bson
  pub array_end : Bson → Bytes → Bson → Bson
  pub append_code_with_scope : Bson → Bytes → Bytes → Bson → Bson
  -- bson_oid_init_from_string
  pub oid_from_string : Bytes → Bytes
  -- bson_get_data
  pub get_data : Bson → Bytes
  -- what bson_iter_init and bson_iter_next show
  pub fields : Bson → Fields
  -- whether every append into the document has returned true
  pub accepted : Bson → Bool

-- An append that libbson accepts adds one field at the end.
pub record LibbsonLaws (api : Libbson) : Type 0 where
  pub fields-new : api.fields api.bson_new ≡ nil
  pub accepted-new : api.accepted api.bson_new ≡ true
  pub fields-append :
      (b : api.Bson) (k : Bytes) (l : Leaf)
      → api.accepted (api.append b k l) ≡ true
      → (api.accepted b ≡ true) × (api.fields (api.append b k l) ≡ api.fields b ⋈ single k (leaf l))
  pub fields-document_begin : (b : api.Bson) (k : Bytes) → api.fields (api.document_begin b k) ≡ nil
  pub fields-document_end :
      (b : api.Bson) (k : Bytes) (c : api.Bson)
      → api.accepted (api.document_end b k c) ≡ true
      → (api.accepted b ≡ true)
        × (api.accepted c ≡ true)
        × (api.fields (api.document_end b k c) ≡ api.fields b ⋈ single k (document (api.fields c)))
  pub fields-array_begin : (b : api.Bson) (k : Bytes) → api.fields (api.array_begin b k) ≡ nil
  pub fields-array_end :
      (b : api.Bson) (k : Bytes) (c : api.Bson)
      → api.accepted (api.array_end b k c) ≡ true
      → (api.accepted b ≡ true)
        × (api.accepted c ≡ true)
        × (api.fields (api.array_end b k c) ≡ api.fields b ⋈ single k (array (api.fields c)))
  pub fields-append_code_with_scope :
      (b : api.Bson) (k s : Bytes) (c : api.Bson)
      → api.accepted (api.append_code_with_scope b k s c) ≡ true
      → (api.accepted b ≡ true)
        × (api.accepted c ≡ true)
        × (api.fields (api.append_code_with_scope b k s c)
            ≡ api.fields b ⋈ single k (code_with_scope s (api.fields c)))

-- Documents as their fields: every append is accepted.
abbrev pub pure_bson : Libbson
pure_bson = record {
  Bson = Fields;
  bson_new = nil;
  append = λ b k l. b ⋈ single k (leaf l);
  document_begin = λ b k. nil;
  document_end = λ b k c. b ⋈ single k (document c);
  array_begin = λ b k. nil;
  array_end = λ b k c. b ⋈ single k (array c);
  append_code_with_scope = λ b k s c. b ⋈ single k (code_with_scope s c);
  oid_from_string = λ s. s;
  get_data = λ b. [];
  fields = λ b. b;
  accepted = λ b. true;
}

pub pure_bson_laws : LibbsonLaws pure_bson
pure_bson_laws = record {
  fields-new = refl;
  accepted-new = refl;
  fields-append = λ b k l h. (refl, refl);
  fields-document_begin = λ b k. refl;
  fields-document_end = λ b k c h. (refl, refl, refl);
  fields-array_begin = λ b k. refl;
  fields-array_end = λ b k c h. (refl, refl, refl);
  fields-append_code_with_scope = λ b k s c h. (refl, refl, refl);
}
