-- ===== src/Perl.antt =====
-- The Perl values that perl_mongo.c reads through the interpreter's API: scalars with their
-- flags, references into a heap, and objects with what their accessors return. The API itself is
-- not part of the repository; a value here holds what the API's macros would say of it.
use mongo_perl_driver.Common.{ℕ, ℤ, Bool, Option, List, get_elem?}

abbrev pub Bytes : Type 0
Bytes = List ℕ

-- SvTYPE
pub data SvType : Type 0 where
  sv_null sv_iv sv_nv sv_pv sv_pviv sv_pvnv sv_pvmg sv_pvlv : SvType
  sv_regexp sv_pvgv sv_pvav sv_pvhv sv_pvcv : SvType

-- A scalar that is no reference. A double is its bit pattern.
pub record Scalar : Type 0 where
  pub sv_type : SvType
  -- SvOK
  pub defined : Bool
  -- SvIOK, SvIOKp, SvNOK, SvPOK
  pub iok : Bool
  pub iokp : Bool
  pub nok : Bool
  pub pok : Bool
  -- SvIV, SvNV
  pub iv : ℤ
  pub nv : ℕ
  -- the string buffer (SvPV_nolen, sv_len)
  pub pv : Bytes
  -- SvPVutf8, and SvPVbyte, which croaks on a wide character
  pub pv_utf8 : Bytes
  pub pv_byte : Option Bytes
  -- looks_like_number
  pub numeric : ℕ

-- A value: a scalar, a reference to an address of the heap, or a magical scalar that is not
-- defined until mg_get has put the value inside it in place.
pub data Sv : Type 0 where
  scalar : Scalar → Sv
  rv : ℕ → Sv
  magical : Sv → Sv

-- A hash entry in iteration order. `fetched` is what hv_fetch returns at the key.
pub record HashEntry : Type 0 where
  pub key : Bytes
  pub utf8 : Bool
  pub fetched : Option Sv

-- What a reference leads to, without its class.
pub data Body : Type 0 where
  hash : List HashEntry → Body
  array : List (Option Sv) → Body
  plain : Scalar → Body
  other_body : SvType → Body

-- The parts of a Tie::IxHash, which is [ {index}, [keys], [values], 0 ]: the index of "_id",
-- the keys as SvPVutf8 reads them, the values.
pub record IxHash : Type 0 where
  pub id_index : Option ℕ
  pub keys : List (Option Bytes)
  pub values : List (Option Sv)

-- A class that append_sv knows, with what it reads from an instance.
pub data Class : Type 0 where
  -- MongoDB::OID and what derives from it: reader "value"
  oid : Bytes → Class
  -- Math::BigInt: hash values "sign" and "value"
  big_int : Option Scalar → Option (List (Option Scalar)) → Class
  tie_ix_hash : IxHash → Class
  -- DateTime: the zone's name, epoch, millisecond
  date_time : Bytes → ℤ → ℤ → Class
  -- DateTime::Tiny: year, month, day, hour, minute, second
  date_time_tiny : ℤ → ℤ → ℤ → ℤ → ℤ → ℤ → Class
  -- MongoDB::DBRef: the Tie::IxHash that reader "_ordered" returns
  db_ref : ℕ → Class
  boolean : ℤ → Class
  -- MongoDB::Code: the code, and the hash of the scope if that is defined
  code : Bytes → Option ℕ → Class
  -- MongoDB::Timestamp: sec, inc
  timestamp : ℤ → ℤ → Class
  min_key max_key : Class
  -- MongoDB::BSON::String: the string, if SvPOK
  bson_string : Option Bytes → Class
  -- MongoDB::BSON::Binary: subtype, data
  bson_binary : ℤ → Scalar → Class
  -- Regexp: the precompiled pattern, and what re::regexp_pattern returns (a list of flags)
  regexp : Bytes → Option Bytes → Class
  -- another class whose body carries PERL_MAGIC_qr
  magic_regexp : Bytes → Option Bytes → Class
  -- MongoDB::BSON::Regexp: pattern, flags
  bson_regexp : Bytes → Bytes → Class
  other_class : Class

pub record Referent : Type 0 where
  pub blessed : Option Class
  pub body : Body

abbrev pub Heap : Type 0
Heap = List Referent

-- SvRV
abbrev pub deref : Heap → ℕ → Option Referent
deref = get_elem?

-- SvTYPE(SvRV(sv))
abbrev pub body_type : Body → SvType
body_type (hash _) = sv_pvhv
body_type (array _) = sv_pvav
body_type (plain s) = s.sv_type
body_type (other_body t) = t
