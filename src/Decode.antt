-- ===== src/Decode.antt =====
-- The decoder of perl_mongo.c: from the fields of a BSON document to Perl values. An iterator is
-- the list of fields that it has not yet read.
pub mod DbRef
pub mod Plain
pub mod RoundTrip
use mongo_perl_driver.Common.{
  ℕ, zero, suc, ◌+◌, ◌-◌, ◌*◌, ◌/◌, ◌%◌, ◌^◌, ◌≤◌, ◌<◌, ◌≡◌, refl, sym, ap, ◌∙◌, ◌≢◌, ◌↔◌, ◌⊎◌, inl,
  inr, Bool, true, false, not, ◌&&◌, ◌||◌, Option, none, some, List, [], ◌∷◌, ◌++◌, append_assoc,
  append-nil, arith, ltb, leb, ◌==◌, if◌then◌else◌, ltb→lt, lt→ltb, leb→le, ==_iff, Bool-cases,
  if_true, if_false, Option-cases, length, get_elem?, take, drop, replicate, All, length-append,
  take-append-drop, length-take, length-drop, drop-append, All-append, bytes_eq, bytes_eq_refl,
  bytes_eq→eq, ℤ, pos, negsuc, pos_part, neg_part, sub_ℕ, ltb_ℤ, signed32, ◌+ℤ◌, ◌*ℤ◌, pos_laws,
}
use mongo_perl_driver.Perl.{Bytes}
use mongo_perl_driver.Libbson.{Leaf, Value, Fields, leaf, document, code_with_scope, nil, field}
use mongo_perl_driver.Outcome.{
  Outcome, ok, croak, stuck, ◌>>=◌, ◌>>◌, bad_dt_type, unsupported_type, no_iterator, bad_pointer,
}
use mongo_perl_driver.Encode.Calendar.{Tm}

-- The Perl values that the decoder makes. A double is its bit pattern.
mutual
  pub data Out : Type 0 where
    undef : Out
    iv : ℤ → Out
    nv : ℕ → Out
    -- a string, and whether its UTF-8 flag is set
    string : Bool → Bytes → Out
    -- MongoDB::BSON::Binary: subtype, data
    binary : ℕ → Bytes → Out
    -- what boolean::true and boolean::false return
    boolean : Bool → Out
    hash : Entries → Out
    array : Elements → Out
    -- MongoDB::OID of the string that bson_oid_to_string makes
    oid : Bytes → Out
    -- Math::BigInt of the decimal string of a number
    big_int : ℤ → Out
    -- DateTime::Tiny of the fields of gmtime; DateTime of an epoch (a double)
    date_time_tiny : Tm → Out
    date_time : ℕ → Out
    -- Regexp: pattern, flags; MongoDB::BSON::Regexp: pattern, flags
    regexp : Bytes → Bytes → Out
    bson_regexp : Bytes → Bytes → Out
    -- MongoDB::Code without and with a scope
    code : Bytes → Out
    scoped_code : Bytes → Out → Out
    -- MongoDB::Timestamp: sec, inc
    timestamp : ℕ → ℕ → Out
    min_key max_key : Out
    -- MongoDB::DBRef: ref, id, db
    db_ref : Out → Out → Out → Out

  pub data Entries : Type 0 where
    empty : Entries
    entry : Bytes → Out → Entries → Entries

  pub data Elements : Type 0 where
    end : Elements
    element : Out → Elements → Elements

-- hv_store: the value of an old key is replaced, a new key comes last.
abbrev pub hv_store : Entries → Bytes → Out → Entries
hv_store empty k v = entry k v empty
hv_store (entry j w es) k v = if bytes_eq j k then entry j v es else entry j w (hv_store es k v)

-- hv_fetch
abbrev pub hv_fetch : Entries → Bytes → Option Out
hv_fetch empty k = none
hv_fetch (entry j w es) k = if bytes_eq j k then some w else hv_fetch es k

-- av_push
abbrev pub av_push : Elements → Out → Elements
av_push end v = element v end
av_push (element w vs) v = element w (av_push vs v)

-- The class that dates are made of: the raw epoch, DateTime::Tiny, DateTime, or another string.
pub data DtType : Type 0 where
  raw tiny full other : DtType

-- What the decoder reads of the globals and its arguments, and calls of the interpreter, libc and
-- libbson.
pub record Reader : Type 0 where
  -- not ($MongoDB::BSON::utf8_flag_on is 0)
  pub utf8_flag_on : Bool
  -- $MongoDB::BSON::use_binary is true
  pub use_binary : Bool
  -- $MongoDB::BSON::use_boolean exists
  pub use_boolean : Bool
  -- boolean::true and boolean::false return a defined value
  pub has_boolean : Bool
  pub use_64_bit_int : Bool
  pub dt_type : DtType
  -- inflate_dbrefs == 1
  pub inflate_dbrefs : Bool
  pub inflate_regexps : Bool
  pub oid_to_string : Bytes → Bytes
  -- (double)ms / 1000.0, and the conversion of a double to IV
  pub seconds : ℤ → ℕ
  pub double_to_iv : ℕ → ℤ
  -- bson_iter_time_t, gmtime
  pub time_t : ℤ → ℤ
  pub gmtime : ℤ → Tm
  -- re_compile, which croaks on a pattern that is no regular expression
  pub re_compile : Bytes → Bytes → Outcome (Unit {0})

-- l m i x s: the options that set a flag.
unfoldable pub is_regex_option : ℕ → Bool
is_regex_option c = (c == 108) || (c == 109) || (c == 105) || (c == 120) || (c == 115)

-- while(*options != 0) switch(*options)
unfoldable pub regex_options : Bytes → Bytes
unfolding is_regex_option
regex_options [] = []
regex_options (c ∷ cs) = if is_regex_option c then c ∷ regex_options cs else regex_options cs

-- "$ref", "$id", "$db"
abbrev pub ref_key : Bytes
ref_key = 36 ∷ 114 ∷ 101 ∷ 102 ∷ []

abbrev pub id_key : Bytes
id_key = 36 ∷ 105 ∷ 100 ∷ []

abbrev pub db_key : Bytes
db_key = 36 ∷ 100 ∷ 98 ∷ []

-- The three tests on is_dbref, with key_num counted already.
unfoldable pub still_dbref : ℕ → Bool → Bytes → Bool
still_dbref key_num is_dbref name =
    let first = if (key_num == 1) && not (bytes_eq name ref_key) then false else is_dbref in
    let second = if (key_num == 2) && (first && not (bytes_eq name id_key)) then false else first in
    if (key_num == 3) && (second && not (bytes_eq name db_key)) then false else second

-- The variables of the loop of bson_to_sv.
pub record Filling : Type 0 where
  pub ret : Entries
  pub is_dbref : Bool
  pub key_num : ℕ

abbrev pub fresh : Filling
fresh = record { ret = empty; is_dbref = true; key_num = 0 }

unfoldable pub store : Filling → Bytes → Out → Filling
unfolding still_dbref
store s name value = record {
  ret = hv_store s.ret name value;
  is_dbref = still_dbref (s.key_num + 1) s.is_dbref name;
  key_num = s.key_num + 1;
}

unfoldable pub fetched : Option Out → Outcome Out
fetched none = croak bad_pointer
fetched (some v) = ok v

module _ (reader : Reader) where
  open reader use {
    utf8_flag_on, use_binary, use_boolean, has_boolean, use_64_bit_int, dt_type, inflate_dbrefs,
    inflate_regexps, oid_to_string, seconds, double_to_iv, time_t, gmtime, re_compile,
  }

  unfoldable pub date_to_sv : DtType → ℤ → Outcome Out
  date_to_sv raw ms = ok (iv (double_to_iv (seconds ms)))
  date_to_sv tiny ms = ok (date_time_tiny (gmtime (time_t ms)))
  date_to_sv full ms = ok (date_time (seconds ms))
  date_to_sv other ms = croak bad_dt_type

  unfoldable pub regex_to_sv : Bytes → Bytes → Outcome Out
  unfolding regex_options
  regex_to_sv pattern options = if inflate_regexps then ok (bson_regexp pattern options) else (do
    re_compile pattern (regex_options options)
    ok (regexp pattern (regex_options options)))

  -- The cases of elem_to_sv with no document inside.
  unfoldable pub leaf_to_sv : Leaf → Outcome Out
  unfolding date_to_sv regex_to_sv
  leaf_to_sv (Leaf.oid bytes) = ok (oid (oid_to_string bytes))
  leaf_to_sv (Leaf.double d) = ok (nv d)
  leaf_to_sv (Leaf.symbol str) = ok (string utf8_flag_on str)
  leaf_to_sv (Leaf.utf8 str) = ok (string utf8_flag_on str)
  leaf_to_sv (Leaf.binary subtype buf) =
      ok (if use_binary then binary subtype buf else string false buf)
  leaf_to_sv (Leaf.bool d) =
      ok (if use_boolean && has_boolean then boolean d else iv (if d then pos 1 else pos 0))
  leaf_to_sv Leaf.undefined = ok undef
  leaf_to_sv Leaf.null = ok undef
  leaf_to_sv (Leaf.int32 i) = ok (iv i)
  leaf_to_sv (Leaf.int64 i) = ok (if use_64_bit_int then iv i else big_int i)
  leaf_to_sv (Leaf.date_time ms) = date_to_sv dt_type ms
  leaf_to_sv (Leaf.regex pattern options) = regex_to_sv pattern options
  leaf_to_sv (Leaf.code str) = ok (code str)
  leaf_to_sv (Leaf.timestamp sec inc) = ok (timestamp sec inc)
  leaf_to_sv Leaf.minkey = ok min_key
  leaf_to_sv Leaf.maxkey = ok max_key
  leaf_to_sv Leaf.dbpointer = croak unsupported_type

  -- The end of bson_to_sv: a MongoDB::DBRef, or the hash.
  unfoldable pub finish : Filling → Outcome Out
  finish s =
      if (s.key_num == 3) && (s.is_dbref && inflate_dbrefs)
      then (do
        ref ← fetched (hv_fetch s.ret ref_key)
        id ← fetched (hv_fetch s.ret id_key)
        db ← fetched (hv_fetch s.ret db_key)
        ok (db_ref ref id db))
      else ok (hash s.ret)

  -- elem_to_sv, the loops of bson_to_sv and bson_to_av.
  unfoldable mutual
    unfolding leaf_to_sv finish

    pub elem_to_sv : Value → Outcome Out
    elem_to_sv (leaf l) = leaf_to_sv l
    elem_to_sv (document fs) = do s ← hv_fill fresh fs; finish s
    elem_to_sv (Value.array fs) = do vs ← av_fill end fs; ok (array vs)
    elem_to_sv (code_with_scope str fs) = do
      s ← hv_fill fresh fs
      scope ← finish s
      ok (scoped_code str scope)

    pub hv_fill : Filling → Fields → Outcome Filling
    hv_fill s nil = ok s
    hv_fill s (field name v fs) = do value ← elem_to_sv v; hv_fill (store s name value) fs

    pub av_fill : Elements → Fields → Outcome Elements
    av_fill vs nil = ok vs
    av_fill vs (field name v fs) = do value ← elem_to_sv v; av_fill (av_push vs value) fs

  -- bson_to_sv
  unfoldable pub bson_to_sv : Fields → Outcome Out
  bson_to_sv fs = do s ← hv_fill fresh fs; finish s

  -- bson_to_av
  unfoldable pub bson_to_av : Fields → Outcome Out
  bson_to_av fs = do vs ← av_fill end fs; ok (array vs)

  -- perl_mongo_bson_to_sv; `none` is a bson_t on which bson_iter_init fails.
  unfoldable pub perl_mongo_bson_to_sv : Option Fields → Outcome Out
  unfolding bson_to_sv
  perl_mongo_bson_to_sv none = croak no_iterator
  perl_mongo_bson_to_sv (some fs) = bson_to_sv fs

  -- perl_mongo_buffer_to_sv on the bytes from pos to end: `read` is bson_reader_read with the
  -- count that bson_reader_tell gives; the bytes that are left are returned.
  unfoldable pub perl_mongo_buffer_to_sv :
      (Bytes → Option Fields × ℕ) → Bytes → Outcome (Out × Bytes)
  unfolding perl_mongo_bson_to_sv
  perl_mongo_buffer_to_sv read bytes =
      let (bson, tell) = read bytes in do sv ← perl_mongo_bson_to_sv bson; ok (sv, drop tell bytes)
