-- ===== src/Decode/RoundTrip.antt =====
-- What the encoder stored is read back: undefined values, integers, doubles, strings, and hashes
-- and arrays of these to any depth.
use mongo_perl_driver.Common.{
  some_same, ℕ, ◌+◌, ◌≡◌, refl, sym, ap, ◌∙◌, ◌⊎◌, inl, inr, [], ◌∷◌, All, bytes_eq, Bool, true,
  false, not, Option, none, List, arith, ==_iff, Bool-cases, length,
}
use mathlib.Core.Path.{subst}
use mongo_perl_driver.Encode.Append.Faithful.{append_sv-Sound}
use mongo_perl_driver.Perl.{Bytes, Scalar, Sv, scalar, HashEntry, Heap, sv_iv, sv_nv, sv_pv}
use mongo_perl_driver.Outcome.{ok_same, ok, ◌>>=◌}
use mongo_perl_driver.Libbson.{Libbson, LibbsonLaws, Leaf, Value, Fields, ◌⋈◌, single}
use mongo_perl_driver.Encode.Keys.{
  Config, c_string, contains, contains_null_char_iff, c_string_same,
}
use mongo_perl_driver.Encode.Document.Unique.{clean_same}
use mongo_perl_driver.Encode.Circular.{Stack}
use mongo_perl_driver.Encode.Leaves.{
  string_leaf, int_leaf, is_string, aggressively_number, not_int, is_value_type, scalar_leaf,
}
use mongo_perl_driver.Encode.Append.{append_sv}
use mongo_perl_driver.Encode.Entries.{undef, entry_key}
use mongo_perl_driver.Encode.Append.Meaning.{
  is_undefined, Encodes, undefined, defined, Stands, of_scalar, of_magic, of_oid, of_object,
  of_bytes, of_hash, of_array, of_ix_hash, of_db_ref, of_code, HashEncodes, none_left, skip, entry,
  ArrayEncodes, no_more, hole, element,
}
use mongo_perl_driver.Decode.{
  Out, Entries, Elements, Reader, Filling, fresh, av_push, store, still_dbref, ref_key, finish,
  leaf_to_sv, elem_to_sv, hv_fill, av_fill,
}
use mongo_perl_driver.Decode.Plain.{
  StaysHash, Plain, p_undef, p_int, p_double, p_text, PlainEntries, all_stored, store_next,
  PlainElements, all_pushed, push_hole, push_next, undef_back, no_magic, no_class, shape_hash,
  shape_array, no_bytes, no_ix,
}

Bool_not : (b : Bool) → not b ≡ false → b ≡ true
Bool_not true h = refl
Bool_not false h = cc

entry_key_utf8 : (e : HashEntry) → e.utf8 ≡ true → entry_key e ≡ e.key
unfolding entry_key
entry_key_utf8 e h = rw h

module _ (api : Libbson) (config : Config) (heap : Heap) (reader : Reader) (is_insert : Bool) where
  module _ (no_numbers : config.look_for_numbers ≡ false) (wide : config.use_64_bit_int ≡ true)
      (modern : config.perl_upto_10 ≡ false) (plain_keys : config.special_char ≡ none)
      (flagged : reader.utf8_flag_on ≡ true) (wide_back : reader.use_64_bit_int ≡ true) where
    int_back :
        (s : Scalar)
        → s.sv_type ≡ sv_iv
        → s.iok ≡ true
        → s.nok ≡ false
        → scalar_leaf config s ≡ ok (Leaf.int64 s.iv)
    unfolding scalar_leaf string_leaf int_leaf is_string aggressively_number not_int is_value_type
    int_back s type iok nok = rw (type, iok, nok, no_numbers, wide, modern)

    double_back :
        (s : Scalar)
        → s.sv_type ≡ sv_nv
        → s.nok ≡ true
        → scalar_leaf config s ≡ ok (Leaf.double s.nv)
    unfolding scalar_leaf string_leaf int_leaf is_string aggressively_number not_int is_value_type
    double_back s type nok = rw (type, nok, no_numbers, modern)

    text_back :
        (s : Scalar)
        → s.sv_type ≡ sv_pv
        → s.iok ≡ false
        → s.nok ≡ false
        → s.pok ≡ true
        → contains s.pv 0 ≡ false
        → scalar_leaf config s ≡ ok (Leaf.utf8 s.pv_utf8)
    unfolding scalar_leaf string_leaf int_leaf is_string aggressively_number not_int is_value_type
    text_back s type iok nok pok clear =
        let whole = (==_iff (length s.pv) (length s.pv)).1 refl in
        elim (Bool-cases s.iokp) [
          | inl p ↦ rw (type, iok, nok, pok, p, no_numbers, modern, c_string_same s.pv clear, whole)
          | inr p ↦ rw (type, iok, nok, pok, p, no_numbers, modern, c_string_same s.pv clear, whole)
        ]

    scalar_back :
        (s : Scalar) (l : Leaf) (o : Out)
        → s.defined ≡ true
        → scalar_leaf config s ≡ ok l
        → Plain heap reader.inflate_dbrefs (scalar s) o
        → leaf_to_sv reader l ≡ ok o
    unfolding leaf_to_sv
    scalar_back s l o is_defined stored (p_undef is_not) = cc
    scalar_back s l o is_defined stored (p_int d type iok nok) =
        let same : Leaf.int64 s.iv ≡ l = ok_same (sym (int_back s type iok nok) ∙ stored) in
        rw (← same, wide_back)
    scalar_back s l o is_defined stored (p_double d type nok) =
        let same : Leaf.double s.nv ≡ l = ok_same (sym (double_back s type nok) ∙ stored) in
        rw (← same)
    scalar_back s l o is_defined stored (p_text d type iok nok pok clear) =
        let same : Leaf.utf8 s.pv_utf8 ≡ l =
          ok_same (sym (text_back s type iok nok pok clear) ∙ stored) in
        rw (← same, flagged)

    -- The variables of the loop, with these entries still to come, do not make a MongoDB::DBRef.
    abbrev pub Harmless : Filling → List HashEntry → Type 0
    Harmless s hv =
        (reader.inflate_dbrefs ≡ false)
        ⊎ (((s.key_num ≡ 0) ⊎ (s.is_dbref ≡ false)) × All (λ e. bytes_eq e.key ref_key ≡ false) hv)

    pub finish_plain : (s : Filling) → Harmless s [] → finish reader s ≡ ok (Out.hash s.ret)
    unfolding finish
    finish_plain s (inl off) = ground arith
    finish_plain s (inr (inl none_yet, rest)) = ground arith
    finish_plain s (inr (inr no_ref, rest)) = ground arith

    pub Harmless-fresh :
        (hv : List HashEntry) → StaysHash reader.inflate_dbrefs hv → Harmless fresh hv
    Harmless-fresh hv (inl off) = inl off
    Harmless-fresh hv (inr clear) = inr (inl refl, clear)

    Harmless-store :
        (s : Filling) (e : HashEntry) (o : Out) (hv : List HashEntry)
        → Harmless s (e ∷ hv)
        → Harmless (store s e.key o) hv
    unfolding store still_dbref
    Harmless-store s e o hv (inl off) = inl off
    Harmless-store s e o hv (inr (inl none_yet, clear)) =
        inr (inr (rw (none_yet, clear.0) (ground arith)), clear.1)
    Harmless-store s e o hv (inr (inr no_ref, clear)) =
        inr (inr (rw (no_ref) (ground arith)), clear.1)

    undef_value :
        (x : Value) → Encodes api config heap is_insert undef x → elem_to_sv reader x ≡ ok Out.undef
    unfolding elem_to_sv leaf_to_sv
    undef_value x (undefined not_defined) = refl
    undef_value x (defined is_defined stands) = cc

    mutual
      unfolding elem_to_sv leaf_to_sv hv_fill av_fill store finish ◌>>=◌

      back :
          (v : Sv) (x : Value) (o : Out)
          → Encodes api config heap is_insert v x
          → Plain heap reader.inflate_dbrefs v o
          → elem_to_sv reader x ≡ ok o
      back v x o (undefined {s = s} not_defined) shape = undef_back v s o refl not_defined shape
      back v x o (defined is_defined stands) shape = Stands-back v x o is_defined stands shape

      Stands-back :
          (v : Sv) (x : Value) (o : Out)
          → is_undefined v ≡ false
          → Stands api config heap is_insert v x
          → Plain heap reader.inflate_dbrefs v o
          → elem_to_sv reader x ≡ ok o
      Stands-back v x o is_defined (of_scalar {s = s} {l = l} is) shape =
          scalar_back s l o (Bool_not s.defined is_defined) is shape
      Stands-back v x o is_defined (of_magic inner) shape = no_magic shape
      Stands-back v x o is_defined (of_oid at class) shape = no_class shape at class
      Stands-back v x o is_defined (of_object at class is_leaf is) shape = no_class shape at class
      Stands-back v x o is_defined (of_bytes at none_here body pv is) shape = no_bytes shape at body
      Stands-back v x o is_defined (of_ix_hash at class pairs) shape = no_ix shape at class
      Stands-back v x o is_defined (of_db_ref at class at' class' pairs) shape =
          no_class shape at class
      Stands-back v x o is_defined (of_code at class at' body entries) shape =
          no_class shape at class
      Stands-back v x o is_defined (of_array {p = p} at none_here body elements) shape =
          let (vs, is, pushed) = shape_array shape at body in
          rw (elements_back 0 Elements.end vs _ _ elements pushed, is)
      Stands-back v x o is_defined (of_hash {p = p} at none_here body entries) shape =
          let (es, is, stays, stored) = shape_hash shape at body in
          let (t, filled, ret, left) =
            entries_back fresh _ _ es entries stored (Harmless-fresh _ stays) in
          rw (filled, finish_plain t left, ret, is)

      pub entries_back :
          (s : Filling) (hv : List HashEntry) (fs : Fields) (es : Entries)
          → HashEncodes api config heap is_insert false hv fs
          → PlainEntries heap reader.inflate_dbrefs s.ret hv es
          → Harmless s hv
          → (t : Filling) × (hv_fill reader s fs ≡ ok t) × (t.ret ≡ es) × Harmless t []
      entries_back s hv fs es none_left all_stored harmless = (s, refl, refl, harmless)
      entries_back s hv fs es (skip left_out clean rest) shape harmless = cc
      entries_back s hv fs es (entry {k = k} {x = x} kept clean got named encodes rest)
            (store_next {e = e} {v = v} {o = o} utf8 is shape others) harmless =
          let clear = (contains_null_char_iff e.key).0 clean in
          let text : entry_key e ≡ e.key = entry_key_utf8 e utf8 in
          let name : k ≡ e.key =
            clean_same config is_insert (c_string (entry_key e)) k plain_keys named
            ∙ (ap c_string text ∙ c_string_same e.key clear) in
          let made =
            back _ x o encodes (
              subst (λ w. Plain heap reader.inflate_dbrefs w o) (some_same (sym is ∙ got)) shape) in
          let (t, filled, ret, left) =
            entries_back (store s e.key o) _ _ es rest others (Harmless-store s e o _ harmless) in
          (t, rw (made, name) filled, ret, left)

      elements_back :
          (i : ℕ) (us vs : Elements) (av : List (Option Sv)) (fs : Fields)
          → ArrayEncodes api config heap is_insert i av fs
          → PlainElements heap reader.inflate_dbrefs us av vs
          → av_fill reader us fs ≡ ok vs
      elements_back i us vs av fs no_more all_pushed = refl
      elements_back i us vs av fs (hole {x = x} named encodes rest) (push_hole others) =
          let made = undef_value x encodes in
          rw (made) (elements_back (i + 1) (av_push us Out.undef) vs _ _ rest others)
      elements_back i us vs av fs (element {v = v} {x = x} named encodes rest)
            (push_next {o = o} shape others) =
          rw (back v x o encodes shape, elements_back (i + 1) (av_push us o) vs _ _ rest others)

-- What append_sv stores for undefined values, integers, doubles and strings, in hashes and arrays
-- of these to any depth, elem_to_sv reads back as the same values: in hashes with UTF-8 keys that
-- have no NUL byte and are not "$ref" where DBRefs are inflated, with 64-bit integers used on both
-- sides and the UTF-8 flag set on strings, and with neither looks_like_number nor a special
-- character set.
pub append_sv-elem_to_sv :
    (api : Libbson) (laws : LibbsonLaws api) (config : Config) (heap : Heap) (reader : Reader)
    → config.look_for_numbers ≡ false
    → config.use_64_bit_int ≡ true
    → config.perl_upto_10 ≡ false
    → config.special_char ≡ none
    → reader.utf8_flag_on ≡ true
    → reader.use_64_bit_int ≡ true
    → (fuel : ℕ) (stack : Stack) (is_insert : Bool) (b : api.Bson) (key : Bytes) (sv : Sv) (o : Out)
      (b' : api.Bson)
    → Plain heap reader.inflate_dbrefs sv o
    → append_sv api config heap fuel stack is_insert b key sv ≡ ok b'
    → api.accepted b' ≡ true
    → (k : Bytes) × (x : Value) × (api.fields b' ≡ api.fields b ⋈ single k x)
      × (elem_to_sv reader x ≡ ok o)
append_sv-elem_to_sv api laws config heap reader no_numbers wide modern plain_keys flagged wide_back
      fuel stack i b key sv o b' shape stored accepted =
    let adds = append_sv-Sound api laws config heap fuel stack i b key sv b' stored in
    let read =
      back api config heap reader i no_numbers wide modern plain_keys flagged wide_back sv
        adds.value o adds.encodes shape in
    (adds.name, adds.value, (adds.grows accepted).1, read)
