-- ===== src/Encode/Append/Sound.antt =====
-- The loops over hashes, arrays and Tie::IxHash append exactly the fields that stand for their
-- entries, in order.
use mongo_perl_driver.Common.{
  ℕ, ◌+◌, ◌≡◌, sym, inl, inr, Bool, true, ◌&&◌, Option, none, some, List, [], ◌∷◌, arith,
  if◌then◌else◌, Bool-cases, if_true, if_false, Option-cases, bytes_eq,
}
use mongo_perl_driver.Perl.{Bytes, Sv, HashEntry, Heap}
use mongo_perl_driver.Outcome.{Outcome, ok, >>=-eq-ok, unit-ok}
use mongo_perl_driver.Libbson.{Libbson, Value, Fields, nil, field, ◌⋈◌, single, ⋈-nil, ⋈_assoc}
use mongo_perl_driver.Encode.Keys.{Config, c_string, contains_null_char, clean_key}
use mongo_perl_driver.Encode.Circular.{Stack}
use mongo_perl_driver.Encode.Append.{Appender, hv_entry, hv_loop, av_loop, ix_loop}
use mongo_perl_driver.Encode.Entries.{index_key, undef, id_key, entry_key}
use mongo_perl_driver.Encode.Append.Meaning.{
  Encodes, HashEncodes, none_left, skip, entry, ArrayEncodes, no_more, hole, element, PairsEncode,
  end, pair,
}
use mathlib.Core.Path.{subst}

module _ (api : Libbson) (config : Config) (heap : Heap) where
  open api use {
    Bson, bson_new, append, document_begin, document_end, array_begin, array_end,
    append_code_with_scope, fields, accepted,
  }

  -- The document `after` is `before` with the given fields at its end, if libbson accepted them.
  abbrev pub Grows : Bson → Bson → Fields → Type 0
  Grows before after fs =
      accepted after ≡ true → (accepted before ≡ true) × (fields after ≡ fields before ⋈ fs)

  pub Grows-none : (b : Bson) → Grows b b nil
  Grows-none b h = (h, sym (⋈-nil (fields b)))

  pub Grows-same : (b b' : Bson) → ◌≡◌ {A = Outcome Bson} (ok b) (ok b') → Grows b b' nil
  Grows-same b b' h = subst (λ c. Grows b c nil) (cc) (Grows-none b)

  pub Grows-trans :
      (b c d : Bson) (fs gs : Fields) → Grows b c fs → Grows c d gs → Grows b d (fs ⋈ gs)
  Grows-trans b c d fs gs p q h =
      let (hc, ec) = q h in let (hb, eb) = p hc in (hb, rw (ec, eb) (⋈_assoc (fields b) fs gs))

  -- The fields that an appender adds for a value.
  pub record Adds (is_insert : Bool) (key : Bytes) (sv : Sv) (before after : Bson) : Type 0 where
    pub name : Bytes
    pub value : Value
    pub named : clean_key config is_insert key ≡ ok name
    pub encodes : Encodes api config heap is_insert sv value
    pub grows : Grows before after (single name value)

  -- What is proved of append_sv, assumed of the recursive call.
  abbrev pub Sound : Appender api config heap → Type 0
  Sound rec =
      (stack : Stack) (i : Bool) (b : Bson) (key : Bytes) (sv : Sv) (b' : Bson)
      → rec stack i b key sv ≡ ok b'
      → Adds i key sv b b'

  module _ (rec : Appender api config heap) (sound : Sound rec) where
    hv_entry_fetched :
        (stack : Stack) (i : Bool) (b : Bson) (e : HashEntry) (b' : Bson)
        → hv_entry api config heap rec stack i b e ≡ ok b'
        → (v : Sv) × (e.fetched ≡ some v) × (rec stack i b (c_string (entry_key e)) v ≡ ok b')
    unfolding hv_entry
    hv_entry_fetched stack i b e b' h = elim (Option-cases e.fetched) [
      | inl absent ↦ absurd (ground arith)
      | inr (v, found) ↦ (v, found, rw (found, hv_entry) at h)
    ]

    pub hv_loop_sound :
        (stack : Stack) (i ids : Bool) (b : Bson) (es : List HashEntry) (b' : Bson)
        → hv_loop api config heap rec stack i ids b es ≡ ok b'
        → (fs : Fields) × HashEncodes api config heap i ids es fs × Grows b b' fs
    unfolding hv_loop
    hv_loop_sound stack i ids b [] b' h = (nil, none_left, Grows-same b b' h)
    hv_loop_sound stack i ids b (e ∷ es) b' h =
        let (u, clean, rest) = >>=-eq-ok (contains_null_char e.key) _ h in
        let (b1, first, later) =
          >>=-eq-ok
            (if ids && bytes_eq e.key id_key
              then ok b
              else hv_entry api config heap rec stack i b e)
            _ rest in
        let (fs, encodes, grows) = hv_loop_sound stack i ids b1 es b' later in
        let pure_key = unit-ok _ u clean in
        elim (Bool-cases (ids && bytes_eq e.key id_key)) [
          | inl is_id ↦ (
            fs,
            skip is_id pure_key encodes,
            Grows-trans b b1 b' nil fs (Grows-same b b1 (if_true _ _ _ _ is_id first)) grows,
          )
          | inr other ↦
              let (v, found, call) =
                hv_entry_fetched stack i b e b1 (if_false _ _ _ _ other first) in
              let added = sound stack i b _ v b1 call in
              (
                field added.name added.value fs,
                entry other pure_key found added.named added.encodes encodes,
                Grows-trans b b1 b' (single added.name added.value) fs added.grows grows,
              )
        ]

    pub av_loop_sound :
        (stack : Stack) (i : Bool) (b : Bson) (n : ℕ) (av : List (Option Sv)) (b' : Bson)
        → av_loop api config heap rec stack i b n av ≡ ok b'
        → (fs : Fields) × ArrayEncodes api config heap i n av fs × Grows b b' fs
    unfolding av_loop
    av_loop_sound stack i b n [] b' h = (nil, no_more, Grows-same b b' h)
    av_loop_sound stack i b n (none ∷ av) b' h =
        let (b1, first, later) = >>=-eq-ok (rec stack i b (index_key n) undef) _ h in
        let added = sound stack i b (index_key n) undef b1 first in
        let (fs, encodes, grows) = av_loop_sound stack i b1 (n + 1) av b' later in
        (
          field added.name added.value fs,
          hole added.named added.encodes encodes,
          Grows-trans b b1 b' (single added.name added.value) fs added.grows grows,
        )
    av_loop_sound stack i b n (some v ∷ av) b' h =
        let (b1, first, later) = >>=-eq-ok (rec stack i b (index_key n) v) _ h in
        let added = sound stack i b (index_key n) v b1 first in
        let (fs, encodes, grows) = av_loop_sound stack i b1 (n + 1) av b' later in
        (
          field added.name added.value fs,
          element added.named added.encodes encodes,
          Grows-trans b b1 b' (single added.name added.value) fs added.grows grows,
        )

    pub ix_loop_sound :
        (stack : Stack) (i : Bool) (b : Bson) (keys : List (Option Bytes))
        (values : List (Option Sv)) (b' : Bson)
        → ix_loop api config heap rec stack i b keys values ≡ ok b'
        → (fs : Fields) × PairsEncode api config heap i keys values fs × Grows b b' fs
    unfolding ix_loop
    ix_loop_sound stack i b [] values b' h = (nil, end, Grows-same b b' h)
    ix_loop_sound stack i b (none ∷ keys) values b' h = cc
    ix_loop_sound stack i b (some key ∷ keys) [] b' h = cc
    ix_loop_sound stack i b (some key ∷ keys) (none ∷ values) b' h = cc
    ix_loop_sound stack i b (some key ∷ keys) (some v ∷ values) b' h =
        let (u, clean, rest) = >>=-eq-ok (contains_null_char key) _ h in
        let (b1, first, later) = >>=-eq-ok (rec stack i b key v) _ rest in
        let added = sound stack i b key v b1 first in
        let (fs, encodes, grows) = ix_loop_sound stack i b1 keys values b' later in
        (
          field added.name added.value fs,
          pair (unit-ok _ u clean) added.named added.encodes encodes,
          Grows-trans b b1 b' (single added.name added.value) fs added.grows grows,
        )
