-- ===== src/Encode/Entries.antt =====
-- What the functions of append_sv read of hashes, arrays and objects: entries, keys, ids, pointers.
use mongo_perl_driver.Common.{
  ℕ, zero, suc, ◌+◌, ◌/◌, ◌%◌, Bool, true, false, Option, none, some, List, [], ◌∷◌, ltb,
  if◌then◌else◌, get_elem?, bytes_eq, pos,
}
use mongo_perl_driver.Perl.{
  Bytes, Sv, scalar, HashEntry, Body, IxHash, Class, Referent, Heap, deref, SvType, sv_null, sv_pv,
  hash, tie_ix_hash,
}
use mongo_perl_driver.Outcome.{Outcome, ok, croak, circular_ref, bad_pointer}
use mongo_perl_driver.Encode.Keys.{latin1_utf8}
use mongo_perl_driver.Encode.Circular.{Stack, check_circular_ref}

-- An _id that is put on the list of ids: the value given, or a new OID (its twelve bytes).
pub data PushedId : Type 0 where
  given : Sv → PushedId
  generated : Bytes → PushedId

-- "_id"
abbrev pub id_key : Bytes
id_key = 95 ∷ 105 ∷ 100 ∷ []

-- newSV(0)
abbrev pub undef : Sv
undef = scalar (record {
  sv_type = sv_null;
  defined = false;
  iok = false;
  iokp = false;
  nok = false;
  pok = false;
  iv = pos 0;
  nv = 0;
  pv = [];
  pv_utf8 = [];
  pv_byte = some [];
  numeric = 0;
})

-- hv_exists and hv_fetchs at "_id"; `none` if there is no such key.
unfoldable pub find_id : List HashEntry → Option (Option Sv)
find_id [] = none
find_id (e ∷ es) = if bytes_eq e.key id_key then some e.fetched else find_id es

unfoldable pub decimal : ℕ → ℕ → Bytes → Bytes
decimal zero n acc = acc
decimal (suc fuel) n acc =
    let acc' = (48 + n % 10) ∷ acc in
    let more = decimal fuel (n / 10) acc' in if ltb n 10 then acc' else more

-- SvPV_nolen(newSViv(i)); an index is below 2 ^ 31, which has ten digits
unfoldable pub index_key : ℕ → Bytes
unfolding decimal
index_key i = decimal 10 i []

-- Tie::IxHash's array of values, by av_fetch.
abbrev pub fetch {ℓ} : {A : Type ℓ} → List (Option A) → ℕ → Option A
fetch av i = elim (get_elem? av i) [ none ↦ none | some v ↦ v ]

-- HeUTF8(he) ? key : bytes_to_utf8(key)
unfoldable pub entry_key : HashEntry → Bytes
entry_key e = if e.utf8 then e.key else latin1_utf8 e.key

-- The heap as the pointers of the C code see it; a pointer to something else is a fault.
unfoldable pub referent_at : Heap → ℕ → Outcome Referent
referent_at heap ptr = elim (deref heap ptr) [ none ↦ croak bad_pointer | some r ↦ ok r ]

unfoldable pub as_hash : Body → Outcome (List HashEntry)
as_hash (hash hv) = ok hv
as_hash _ = croak bad_pointer

unfoldable pub as_ix_hash : Option Class → Outcome IxHash
as_ix_hash (some (tie_ix_hash ix)) = ok ix
as_ix_hash _ = croak bad_pointer

-- if (!(stack = check_circular_ref(ptr, stack))) croak("circular ref");
unfoldable pub enter : ℕ → Stack → Outcome Stack
enter ptr stack = elim (check_circular_ref ptr stack) [
  | none ↦ croak circular_ref
  | some stack' ↦ ok stack'
]

abbrev pub is_some {ℓ} : {A : Type ℓ} → Option A → Bool
is_some none = false
is_some (some _) = true

-- hv_exists in the index at position 0, and av_fetch(values, SvIV(*index), 0).
unfoldable pub ix_id : IxHash → Option (Option Sv)
ix_id ix = elim ix.id_index [ none ↦ none | some i ↦ some (fetch ix.values i) ]

-- SVt_PV
unfoldable pub is_pv : SvType → Bool
is_pv sv_pv = true
is_pv _ = false
