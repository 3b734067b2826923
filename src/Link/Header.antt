-- ===== src/Link/Header.antt =====
-- The bounds on the length that get_header accepts.
use mongo_perl_driver.Common.{
  some_same, ℕ, ◌≤◌, ◌≡◌, refl, Bool, false, some, arith, ℤ, pos, negsuc,
}
use mongo_perl_driver.Link.{Network, State}
use mongo_perl_driver.Link.Hear.{bad_length, get_header}
use mongo_perl_driver.Link.Cursor.{Header}

bad_length_lem :
    (be : Bool) (net : Network) (len : ℤ)
    → bad_length be net len ≡ false
    → (n : ℕ) × (len ≡ pos n) × (36 ≤ n) × (n ≤ 67108864)
unfolding bad_length
bad_length_lem be net (pos n) h = (n, refl, ground arith, ground arith)
bad_length_lem be net (negsuc n) h = ground arith

-- A header that get_header accepts has a length of at least the 36 bytes of the header of a reply
-- and at most 64 MB: what the length says of the documents is never negative.
pub get_header_bounds :
    (be : Bool) (net : Network) (s : State net.World) (h : Header)
    → (get_header be net s).0 ≡ some h
    → (n : ℕ) × (h.length_field ≡ pos n) × (36 ≤ n) × (n ≤ 67108864)
unfolding get_header
get_header_bounds be net s h e =
    let good : bad_length be net h.length_field ≡ false = ground (arith, some_same {A = Header}) in
    bad_length_lem be net h.length_field good
