-- ===== src/Buffer/Words.antt =====
-- MONGO_32 and MONGO_64 undo the byte order of the host.
use mongo_perl_driver.Common.{ℕ, ◌^◌, ◌<◌, ◌≡◌, refl, Bool, true, false, arith}
use mongo_perl_driver.Buffer.{le32, le64, host32, host64, mongo_32, mongo_64}

-- A 32-bit word passed through MONGO_32 lies in memory lowest byte first, on every host.
pub host32-mongo_32 : (be : Bool) (w : ℕ) → host32 be (mongo_32 be w) ≡ le32 w
unfolding host32 mongo_32 le32
host32-mongo_32 false w = refl
host32-mongo_32 true w = ground arith

pub host64-mongo_64 : (be : Bool) (w : ℕ) → host64 be (mongo_64 be w) ≡ le64 w
unfolding host64 mongo_64 le64
host64-mongo_64 false w = refl
host64-mongo_64 true w = ground arith

-- Applied twice MONGO_32 is the identity: what is sent with it is read with it.
pub mongo_32-mongo_32 : (be : Bool) (w : ℕ) → w < 2 ^ 32 → mongo_32 be (mongo_32 be w) ≡ w
unfolding mongo_32
mongo_32-mongo_32 false w h = refl
mongo_32-mongo_32 true w h = omega arith

pub mongo_64-mongo_64 : (be : Bool) (w : ℕ) → w < 2 ^ 64 → mongo_64 be (mongo_64 be w) ≡ w
unfolding mongo_64
mongo_64-mongo_64 false w h = refl
mongo_64-mongo_64 true w h = omega arith
