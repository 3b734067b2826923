-- ===== src/Tests/Server.antt =====
-- A server whose answers are a list of bytes, and a link that is connected to it.
use mongo_perl_driver.Common.{
  ℕ, zero, suc, ◌≤◌, ◌≡◌, refl, sym, true, false, Option, none, some, [], ◌∷◌, arith, length, take,
  drop, take-append-drop, length-take, pos,
}
use mongo_perl_driver.Perl.{Bytes}
use mongo_perl_driver.Link.{Server, Link, State, Network}
use mongo_perl_driver.Link.Reader.{Stream}
use mongo_perl_driver.Link.Reply.{Whole}

abbrev pub net : Network
net = record {
  World = Bytes;
  receiver = λ w n. (some (take n w), drop n w);
  sender = λ w bytes. (pos (length bytes), w);
  close = λ socket w. w;
  ssl_disconnect = λ w. w;
  readable = λ w socket timeout. (true, w);
  forget_master = λ s. s;
  connect = λ s. s;
  get_master = λ s. (none, s);
}

pub took_none :
    (w : Bytes) (n : ℕ) → ◌≡◌ {A = Option Bytes} (some (take n w)) (some []) → 1 ≤ n → w ≡ []
took_none w zero h k = absurd (omega (arith, k))
took_none [] (suc n) h k = refl
took_none (x ∷ w) (suc n) h k = cc

pub take-some :
    (w bs : Bytes) (n : ℕ) → ◌≡◌ {A = Option Bytes} (some (take n w)) (some bs) → take n w ≡ bs
take-some w bs n h = cc

abbrev pub stream : Stream net
stream = record {
  remaining = λ w. w;
  received = λ w n bs h.
      let is : take n w ≡ bs = take-some w bs n h in
      (rw (← is) (omega (arith, length-take n w)), rw (← is) (sym (take-append-drop n w)));
  ended = λ w n h k. took_none w n h k;
}

pub whole : Whole net stream
whole w n small enough = refl

abbrev pub up : Server
up = record { host = []; port = pos 27017; socket = pos 3; connected = true }

abbrev pub one_link : Link
one_link = record {
  auto_reconnect = false;
  timeout = pos 20000;
  copy = false;
  ssl = false;
  master = some 0;
}

abbrev pub connected_to : Bytes → State Bytes
connected_to answers = record { world = answers; servers = up ∷ []; link = one_link }
