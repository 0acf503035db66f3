-- ===== src/Tcp/Transfers.antt =====
-- What a call puts on the wire, and what a call takes from it.
use mcpd.Base.{ℕ, ◌+◌, ◌≤◌, ◌≡◌, refl, ◌∙◌, ap, arith, List, ◌++◌, [], length, length-append}
use mcpd.Wire.{Bytes, Result, ok}
use mcpd.Wire.Act.{Act, ◌>>=◌, ◌>>◌, return, lift, >>=-ok, on-ok}
use mcpd.Tcp.Streams.{Event, stream, write_all, read_all}
use mcpd.Tcp.Sockets.{Socket, with_incoming, with_outgoing, sending, receiving}
use mcpd.Tcp.Delivery.{progress, write_loop-progress, read_loop-progress}

-- A call that returns `a`, appends `wire` to what the socket sends, and leaves the other direction alone.
pub record Sends {A : Type 0} (m : Act Socket A) (a : A) (wire : Bytes) (s : Socket) : Type 0 where
  pub left : List Event
  pub does : m s ≡ (ok a, with_outgoing s (stream left (s.outgoing.bytes ++ wire)))
  pub spends : progress s.outgoing.events ≤ progress left + length wire

-- A call that returns `a`, takes `wire` from the front of what arrives and leaves `later`.
pub record Takes {A : Type 0} (m : Act Socket A) (a : A) (wire later : Bytes) (s : Socket)
    : Type 0 where
  pub left : List Event
  pub does : m s ≡ (ok a, with_incoming s (stream left later))
  pub spends : progress s.incoming.events ≤ progress left + length wire

-- A socket at which `wire` arrives, then `later`, and enough calls get through for `wire`.
pub record Arrives (wire later : Bytes) (s : Socket) : Type 0 where
  pub bytes : s.incoming.bytes ≡ wire ++ later
  pub enough : length wire ≤ progress s.incoming.events

-- A socket that can send at least `n` bytes.
abbrev pub CanSend : ℕ → Socket → Type 0
CanSend n s = n ≤ progress s.outgoing.events

pub Sends-write_all :
    (wire : Bytes) (s : Socket)
    → CanSend (length wire) s
    → Sends (sending (write_all wire)) tt wire s
unfolding write_all
Sends-write_all wire s h =
    let (left, e, p) = write_loop-progress s.outgoing.events wire s.outgoing.bytes h in
    record {
      left = left;
      does =
          on-ok (λ socket. socket.outgoing) with_outgoing (write_all wire) s (ok tt)
            (stream left (s.outgoing.bytes ++ wire)) e;
      spends = p;
    }

pub Takes-read_all :
    (wire later : Bytes) (s : Socket)
    → Arrives wire later s
    → Takes (receiving (read_all (length wire))) wire wire later s
unfolding read_all
Takes-read_all wire later s h =
    let (left, e, p) = read_loop-progress s.incoming.events wire later [] h.enough in
    record {
      left = left;
      does =
          on-ok (λ socket. socket.incoming) with_incoming (read_all (length wire)) s (ok wire)
            (stream left later)
            (ap (λ bs. read_all (length wire) (record s.incoming { bytes = bs })) h.bytes ∙ e);
      spends = p;
    }

pub Sends-return :
    {A B : Type 0} {m : Act Socket A} {a : A} {wire : Bytes} {s : Socket} (b : B)
    → Sends m a wire s
    → Sends (m >> return b) b wire s
Sends-return {m} {a} {wire} {s} b x = record {
  left = x.left;
  does = >>=-ok m (λ _. return b) s _ a x.does ∙ (unfold return in refl);
  spends = x.spends;
}

-- What arrives after a first part has been taken.
pub Arrives-then :
    {A : Type 0} {m : Act Socket A} {a : A} (wire wire' later : Bytes) (s : Socket)
    → Arrives (wire ++ wire') later s
    → (x : Takes m a wire (wire' ++ later) s)
    → Arrives wire' later (with_incoming s (stream x.left (wire' ++ later)))
Arrives-then wire wire' later s h x = record {
  bytes = refl;
  enough = omega (arith, h.enough, x.spends, length-append {0} wire wire');
}

pub Takes-then :
    {A B : Type 0} {m : Act Socket A} {a : A} (f : A → Act Socket B) {b : B}
    (wire wire' later : Bytes) (s : Socket)
    → (x : Takes m a wire (wire' ++ later) s)
    → Takes (f a) b wire' later (with_incoming s (stream x.left (wire' ++ later)))
    → Takes (m >>= f) b (wire ++ wire') later s
Takes-then {m} {a} f wire wire' later s x y = record {
  left = y.left;
  does = >>=-ok m f s _ a x.does ∙ y.does;
  spends = omega (arith, x.spends, y.spends, length-append {0} wire wire');
}

-- A pure step that succeeds.
pub Takes-lift :
    {A B : Type 0} {r : Result A} {a : A} (f : A → Act Socket B) {b : B} {wire later : Bytes}
    {s : Socket}
    → r ≡ ok a
    → Takes (f a) b wire later s
    → Takes (lift r >>= f) b wire later s
Takes-lift {r} {a} f {s} h x = record {
  left = x.left;
  does = >>=-ok (lift r) f s s a (unfold lift in ap (λ t. (t, s)) h) ∙ x.does;
  spends = x.spends;
}

pub Takes-end :
    {A : Type 0} {r : Result A} {a : A} (s : Socket)
    → r ≡ ok a
    → Takes (lift r) a [] s.incoming.bytes s
Takes-end s h = record {
  left = s.incoming.events;
  does = (unfold lift in ap (λ t. (t, s)) h);
  spends = omega arith;
}
