-- ===== src/Runtime/Failures.antt =====
-- What the loop of a worker does when a round of it throws.
use mcpd.Base.{
  ℕ, ◌≡◌, refl, ◌∙◌, true, false, Bool, ◌++◌, [], ◌∷◌, if◌then◌else◌, ◌==◌, not, ◌||◌, ◌⊎◌, inl,
  inr,
}
use mcpd.Base.Text.{codes}
use mcpd.Base.Search.{Has, contains-Has}
use mcpd.Wire.{Bytes, Result, ok, err, Error, what}
use mcpd.Wire.Act.{
  Act, ◌>>=◌, ◌>>◌, return, fail, lift, resume, >>=-ok, modify-then, catching, catching-err,
  catching-ok, modify,
}
use mcpd.Protocol.{error, encode_error}
use mcpd.Tcp.{Socket, Snappy, TransportCompression, send_frame_bytes, default_max_frame_bytes}
use mcpd.Runtime.Sessions.{Times}
use mcpd.Runtime.Worker.{
  PartitionWorker, WorkerRuntime, Hook, on_error, on_frame_sent, is_fatal, hook, blank_transfer,
  on_socket,
}
use mcpd.Runtime.Loop.{serve_next, one_round, answer_error, send_error_best_effort}

-- What a call has left alone: the solver and the baselines.
pub record SameElse {S : Type 0} (w w' : WorkerRuntime S) : Type 0 where
  pub same_solver : w'.solver ≡ w.solver
  pub same_state : w'.temporal_state ≡ w.temporal_state

-- A call that always returns and leaves the solver and the baselines alone.
abbrev Harmless : {S A : Type 0} → Act (WorkerRuntime S) A → Type 0
Harmless {S = S} {A} m =
    (w : WorkerRuntime S) → (a : A) × (w' : WorkerRuntime S) × (m w ≡ (ok a, w')) × SameElse w w'

-- The texts after which the connection cannot be used any more.
abbrev pub BreaksOff : Bytes → Type 0
BreaksOff text = Has text (codes "socket ") ⊎ Has text (codes "compressed transport frame")

or-split : (a b : Bool) → (a || b) ≡ true → (a ≡ true) ⊎ (b ≡ true)
or-split true b h = inl refl
or-split false b h = inr h

or_true : (a : Bool) → (a || true) ≡ true
or_true true = refl
or_true false = refl

is_fatal-true : (text : Bytes) → is_fatal text ≡ true → BreaksOff text
unfolding is_fatal
is_fatal-true text h = elim (or-split _ _ h) [
  | inl k ↦ inl ((contains-Has text (codes "socket ")).0 k)
  | inr k ↦ inr ((contains-Has text (codes "compressed transport frame")).0 k)
]

BreaksOff-is_fatal : (text : Bytes) → BreaksOff text → is_fatal text ≡ true
unfolding is_fatal
BreaksOff-is_fatal text (inl x) = rw ((contains-Has text (codes "socket ")).1 x)
BreaksOff-is_fatal text (inr x) =
    rw ((contains-Has text (codes "compressed transport frame")).1 x, or_true _)

is_fatal-false : (text : Bytes) → is_fatal text ≡ false → ¬ BreaksOff text
is_fatal-false text h x = absurd (cc (h, BreaksOff-is_fatal text x))

-- How a round ends whose body threw `e` in `w'`: it throws `e` exactly if the text of `e` breaks the
-- connection off, else it returns true; the solver and the baselines are those of `w'`.
abbrev pub Ends :
    {S : Type 0}
    → Error
    → Result Bool × WorkerRuntime S
    → WorkerRuntime S
    → WorkerRuntime S
    → Type 0
Ends e r w' w'' =
    SameElse w' w''
    × ((BreaksOff (what e) × (r ≡ (err e, w''))) ⊎ ((¬ BreaksOff (what e)) × (r ≡ (ok true, w''))))

module _ {S : Type 0} where
  SameElse-self : (w : WorkerRuntime S) → SameElse w w
  SameElse-self w = record { same_solver = refl; same_state = refl }

  SameElse-then : {w w' w'' : WorkerRuntime S} → SameElse w w' → SameElse w' w'' → SameElse w w''
  SameElse-then h k = record {
    same_solver = k.same_solver ∙ h.same_solver;
    same_state = k.same_state ∙ h.same_state;
  }

  Harmless-then :
      {A B : Type 0} (m : Act (WorkerRuntime S) A) (f : A → Act (WorkerRuntime S) B)
      → Harmless m
      → ((a : A) → Harmless (f a))
      → Harmless (m >>= f)
  Harmless-then m f h k w =
      let (a, w', e, x) = h w in
      let (b, w'', e', y) = k a w' in (b, w'', >>=-ok m f w w' a e ∙ e', SameElse-then x y)

  Harmless-hook : (h : Hook) → Harmless {S = S} (hook h)
  Harmless-hook h w = (
    tt,
    record w { hooks = w.hooks ++ (h ∷ []) },
    (unfold modify in refl),
    record { same_solver = refl; same_state = refl },
  )

  Harmless-return : {A : Type 0} (a : A) → Harmless {S = S} (return a)
  Harmless-return a w = (a, w, (unfold return in refl), SameElse-self w)

  -- A call on the socket, after a pure step, in a try block whose handler returns.
  Harmless-try :
      {A B : Type 0} (r : Result B) (call : B → Act Socket A) (default : A)
      → Harmless {S = S} (catching (lift r >>= λ b. on_socket (call b)) (λ e. return default))
  unfolding catching lift ◌>>=◌ mcpd.Wire.Act.on return
  Harmless-try {A} {B} (err e) call default w = (default, w, refl, SameElse-self w)
  Harmless-try {A} {B} (ok b) call default w = tried (call b w.socket).0 (call b w.socket).1 refl
    where
      tried :
          (r : Result A) (socket : Socket)
          → call b w.socket ≡ (r, socket)
          → (a : A) × (w' : WorkerRuntime S) × (catching
                (lift (ok b) >>= λ b. on_socket (call b))
                (λ e. return default)
                w
              ≡ (ok a, w'))
            × SameElse w w'
      tried (ok a) socket h =
          (a, record w { socket = socket }, rw h, record { same_solver = refl; same_state = refl })
      tried (err e) socket h = (
        default,
        record w { socket = socket },
        rw h,
        record { same_solver = refl; same_state = refl },
      )

  Harmless-if :
      {A : Type 0} (b : Bool) {m n : Act (WorkerRuntime S) A}
      → Harmless m
      → Harmless n
      → Harmless (if b then m else n)
  Harmless-if true h k = h
  Harmless-if false h k = k

module _ {S : Type 0} (lib : Snappy) (solver : PartitionWorker S) (worker_name : Bytes)
    (compression : TransportCompression) (times : Times) where
  Harmless-send_error :
      (code : ℕ) (message : Bytes)
      → Harmless (send_error_best_effort lib solver worker_name compression times code message)
  unfolding send_error_best_effort
  Harmless-send_error code message =
      Harmless-then _ _
        (Harmless-try (encode_error (record { code = code; message = message }))
          (λ frame.
            send_frame_bytes lib times.compression frame compression default_max_frame_bytes)
          blank_transfer)
        (λ transfer.
          Harmless-if (not (transfer.logical_bytes == 0))
            (Harmless-hook (on_frame_sent error transfer)) (Harmless-return tt))

  -- Which way the handler's last test goes.
  ends :
      (b : Bool) (e : Error) (w' w'' : WorkerRuntime S)
      → SameElse w' w''
      → (r : Result Bool × WorkerRuntime S) → r ≡ ((if b then fail e else return true) w'')
      → is_fatal (what e) ≡ b
      → Ends e r w' w''
  unfolding fail return
  ends true e w' w'' x r h k = (x, inl (is_fatal-true _ k, h))
  ends false e w' w'' x r h k = (x, inr (is_fatal-false _ k, h))

  -- If the body of the try block throws in a round of the loop, the handler throws nothing of its own, whether
  -- or not the ERROR can be sent. Either the text of the exception has "socket " or "compressed transport
  -- frame" somewhere in it, and the round throws the same exception, which ends the loop; or the text has
  -- neither, and the round returns and the loop goes on. The solver and the baselines are as the body left them.
  pub serve_next-throws :
      (e : Error) (w w' : WorkerRuntime S)
      → one_round lib solver worker_name compression times w ≡ (err e, w')
      → (w'' : WorkerRuntime S) × Ends e
          (serve_next lib solver worker_name compression times w)
          w'
          w''
  unfolding serve_next answer_error
  serve_next-throws e w w' h =
      let (u, w1, k, x) = Harmless-hook (on_error (what e)) w' in
      let (v, w2, l, y) = Harmless-send_error 2 (what e) w1 in
      (
        w2,
        ends (is_fatal (what e)) e w' w2 (SameElse-then x y) _
            (catching-err (one_round lib solver worker_name compression times) _ w w' e h
              ∙ >>=-ok (hook (on_error (what e))) _ w' w1 u k
              ∙ >>=-ok (send_error_best_effort lib solver worker_name compression times 2 (what e))
                  _ w1 w2 v l)
            refl,
      )
