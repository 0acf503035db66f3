-- ===== src/Wire/Act.antt =====
-- Code that changes a state and may throw: what it changed before a throw stays changed.
use mcpd.Base.{◌≡◌, refl}
use mcpd.Wire.Defs.{Result, ok, err, Error}

abbrev pub Act : Type 0 → Type 0 → Type 0
Act S A = S → Result A × S

abbrev pub resume : {S A B : Type 0} → (A → Act S B) → Result A × S → Result B × S
resume f (ok a, s) = f a s
resume f (err e, s) = (err e, s)

infixl 5 ◌>>=◌ ◌>>◌
unfoldable pub ◌>>=◌ : {S A B : Type 0} → Act S A → (A → Act S B) → Act S B
◌>>=◌ m f s = resume f (m s)

abbrev pub ◌>>◌ : {S A B : Type 0} → Act S A → Act S B → Act S B
m >> n = m >>= λ _. n

unfoldable pub return : {S A : Type 0} → A → Act S A
return a s = (ok a, s)

unfoldable pub fail : {S A : Type 0} → Error → Act S A
fail e s = (err e, s)

-- A call that leaves the state alone.
unfoldable pub lift : {S A : Type 0} → Result A → Act S A
lift r s = (r, s)

unfoldable pub get : {S : Type 0} → Act S S
get s = (ok s, s)

unfoldable pub modify : {S : Type 0} → (S → S) → Act S (Unit {0})
modify f s = (ok tt, f s)

abbrev put_back : {S T A : Type 0} → (S → T → S) → S → Result A × T → Result A × S
put_back put s (r, t) = (r, put s t)

-- A call on a part of the state.
unfoldable pub on : {S T A : Type 0} → (S → T) → (S → T → S) → Act T A → Act S A
on part put m s = put_back put s (m (part s))

module _ {S A B : Type 0} where
  -- A call that returns is followed by the rest.
  pub >>=-ok :
      (m : Act S A) (f : A → Act S B) (s s' : S) (a : A) → m s ≡ (ok a, s') → (m >>= f) s ≡ f a s'
  unfolding ◌>>=◌
  >>=-ok m f s s' a h = rw h

  -- A call that throws is the end.
  pub >>=-err :
      (m : Act S A) (f : A → Act S B) (s s' : S) (e : Error)
      → m s ≡ (err e, s')
      → (m >>= f) s ≡ (err e, s')
  unfolding ◌>>=◌
  >>=-err m f s s' e h = rw h

pub on-ok :
    {S T A : Type 0} (part : S → T) (put : S → T → S) (m : Act T A) (s : S) (r : Result A) (t : T)
    → m (part s) ≡ (r, t)
    → on part put m s ≡ (r, put s t)
unfolding on
on-ok part put m s r t h = rw h

abbrev handled : {S A : Type 0} → (Error → Act S A) → Result A × S → Result A × S
handled handler (ok a, s) = (ok a, s)
handled handler (err e, s) = handler e s

-- `try { m } catch (const std::exception &e) { handler }`; everything that the model throws is one.
unfoldable pub catching : {S A : Type 0} → Act S A → (Error → Act S A) → Act S A
catching m handler s = handled handler (m s)

-- Steps that do not touch the state, or do nothing else.
module _ {S A B : Type 0} where
  pub lift-ok :
      (r : Result A) (f : A → Act S B) (s : S) (a : A) → r ≡ ok a → (lift r >>= f) s ≡ f a s
  unfolding ◌>>=◌ lift
  lift-ok r f s a h = rw h

  pub return-then : (a : A) (f : A → Act S B) (s : S) → (return a >>= f) s ≡ f a s
  unfolding ◌>>=◌ return
  return-then a f s = refl

pub modify-then :
    {S B : Type 0} (g : S → S) (f : Unit {0} → Act S B) (s : S) → (modify g >>= f) s ≡ f tt (g s)
unfolding ◌>>=◌ modify
modify-then g f s = refl

pub get-then : {S B : Type 0} (f : S → Act S B) (s : S) → (get >>= f) s ≡ f s s
unfolding ◌>>=◌ get
get-then f s = refl

-- A call on a part, which returns, before the rest.
pub on-then :
    {S T A B : Type 0} (part : S → T) (put : S → T → S) (m : Act T A) (f : A → Act S B) (s : S)
    (a : A) (t : T)
    → m (part s) ≡ (ok a, t)
    → (on part put m >>= f) s ≡ f a (put s t)
unfolding ◌>>=◌ on
on-then part put m f s a t h = rw h

-- What returns is not handled, and what throws is.
pub catching-ok :
    {S A : Type 0} (m : Act S A) (handler : Error → Act S A) (s s' : S) (a : A)
    → m s ≡ (ok a, s')
    → catching m handler s ≡ (ok a, s')
unfolding catching
catching-ok m handler s s' a h = rw h

pub catching-err :
    {S A : Type 0} (m : Act S A) (handler : Error → Act S A) (s s' : S) (e : Error)
    → m s ≡ (err e, s')
    → catching m handler s ≡ handler e s'
unfolding catching
catching-err m handler s s' e h = rw h
