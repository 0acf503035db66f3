-- ===== src/Base/Search.antt =====
-- What std::string::find finds: a part of a text that stands somewhere in it.
use Prim.Native.Nat.{ℕ}
use mathlib.Core.Path.{◌≡◌, refl, sym, ap, subst}
use mathlib.Core.Logic.{◌↔◌, inl, inr}
use mathlib.Core.Bool.{Bool, true, false, ◌||◌, ◌&&◌}
use mathlib.Core.List.{List, [], ◌∷◌, ◌++◌}
use native.Mathlib.Omega.{arith}
use mcpd.Base.Tests.{◌==◌, ==_iff, Bool-cases}
use mcpd.Base.Text.{starts_with, contains}

-- The text is `part` with something before it and something after it.
abbrev pub Has : List ℕ → List ℕ → Type 0
Has text part = (before : List ℕ) × (after : List ℕ) × (text ≡ before ++ (part ++ after))

both-true : (a b : Bool) → (a && b) ≡ true → (a ≡ true) × (b ≡ true)
both-true true b h = (refl, h)
both-true false b h = absurd (ground arith)

starts_with-true :
    (part text : List ℕ) → starts_with part text ≡ true → (after : List ℕ) × (text ≡ part ++ after)
starts_with-true [] text h = (text, refl)
starts_with-true (c ∷ part) [] h = absurd (ground arith)
starts_with-true (c ∷ part) (d ∷ text) h =
    let (e, k) = both-true (c == d) (starts_with part text) h in
    let (after, p) = starts_with-true part text k in (after, cc ((==_iff c d).0 e, p))

starts_with-append : (part after : List ℕ) → starts_with part (part ++ after) ≡ true
starts_with-append [] after = refl
starts_with-append (c ∷ part) after = rw ((==_iff c c).1 refl, starts_with-append part after)

contains-starts_with :
    (text part : List ℕ) → starts_with part text ≡ true → contains text part ≡ true
contains-starts_with [] part h = h
contains-starts_with (c ∷ text) part h = rw h

contains-append : (before part after : List ℕ) → contains (before ++ (part ++ after)) part ≡ true
contains-append [] part after = contains-starts_with _ part (starts_with-append part after)
contains-append (c ∷ before) part after = rw (
  contains-append before part after,
  or-true (starts_with part (c ∷ (before ++ (part ++ after)))),
)
  where
    or-true : (b : Bool) → (b || true) ≡ true
    or-true true = refl
    or-true false = refl

or_right : (a b : Bool) → a ≡ false → (a || b) ≡ true → b ≡ true
or_right a b e h = ground arith

contains-true : (text part : List ℕ) → contains text part ≡ true → Has text part
contains-true [] part h = let (after, p) = starts_with-true part [] h in ([], after, p)
contains-true (c ∷ text) part h = elim (Bool-cases (starts_with part (c ∷ text))) [
  | inl k ↦ (let (after, p) = starts_with-true part (c ∷ text) k in ([], after, p))
  | inr k ↦
      (let (before, after, p) = contains-true text part (or_right _ _ k h) in
        (c ∷ before, after, ap (λ (t : List ℕ). c ∷ t) p))
]

-- A text that has the part is one in which the search finds it.
pub contains-Has : (text part : List ℕ) → (contains text part ≡ true) ↔ Has text part
contains-Has text part = (
  contains-true text part,
  λ (before, after, p).
      subst (λ t. contains t part ≡ true) (sym p) (contains-append before part after),
)
