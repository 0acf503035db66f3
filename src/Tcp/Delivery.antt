-- ===== src/Tcp/Delivery.antt =====
-- The loops of send and recv finish: when enough calls move at least one byte, all bytes go through.
use mcpd.Base.{ℕ, zero, suc, ◌+◌, ◌≤◌, ◌≡◌, refl, sym, ap, ◌∙◌, arith, min, Bool, false}
use mcpd.Base.{List, [], ◌∷◌, ◌++◌, length, take, drop, length-drop, length-append}
use mcpd.Base.{append_assoc, append-nil, ◌==◌, if◌then◌else◌}
use mcpd.Wire.{Bytes, Result, ok}
use mcpd.Tcp.Streams.{Event, interrupted, failed, moves, Stream, stream, write_loop, read_loop}

-- How many calls move something before one fails.
abbrev pub progress : List Event → ℕ
progress [] = 0
progress (interrupted ∷ events) = progress events
progress (failed errno ∷ events) = 0
progress (moves n ∷ events) = let rest = progress events in if n == 0 then 0 else suc rest

pub take-drop : {A : Type 0} (n : ℕ) (xs : List A) → take n xs ++ drop n xs ≡ xs
take-drop zero xs = refl
take-drop (suc n) [] = refl
take-drop (suc n) (x ∷ xs) = ap (λ ys. x ∷ ys) (take-drop n xs)

pub moves_some :
    {A : Type 0} (none_moved : Bool) (failure rest : Result A × Stream)
    → none_moved ≡ false
    → (if none_moved then failure else rest) ≡ rest
moves_some none_moved failure rest h = rw h

-- However the calls split the bytes, and however often they are interrupted, writeAll sends every byte once
-- and in order, if at least as many calls as there are bytes move something before one fails, and spends at most
-- one such call for each byte.
pub write_loop-progress :
    (events : List Event) (bytes sent : Bytes)
    → length bytes ≤ progress events
    → (left : List Event) × (write_loop events bytes sent ≡ (ok tt, stream left (sent ++ bytes)))
      × (progress events ≤ progress left + length bytes)
unfolding write_loop
write_loop-progress [] [] sent h = ([], (rw append-nil), omega arith)
write_loop-progress [] (b ∷ bs) sent h = absurd (omega arith)
write_loop-progress (event ∷ events) [] sent h = (event ∷ events, (rw append-nil), omega arith)
write_loop-progress (interrupted ∷ events) (b ∷ bs) sent h =
    write_loop-progress events (b ∷ bs) sent h
write_loop-progress (failed errno ∷ events) (b ∷ bs) sent h = absurd (omega arith)
write_loop-progress (moves zero ∷ events) (b ∷ bs) sent h = absurd (omega arith)
write_loop-progress (moves (suc n) ∷ events) (b ∷ bs) sent h =
    let moved = min (suc n) (length (b ∷ bs)) in
    let (left, e, p) =
      write_loop-progress events (drop moved (b ∷ bs)) (sent ++ take moved (b ∷ bs))
        (grind (arith, length-drop {0} moved (b ∷ bs))) in
    (
      left,
      moves_some (moved == 0) _ _ (ground arith)
          ∙ e
          ∙ ap (λ (t : Bytes). (ok tt, stream left t))
              (append_assoc sent (take moved (b ∷ bs)) (drop moved (b ∷ bs))
                ∙ ap (λ (t : Bytes). sent ++ t) (take-drop moved (b ∷ bs))),
      grind (arith, p, length-drop {0} moved (b ∷ bs)),
    )

pub take-append_le :
    {A : Type 0} (n : ℕ) (xs ys : List A) → n ≤ length xs → take n (xs ++ ys) ≡ take n xs
take-append_le zero xs ys h = refl
take-append_le (suc n) [] ys h = absurd (omega arith)
take-append_le (suc n) (x ∷ xs) ys h = ap (λ zs. x ∷ zs) (take-append_le n xs ys (omega arith))

pub drop-append_le :
    {A : Type 0} (n : ℕ) (xs ys : List A) → n ≤ length xs → drop n (xs ++ ys) ≡ drop n xs ++ ys
drop-append_le zero xs ys h = refl
drop-append_le (suc n) [] ys h = absurd (omega arith)
drop-append_le (suc n) (x ∷ xs) ys h = drop-append_le n xs ys (omega arith)

same_call :
    (events : List Event) {size size' : ℕ} {incoming incoming' got got' : Bytes}
    → size ≡ size'
    → incoming ≡ incoming'
    → got ≡ got'
    → read_loop events size incoming got ≡ read_loop events size' incoming' got'
same_call events a b c = rw (a, b, c)

-- However the calls split the bytes, and however often they are interrupted, readAll takes exactly the bytes
-- that were asked for from the front of what comes, in order, and leaves the others, if at least as many calls
-- as there are bytes wanted move something before one fails, and it spends at most one such call for each byte.
pub read_loop-progress :
    (events : List Event) (wanted later got : Bytes)
    → length wanted ≤ progress events
    → (left : List Event) × (read_loop events (length wanted) (wanted ++ later) got
        ≡ (ok (got ++ wanted), stream left later))
      × (progress events ≤ progress left + length wanted)
unfolding read_loop
read_loop-progress [] [] later got h = ([], (rw append-nil), omega arith)
read_loop-progress [] (b ∷ bs) later got h = absurd (omega arith)
read_loop-progress (event ∷ events) [] later got h = (event ∷ events, (rw append-nil), omega arith)
read_loop-progress (interrupted ∷ events) (b ∷ bs) later got h =
    read_loop-progress events (b ∷ bs) later got h
read_loop-progress (failed errno ∷ events) (b ∷ bs) later got h = absurd (omega arith)
read_loop-progress (moves zero ∷ events) (b ∷ bs) later got h = absurd (omega arith)
read_loop-progress (moves (suc n) ∷ events) (b ∷ bs) later got h =
    let wanted = b ∷ bs in
    let moved = min (suc n) (min (length wanted) (length (wanted ++ later))) in
    let fits : moved ≤ length wanted = omega arith in
    let (left, e, p) =
      read_loop-progress events (drop moved wanted) later (got ++ take moved wanted)
        (grind (arith, length-drop {0} moved wanted, length-append {0} wanted later)) in
    (
      left,
      moves_some (moved == 0) _ _ (ground (arith, length-append {0} wanted later))
          ∙ same_call events (sym (length-drop moved wanted))
              (drop-append_le moved wanted later fits)
              (ap (λ (t : Bytes). got ++ t) (take-append_le moved wanted later fits))
          ∙ e
          ∙ ap (λ (t : Bytes). (ok t, stream left later))
              (append_assoc got (take moved wanted) (drop moved wanted)
                ∙ ap (λ (t : Bytes). got ++ t) (take-drop moved wanted)),
      grind (arith, p, length-drop {0} moved wanted, length-append {0} wanted later),
    )
