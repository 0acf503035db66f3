-- ===== src/Tcp/Views.antt =====
-- writeAllBuffers sends the buffers side by side.
use mcpd.Base.{
  ℕ, zero, suc, ◌+◌, ◌-◌, ◌≤◌, ◌≡◌, refl, sym, ap, ap, ◌∙◌, arith, min, Bool, true, false,
}
use mcpd.Base.{List, [], ◌∷◌, ◌++◌, length, take, drop, length-drop, length-append, All}
use mcpd.Base.{append_assoc, append-nil, ◌==◌, leb, if◌then◌else◌}
use mcpd.Wire.{Bytes, ok}
use mcpd.Protocol.{join_buffers}
use mcpd.Tcp.Streams.{
  Event, interrupted, failed, moves, Stream, stream, write_views, advance, non_empty,
  write_all_buffers,
}
use mcpd.Tcp.Delivery.{progress, take-drop, take-append_le, drop-append_le, moves_some}

drop-append_ge :
    {A : Type 0} (n : ℕ) (xs ys : List A)
    → length xs ≤ n
    → drop n (xs ++ ys) ≡ drop (n - length xs) ys
drop-append_ge n [] ys h = ap (λ (k : ℕ). drop k ys) (omega arith)
drop-append_ge zero (x ∷ xs) ys h = absurd (omega arith)
drop-append_ge (suc n) (x ∷ xs) ys h =
    drop-append_ge n xs ys (omega arith) ∙ ap (λ (k : ℕ). drop k ys) (omega arith)

drop-nil : {A : Type 0} (n : ℕ) → drop {A = A} n [] ≡ []
drop-nil zero = refl
drop-nil (suc n) = refl

-- What is left of the views is what is left of their bytes.
advance_case :
    (b : Bool) (w : ℕ) (view : Bytes) (views : List Bytes)
    → leb (length view) (suc w) ≡ b
    → join_buffers (advance (suc w - length view) views)
      ≡ drop (suc w - length view) (join_buffers views)
    → join_buffers (if b then advance (suc w - length view) views else drop (suc w) view ∷ views)
      ≡ drop (suc w) (view ++ join_buffers views)
advance_case true w view views h e =
    e ∙ sym (drop-append_ge (suc w) view (join_buffers views) (ground arith))
advance_case false w view views h e =
    (unfold join_buffers in sym (drop-append_le (suc w) view (join_buffers views) (ground arith)))

join-advance :
    (w : ℕ) (views : List Bytes) → join_buffers (advance w views) ≡ drop w (join_buffers views)
unfolding advance join_buffers
join-advance w [] = sym (drop-nil w)
join-advance zero (view ∷ views) = refl
join-advance (suc w) (view ∷ views) =
    advance_case (leb (length view) (suc w)) w view views refl
      (join-advance (suc w - length view) views)

abbrev HaveBytes : List Bytes → Type 0
HaveBytes views = All (λ view. 1 ≤ length view) views

HaveBytes-case :
    (b : Bool) (w : ℕ) (view : Bytes) (views rest : List Bytes)
    → leb (length view) (suc w) ≡ b
    → HaveBytes views
    → HaveBytes rest
    → HaveBytes (if b then rest else drop (suc w) view ∷ views)
HaveBytes-case true w view views rest h i j = j
HaveBytes-case false w view views rest h i j = (ground (arith, length-drop {0} (suc w) view), i)

HaveBytes-advance : (w : ℕ) (views : List Bytes) → HaveBytes views → HaveBytes (advance w views)
unfolding advance
HaveBytes-advance w [] h = tt
HaveBytes-advance zero (view ∷ views) h = h
HaveBytes-advance (suc w) (view ∷ views) h =
    HaveBytes-case (leb (length view) (suc w)) w view views _ refl h.1
      (HaveBytes-advance (suc w - length view) views h.1)

-- The bytes of the first views come first.
join-take :
    (k : ℕ) (views : List Bytes)
    → join_buffers (take k views) ++ join_buffers (drop k views) ≡ join_buffers views
unfolding join_buffers
join-take zero views = refl
join-take (suc k) [] = refl
join-take (suc k) (view ∷ views) =
    append_assoc view (join_buffers (take k views)) (join_buffers (drop k views))
    ∙ ap (λ (t : Bytes). view ++ t) (join-take k views)

-- The first views have a byte.
batch-le :
    (k : ℕ) (view : Bytes) (views : List Bytes)
    → HaveBytes (view ∷ views)
    → 1 ≤ length (join_buffers (take (suc k) (view ∷ views)))
unfolding join_buffers
batch-le k view views h = omega (arith, length-append {0} view (join_buffers (take k views)), h.0)

joined-le :
    (view : Bytes) (views : List Bytes)
    → HaveBytes (view ∷ views)
    → 1 ≤ length (join_buffers (view ∷ views))
unfolding join_buffers
joined-le view views h = omega (arith, length-append {0} view (join_buffers views), h.0)

-- Sending the first bytes of the first views is sending the first bytes of all of them.
take-batch :
    (m k : ℕ) (views : List Bytes)
    → m ≤ length (join_buffers (take k views))
    → take m (join_buffers (take k views)) ≡ take m (join_buffers views)
take-batch m k views h =
    sym (take-append_le m (join_buffers (take k views)) (join_buffers (drop k views)) h)
    ∙ ap (take m) (join-take k views)

write_views-progress :
    (k : ℕ) (events : List Event) (views : List Bytes) (sent : Bytes)
    → HaveBytes views
    → length (join_buffers views) ≤ progress events
    → (left : List Event) × (write_views (suc k) events views sent
        ≡ (ok tt, stream left (sent ++ join_buffers views)))
      × (progress events ≤ progress left + length (join_buffers views))
unfolding write_views
write_views-progress k [] [] sent h p = ([], (unfold join_buffers in rw append-nil), omega arith)
write_views-progress k [] (view ∷ views) sent h p = absurd (omega (arith, joined-le view views h))
write_views-progress k (event ∷ events) [] sent h p =
    (event ∷ events, (unfold join_buffers in rw append-nil), omega arith)
write_views-progress k (interrupted ∷ events) (view ∷ views) sent h p =
    write_views-progress k events (view ∷ views) sent h p
write_views-progress k (failed errno ∷ events) (view ∷ views) sent h p =
    absurd (omega (arith, joined-le view views h))
write_views-progress k (moves zero ∷ events) (view ∷ views) sent h p =
    absurd (omega (arith, joined-le view views h))
write_views-progress k (moves (suc n) ∷ events) (view ∷ views) sent h p =
    let all = view ∷ views in
    let batch = join_buffers (take (suc k) all) in
    let some_byte = batch-le k view views h in
    let moved = min (suc n) (length batch) in
    let e1 = join-advance moved all in
    let (left, e, q) =
      write_views-progress k events (advance moved all) (sent ++ take moved batch)
        (HaveBytes-advance moved all h)
        (grind (arith, ap length e1, length-drop {0} moved (join_buffers all))) in
    (
      left,
      moves_some (moved == 0) _ _ (ground arith)
          ∙ e
          ∙ ap (λ (t : Bytes). (ok tt, stream left t))
              (append_assoc sent (take moved batch) (join_buffers (advance moved all))
                ∙ ap (λ (t : Bytes). sent ++ t)
                    (ap (λ (t : Bytes). t ++ join_buffers (advance moved all))
                        (take-batch moved (suc k) all (omega arith))
                      ∙ ap (λ (t : Bytes). take moved (join_buffers all) ++ t) e1
                      ∙ take-drop moved (join_buffers all))),
      grind (
        arith,
        q,
        ap length e1,
        length-drop {0} moved (join_buffers all),
        ap length (join-take (suc k) all),
        length-append {0} batch (join_buffers (drop (suc k) all)),
      ),
    )

empty-nil : (buffer : Bytes) → (length buffer == 0) ≡ true → buffer ≡ []
empty-nil [] h = refl
empty-nil (b ∷ bs) h = absurd (ground arith)

-- The empty buffers, which are left out, have no bytes.
module _ (buffer : Bytes) (buffers : List Bytes) where
  skip_empty :
      (b : Bool)
      → (length buffer == 0) ≡ b
      → HaveBytes (non_empty buffers) × (join_buffers (non_empty buffers) ≡ join_buffers buffers)
      → HaveBytes (if b then non_empty buffers else buffer ∷ non_empty buffers)
        × (join_buffers (if b then non_empty buffers else buffer ∷ non_empty buffers)
            ≡ buffer ++ join_buffers buffers)
  skip_empty true h (i, e) =
      (i, e ∙ ap (λ (t : Bytes). t ++ join_buffers buffers) (sym (empty-nil buffer h)))
  skip_empty false h (i, e) =
      ((ground arith, i), unfold join_buffers in ap (λ (t : Bytes). buffer ++ t) e)

join-non_empty :
    (buffers : List Bytes)
    → HaveBytes (non_empty buffers) × (join_buffers (non_empty buffers) ≡ join_buffers buffers)
unfolding non_empty join_buffers
join-non_empty [] = (tt, refl)
join-non_empty (buffer ∷ buffers) =
    skip_empty buffer buffers (length buffer == 0) refl (join-non_empty buffers)

-- However sendmsg splits the bytes of the buffers, of which it takes `suc k` at once, and however often it is
-- interrupted, writeAllBuffers sends the bytes of all buffers once and in order, if at least as many calls as there
-- are bytes move something before one fails, and it spends at most one such call for each byte.
pub write_all_buffers-progress :
    (k : ℕ) (buffers : List Bytes) (s : Stream)
    → length (join_buffers buffers) ≤ progress s.events
    → (left : List Event) × (write_all_buffers (suc k) buffers s
        ≡ (ok tt, stream left (s.bytes ++ join_buffers buffers)))
      × (progress s.events ≤ progress left + length (join_buffers buffers))
unfolding write_all_buffers
write_all_buffers-progress k buffers s h =
    let (i, e) = join-non_empty buffers in
    let (left, w, q) =
      write_views-progress k s.events (non_empty buffers) s.bytes i (omega (arith, ap length e)) in
    (
      left,
      w ∙ ap (λ (t : Bytes). (ok tt, stream left (s.bytes ++ t))) e,
      omega (arith, q, ap length e),
    )
