-- ===== src/Inject/Socket/Hooks/Receive.antt =====
-- fish_11_inject/src/hook_socket.rs: what mIRC reads on a plain socket.
use fish.Common.{
  ℕ, zero, suc, ◌&&◌, ◌≤◌, ◌==◌, ◌≡◌, refl, sym, ◌∙◌, ap, arith, inl, inr, ◌⊎◌, true, [], ◌∷◌, ◌++◌,
  Bytes, Bool-cases, length, min, take, drop, take-append-drop, length-take,
}
use fish.Inject.Socket.{SocketInfo}
use fish.Inject.Socket.Hooks.{copied, last_boundary, is_line_feed, give_lines}
use fish.Inject.Socket.Incoming.{ends_with_crlf}
use fish.Inject.Socket.Incoming.Lines.{is_lf_iff}

last_boundary-bounded : (s : Bytes) → last_boundary s ≤ length s
unfolding last_boundary
last_boundary-bounded [] = omega arith
last_boundary-bounded (c ∷ []) = ground arith
last_boundary-bounded (c ∷ d ∷ s) = ground (arith, last_boundary-bounded (d ∷ s))

ends_with_crlf-some : (s : Bytes) → ends_with_crlf s ≡ true → 1 ≤ length s
unfolding ends_with_crlf
ends_with_crlf-some [] h = ground arith
ends_with_crlf-some (c ∷ s) h = omega arith

last_boundary-later :
    (c : ℕ) (s : Bytes) → 1 ≤ last_boundary s → last_boundary (c ∷ s) ≡ suc (last_boundary s)
unfolding last_boundary
last_boundary-later c s h = ground arith

last_boundary-here : last_boundary (13 ∷ 10 ∷ []) ≡ 2
unfolding last_boundary
last_boundary-here = refl

pub last_boundary-whole : (s : Bytes) → ends_with_crlf s ≡ true → last_boundary s ≡ length s
unfolding ends_with_crlf
last_boundary-whole [] h = ground arith
last_boundary-whole (c ∷ s) h = elim (Bool-cases (ends_with_crlf s)) [
  | inl later ↦
      let rest = last_boundary-whole s later in
      omega
        (arith, rest, last_boundary-later c s (omega (arith, rest, ends_with_crlf-some s later)))
  | inr here ↦
      let lf : s ≡ 10 ∷ [] = is_lf_iff s (ground (arith, h, here)) in
      let cr : c ≡ 13 = ground (arith, h, here) in rw (cr) (rw (lf) last_boundary-here)
]

line_feed-first : (s : Bytes) → is_line_feed s ≡ true → (t : Bytes) × (s ≡ 10 ∷ t)
line_feed-first [] h = ground arith
line_feed-first (c ∷ t) h = let lf : c ≡ 10 = ground arith in (t, ap (λ d. d ∷ t) lf)

ends_with_crlf-later : (c : ℕ) (s : Bytes) → ends_with_crlf s ≡ true → ends_with_crlf (c ∷ s) ≡ true
unfolding ends_with_crlf
ends_with_crlf-later c s h = ground arith

ends_with_crlf-here : ends_with_crlf (13 ∷ 10 ∷ []) ≡ true
unfolding ends_with_crlf
ends_with_crlf-here = refl

-- The text in front of the boundary is empty or ends with an end of line.
take-last_boundary :
    (s : Bytes) → (last_boundary s ≡ 0) ⊎ (ends_with_crlf (take (last_boundary s) s) ≡ true)
unfolding last_boundary
take-last_boundary [] = inl refl
take-last_boundary (c ∷ s) = elim (Bool-cases (last_boundary s == 0)) [
  | inl e ↦ elim (Bool-cases ((c == 13) && is_line_feed s)) [
    | inl k ↦
        let (t, lf) = line_feed-first s (ground (arith, k)) in
        let cr : c ≡ 13 = ground (arith, k) in
        inr (rw (e) (rw (k) (rw (cr) (rw (lf) ends_with_crlf-here))))
    | inr k ↦ inl (rw (e) (rw (k) refl))
  ]
  | inr e ↦ elim (take-last_boundary s) [
    | inl k ↦ absurd (ground (arith, e, k))
    | inr k ↦ inr (rw (e) (ends_with_crlf-later c (take (last_boundary s) s) k))
  ]
]

take-take : (n m : ℕ) (s : Bytes) → n ≤ length (take m s) → take n (take m s) ≡ take n s
take-take zero m s h = refl
take-take (suc n) zero s h = absurd (omega arith)
take-take (suc n) (suc m) [] h = refl
take-take (suc n) (suc m) (c ∷ s) h = ap (◌∷◌ c) (take-take n m s (omega arith))

-- No more than what fits is given, and it is cut behind a line; what is behind it is lost, since
-- nothing waits for the next call.
pub give_lines_lem :
    (size : ℕ) (info : SocketInfo)
    → let (result, info') = give_lines size info in
      (given : Bytes) × (result ≡ copied given)
      × (length given ≤ size)
      × ((given ≡ []) ⊎ (ends_with_crlf given ≡ true))
      × ((lost : Bytes) × (given ++ lost ≡ info.processed_incoming_buffer))
      × (info'.processed_incoming_buffer ≡ [])
unfolding give_lines
give_lines_lem size info =
    let processed = info.processed_incoming_buffer in
    let fits = take (min size (length processed)) processed in
    let boundary = last_boundary fits in
    let same = take-take boundary _ processed (last_boundary-bounded fits) in
    (
      take boundary processed,
      refl,
      omega (
        arith,
        length-take boundary processed,
        last_boundary-bounded fits,
        length-take (min size (length processed)) processed,
      ),
      elim (take-last_boundary fits) [
        | inl e ↦ inl (ap (λ n. take n processed) e)
        | inr e ↦ inr (ap ends_with_crlf (sym same) ∙ e)
      ],
      (drop boundary processed, take-append-drop boundary processed),
      refl,
    )
