-- ===== src/Common/Crlf.antt =====
-- A text in lines that end with CR LF: Rust's `split("\r\n")`, as the pieces that an end of line
-- follows and the last piece, which none follows.
use Prim.Native.Nat.{ℕ}
use mathlib.Core.Path.{◌≡◌, refl, ap, sym, ◌∙◌}
use mathlib.Core.Logic.{inl, inr}
use mathlib.Core.Bool.{Bool, true, false}
use mathlib.Core.List.{List, [], ◌∷◌, ◌++◌, append-nil}
use native.Mathlib.Omega.{arith}
use fish.Common.Tests.{◌==◌, if◌then◌else◌, Bool-cases}
use fish.Common.Lists.{length, length-append}
use fish.Common.Text.{Bytes}

abbrev pub crlf : Bytes
crlf = 13 ∷ 10 ∷ []

pub record Lines : Type 0 where
  pub ended : List Bytes
  pub last : Bytes

-- One more byte in front of the first piece.
abbrev push_front : ℕ → List Bytes → Bytes → Lines
push_front c [] l = record { ended = []; last = c ∷ l }
push_front c (x ∷ xs) l = record { ended = (c ∷ x) ∷ xs; last = l }

abbrev pub push : ℕ → Lines → Lines
push c s = push_front c s.ended s.last

abbrev pub end_line : Lines → Lines
end_line s = record { ended = [] ∷ s.ended; last = s.last }

-- The flag says that the byte before was a CR, which is not in a piece yet.
unfoldable pub scan : Bool → Bytes → Lines
scan false [] = record { ended = []; last = [] }
scan true [] = record { ended = []; last = 13 ∷ [] }
scan false (c ∷ s) = let rest = scan (c == 13) s in if c == 13 then rest else push c rest
scan true (c ∷ s) =
    let rest = scan (c == 13) s in
    if c == 10 then end_line rest else if c == 13 then push 13 rest else push 13 (push c rest)

unfoldable pub split_crlf : Bytes → Lines
unfolding scan
split_crlf s = scan false s

-- The pieces, each with its end of line.
unfoldable pub with_ends : List Bytes → Bytes
with_ends [] = []
with_ends (x ∷ xs) = x ++ (13 ∷ 10 ∷ with_ends xs)

-- Everything of the first lines, then what the second ones add.
abbrev pub after : List Bytes → Lines → Lines
after xs s = record { ended = xs ++ s.ended; last = s.last }

push_front_open :
    (c : ℕ) (xs : List Bytes) (l : Bytes)
    → (push_front c xs l).ended ≡ []
    → (push_front c xs l).last ≡ c ∷ l
push_front_open c [] l h = refl
push_front_open c (x ∷ xs) l h = ground arith

scan_again : (c : ℕ) (s : Bytes) → (c == 10) ≡ false → (t : Lines) × (scan true (c ∷ s) ≡ push 13 t)
unfolding scan
scan_again c s e = elim (Bool-cases (c == 13)) [
  | inl k ↦ (scan true s, rw (e) (rw (k) refl))
  | inr k ↦ (push c (scan false s), rw (e) (rw (k) refl))
]

scan_ended : (c : ℕ) (s : Bytes) → (c == 10) ≡ true → (t : Lines) × (scan true (c ∷ s) ≡ end_line t)
unfolding scan
scan_ended c s e = (scan (c == 13) s, rw (e) refl)

scan_pending_nil : (scan true []).last ≡ 13 ∷ []
unfolding scan
scan_pending_nil = refl

-- With a CR pending and no end of line found, the last piece begins with that CR.
scan_pending : (s : Bytes) → (scan true s).ended ≡ [] → (t : Bytes) × ((scan true s).last ≡ 13 ∷ t)
scan_pending [] h = ([], scan_pending_nil)
scan_pending (c ∷ s) h = elim (Bool-cases (c == 10)) [
  | inl e ↦ let (t, eq) = scan_ended c s e in absurd (ground (arith, ap (λ l. l.ended) eq))
  | inr e ↦
      let (t, eq) = scan_again c s e in
      (t.last, rw (eq) (push_front_open 13 t.ended t.last (rw (← eq) h)))
]

-- A byte that does not complete an end of line goes in front, before and after.
push-after :
    (c : ℕ) (xs : List Bytes) (l t : Bytes)
    → (xs ≡ [] → scan false (c ∷ l ++ t) ≡ push c (scan false (l ++ t)))
    → push c (after xs (scan false (l ++ t)))
      ≡ after (push_front c xs l).ended (scan false ((push_front c xs l).last ++ t))
push-after c [] l t h = sym (h refl)
push-after c (x ∷ xs) l t h = refl

-- What follows a text is read as if it stood behind the piece that the text leaves open.
scan-append :
    (pending : Bool) (s t : Bytes)
    → scan pending (s ++ t) ≡ after (scan pending s).ended (scan false ((scan pending s).last ++ t))
unfolding scan
scan-append false [] t = refl
scan-append true [] t = refl
scan-append false (c ∷ s) t = elim (Bool-cases (c == 13)) [
  | inl e ↦ rw (e) (scan-append true s t)
  | inr e ↦
      let now = scan false s in
      rw (e) (rw (scan-append false s t) (push-after c now.ended now.last t (λ _. rw (e) refl)))
]
scan-append true (c ∷ s) t = elim (Bool-cases (c == 10)) [
  | inl e ↦
      let k : (c == 13) ≡ false = ground arith in rw (e) (rw (k) (rw (scan-append false s t) refl))
  | inr e ↦ elim (Bool-cases (c == 13)) [
    | inl k ↦
        let now = scan true s in
        rw (e) (
          rw (k) (
            rw (scan-append true s t) (
              push-after 13 now.ended now.last t
                (λ none_ended. rw ((scan_pending s none_ended).1) refl))))
    | inr k ↦
        let now = scan false s in
        let next = push c now in
        rw (e) (
          rw (k) (
            rw (scan-append false s t) (
              rw (push-after c now.ended now.last t (λ _. rw (k) refl)) (
                push-after 13 next.ended next.last t (λ none_ended.
                  rw (push_front_open c now.ended now.last none_ended) (rw (e) (rw (k) refl)))))))
  ]
]

join : Lines → Bytes
unfolding with_ends
join s = with_ends s.ended ++ s.last

join-push :
    (c : ℕ) (xs : List Bytes) (l : Bytes) → join (push_front c xs l) ≡ c ∷ (with_ends xs ++ l)
unfolding join with_ends
join-push c [] l = refl
join-push c (x ∷ xs) l = refl

join-scan : (s : Bytes) → (join (scan false s) ≡ s) × (join (scan true s) ≡ 13 ∷ s)
unfolding scan join with_ends
join-scan [] = (refl, refl)
join-scan (c ∷ s) =
    let (plain, pending) = join-scan s in
    (
      elim (Bool-cases (c == 13)) [
        | inl e ↦
            let is_cr : c ≡ 13 = ground arith in rw (e) (pending ∙ ap (λ x. x ∷ s) (sym is_cr))
        | inr e ↦ rw (e) (join-push c (scan false s).ended (scan false s).last ∙ ap (◌∷◌ c) plain)
      ],
      elim (Bool-cases (c == 10)) [
        | inl e ↦
            let k : (c == 13) ≡ false = ground arith in
            let is_lf : c ≡ 10 = ground arith in
            rw (e) (rw (k) (rw (is_lf) (ap (λ x. 13 ∷ 10 ∷ x) plain)))
        | inr e ↦ elim (Bool-cases (c == 13)) [
          | inl k ↦
              let is_cr : c ≡ 13 = ground arith in
              rw (e) (
                rw (k) (
                  join-push 13 (scan true s).ended (scan true s).last
                  ∙ ap (◌∷◌ 13) (pending ∙ ap (λ x. x ∷ s) (sym is_cr))))
          | inr k ↦
              let next = push c (scan false s) in
              rw (e) (
                rw (k) (
                  join-push 13 next.ended next.last
                  ∙ ap (◌∷◌ 13)
                      (join-push c (scan false s).ended (scan false s).last ∙ ap (◌∷◌ c) plain)))
        ]
      ],
    )

-- The pieces with their ends of line, and the last piece, are the text.
pub with_ends-split_crlf : (s : Bytes) → with_ends (split_crlf s).ended ++ (split_crlf s).last ≡ s
unfolding split_crlf join
with_ends-split_crlf s = (join-scan s).0

pub split_crlf-append :
    (s t : Bytes)
    → split_crlf (s ++ t) ≡ after (split_crlf s).ended (split_crlf ((split_crlf s).last ++ t))
unfolding split_crlf
split_crlf-append s t = scan-append false s t

append_same {ℓ} : {A : Type ℓ} (xs ys : List A) → xs ≡ xs ++ ys → ys ≡ []
append_same xs [] h = refl
append_same xs (y ∷ ys) h =
    let longer : length xs ≡ length (xs ++ (y ∷ ys)) = ap length h in
    absurd (omega (arith, longer, length-append xs (y ∷ ys)))

-- The last piece holds no end of line.
pub split_crlf-last :
    (s : Bytes) → split_crlf (split_crlf s).last ≡ record { ended = []; last = (split_crlf s).last }
split_crlf-last s =
    let again : split_crlf s ≡ after (split_crlf s).ended (split_crlf (split_crlf s).last) =
      ap split_crlf (sym (append-nil s))
      ∙ split_crlf-append s []
      ∙ ap (λ l. after (split_crlf s).ended (split_crlf l)) (append-nil (split_crlf s).last) in
    let none_ended = append_same _ _ (ap (λ l. l.ended) again) in ground (arith, none_ended, again)
