-- ===== src/Config/Models/Ratchet.antt =====
-- fish_11_dll/src/config/models.rs: the window of former keys against the whole history.
use fish.Common.{
  ℕ, zero, suc, ◌-◌, ◌%◌, ◌^◌, ◌≤◌, ◌<◌, ◌≡◌, refl, sym, arith, List, [], ◌∷◌, ◌++◌, length, drop,
  tail, length-append, append_assoc, append-nil, length-drop, leb, leb→le, ◌==◌, if◌then◌else◌,
  Bool-cases, inl, inr,
}
use fish.Config.Models.{Key, RatchetState, max_previous_keys, new_ratchet, advance}

-- A ratchet that has been advanced by each of the keys in turn.
unfoldable pub advance_all : RatchetState → List Key → RatchetState
unfolding advance
advance_all state [] = state
advance_all state (k ∷ ks) = advance_all (advance state k) ks

-- What the ratchet stands for: every former current key, oldest first.
pub record Remembers (history : List Key) (state : RatchetState) : Type 0 where
  pub window : state.previous_keys ≡ drop (length history - max_previous_keys) history
  pub count : state.epoch ≡ length history % 2 ^ 64

tail-drop : (n : ℕ) (xs : List Key) → tail (drop n xs) ≡ drop (suc n) xs
tail-drop zero [] = refl
tail-drop zero (x ∷ xs) = refl
tail-drop (suc n) [] = refl
tail-drop (suc n) (x ∷ xs) = tail-drop n xs

drop-append_le : (n : ℕ) (xs ys : List Key) → n ≤ length xs → drop n (xs ++ ys) ≡ drop n xs ++ ys
drop-append_le zero xs ys h = refl
drop-append_le (suc n) [] ys h = absurd (omega arith)
drop-append_le (suc n) (x ∷ xs) ys h = drop-append_le n xs ys (omega arith)

-- The window after one more key, at the size that the full and the filling window have.
window_step :
    (history : List Key) (c : Key)
    → (let w = drop (length history - 5) history in
        (if length w == 5 then tail w else w) ++ (c ∷ []))
      ≡ drop (length (history ++ (c ∷ [])) - 5) (history ++ (c ∷ []))
window_step history c = elim (Bool-cases (leb 5 (length history))) [
  | inl full ↦
      let le = leb→le 5 (length history) full in
      let size : length (drop (length history - 5) history) ≡ 5 =
        omega (arith, length-drop (length history - 5) history) in
      let k : suc (length history - 5) ≡ length (history ++ (c ∷ [])) - 5 =
        omega (arith, length-append history (c ∷ [])) in
      rw size (
        rw (tail-drop (length history - 5) history) (
          rw k (
            sym
              (drop-append_le (length (history ++ (c ∷ [])) - 5) history (c ∷ []) (omega arith)))))
  | inr filling ↦
      let small : length history < 5 = ground arith in
      let z : length history - 5 ≡ 0 = omega arith in
      let z' : length (history ++ (c ∷ [])) - 5 ≡ 0 =
        omega (arith, length-append history (c ∷ [])) in
      rw z (rw z' (ground arith))
]

pub advance-Remembers :
    (history : List Key) (state : RatchetState) (k : Key)
    → Remembers history state
    → Remembers (history ++ (state.current_key ∷ [])) (advance state k)
unfolding advance
advance-Remembers history state k r = record {
  window = rw r.window (window_step history state.current_key);
  count = omega (arith, r.count, length-append history (state.current_key ∷ []));
}

-- The current keys that the ratchet passes through before its last.
unfoldable pub former_keys : Key → List Key → List Key
former_keys k [] = []
former_keys k (n ∷ ns) = k ∷ former_keys n ns

advance_all-Remembers :
    (ks history : List Key) (state : RatchetState)
    → Remembers history state
    → Remembers (history ++ former_keys state.current_key ks) (advance_all state ks)
unfolding advance_all former_keys
advance_all-Remembers [] history state r = rw append-nil r
advance_all-Remembers (k ∷ ks) history state r =
    rw (append_assoc history (state.current_key ∷ []) (former_keys k ks)) at (
      advance_all-Remembers ks (history ++ (state.current_key ∷ [])) (advance state k)
        (advance-Remembers history state k r))

-- After any run of advances from a new ratchet, the previous keys are the last five of the
-- former current keys, oldest first, and the epoch counts the advances modulo 2 ^ 64.
pub previous_keys-advance_all :
    (initial : Key) (ks : List Key)
    → let state = advance_all (new_ratchet initial) ks in
      let former = former_keys initial ks in
      (state.previous_keys ≡ drop (length former - 5) former)
      × (length state.previous_keys ≤ 5)
      × (state.epoch ≡ length former % 2 ^ 64)
unfolding new_ratchet
previous_keys-advance_all initial ks =
    let r =
      advance_all-Remembers ks [] (new_ratchet initial) (record { window = refl; count = refl }) in
    let former = former_keys initial ks in
    (r.window, rw r.window (omega (arith, length-drop (length former - 5) former)), r.count)
