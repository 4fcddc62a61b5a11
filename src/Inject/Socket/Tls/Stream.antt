-- ===== src/Inject/Socket/Tls/Stream.antt =====
-- fish_11_inject/src/socket/handlers/tls.rs: the loop ends by itself, and chunks make no difference.
use fish.Common.{
  ℕ, zero, suc, ◌≤◌, ◌==◌, ◌≡◌, refl, sym, ◌∙◌, ap, arith, inl, inr, List, [], ◌∷◌, ◌++◌,
  append_assoc, none, some, Option-cases, Bool-cases, Bytes, length, take, drop, length-drop,
  length-append,
}
use fish.Inject.Socket.{SocketInfo}
use fish.Inject.Socket.Detection.{byte_at, parse_tls_record_info}
use fish.Inject.Socket.Tls.{
  Drained, whole_record, drain_records, drain_all, note_record, note_records, on_receiving,
}

whole_record-size :
    (buffer : Bytes) (size : ℕ)
    → whole_record buffer ≡ some size
    → (5 ≤ size) × (size ≤ length buffer)
unfolding whole_record
whole_record-size buffer size h = ground (arith, h)

-- More bytes behind a complete record leave it as it is.
whole_record-append :
    (buffer more : Bytes) (size : ℕ)
    → whole_record buffer ≡ some size
    → whole_record (buffer ++ more) ≡ some size
unfolding whole_record parse_tls_record_info byte_at
whole_record-append [] more size h = absurd (omega (arith, whole_record-size [] size h))
whole_record-append (a ∷ []) more size h = absurd (omega (arith, whole_record-size (a ∷ []) size h))
whole_record-append (a ∷ b ∷ []) more size h =
    absurd (omega (arith, whole_record-size (a ∷ b ∷ []) size h))
whole_record-append (a ∷ b ∷ c ∷ []) more size h =
    absurd (omega (arith, whole_record-size (a ∷ b ∷ c ∷ []) size h))
whole_record-append (a ∷ b ∷ c ∷ d ∷ []) more size h =
    absurd (omega (arith, whole_record-size (a ∷ b ∷ c ∷ d ∷ []) size h))
whole_record-append (a ∷ b ∷ c ∷ d ∷ e ∷ s) more size h = ground (arith, h, length-append s more)

whole_record-short : (buffer : Bytes) → length buffer ≤ 0 → whole_record buffer ≡ none
whole_record-short buffer h = elim (Option-cases (whole_record buffer)) [
  | inl e ↦ e
  | inr (size, e) ↦ absurd (omega (arith, whole_record-size buffer size e))
]

drain_records-none :
    (fuel : ℕ) (buffer : Bytes)
    → whole_record buffer ≡ none
    → drain_records fuel buffer ≡ record { buffer = buffer; records = [] }
unfolding drain_records
drain_records-none zero buffer h = refl
drain_records-none (suc fuel) buffer h = rw (h, drain_records) refl

drain_records-some :
    (fuel : ℕ) (buffer : Bytes) (size : ℕ)
    → whole_record buffer ≡ some size
    → let rest = drain_records fuel (drop size buffer) in
      drain_records (suc fuel) buffer
      ≡ record { buffer = rest.buffer; records = take size buffer ∷ rest.records }
unfolding drain_records
drain_records-some fuel buffer size h = rw (h, drain_records) refl

-- What is left after a drain is no longer than what was there.
drain_records-shorter :
    (fuel : ℕ) (buffer : Bytes) → length (drain_records fuel buffer).buffer ≤ length buffer
unfolding drain_records
drain_records-shorter zero buffer = omega arith
drain_records-shorter (suc fuel) buffer = elim (Option-cases (whole_record buffer)) [
  | inl e ↦ rw (drain_records-none (suc fuel) buffer e) (omega arith)
  | inr (size, e) ↦
      rw (drain_records-some fuel buffer size e)
        (omega (arith, drain_records-shorter fuel (drop size buffer), length-drop size buffer))
]

-- With as many rounds as bytes, the loop has ended by itself: no complete record is left.
drain_records-ends :
    (fuel : ℕ) (buffer : Bytes)
    → length buffer ≤ fuel
    → whole_record (drain_records fuel buffer).buffer ≡ none
drain_records-ends zero buffer h =
    let e = whole_record-short buffer h in rw (drain_records-none zero buffer e) e
drain_records-ends (suc fuel) buffer h = elim (Option-cases (whole_record buffer)) [
  | inl e ↦ rw (drain_records-none (suc fuel) buffer e) e
  | inr (size, e) ↦ rw (drain_records-some fuel buffer size e) (
      drain_records-ends fuel (drop size buffer)
        (omega (arith, length-drop size buffer, whole_record-size buffer size e)))
]

-- More rounds change nothing.
drain_records_enough :
    (fuel more : ℕ) (buffer : Bytes)
    → length buffer ≤ fuel
    → fuel ≤ more
    → drain_records more buffer ≡ drain_records fuel buffer
drain_records_enough zero more buffer h k =
    let e = whole_record-short buffer h in
    drain_records-none more buffer e ∙ sym (drain_records-none zero buffer e)
drain_records_enough (suc fuel) zero buffer h k = absurd (omega arith)
drain_records_enough (suc fuel) (suc more) buffer h k = elim (Option-cases (whole_record buffer)) [
  | inl e ↦ drain_records-none (suc more) buffer e ∙ sym (drain_records-none (suc fuel) buffer e)
  | inr (size, e) ↦
      let smaller : length (drop size buffer) ≤ fuel =
        omega (arith, length-drop size buffer, whole_record-size buffer size e) in
      drain_records-some more buffer size e
      ∙ ap (λ r. record { buffer = r.buffer; records = take size buffer ∷ r.records })
          (drain_records_enough fuel more (drop size buffer) smaller (omega arith))
      ∙ sym (drain_records-some fuel buffer size e)
]

take-front : (n : ℕ) (xs ys : Bytes) → n ≤ length xs → take n (xs ++ ys) ≡ take n xs
take-front zero xs ys h = refl
take-front (suc n) [] ys h = absurd (omega arith)
take-front (suc n) (x ∷ xs) ys h = ap (◌∷◌ x) (take-front n xs ys (omega arith))

drop-front : (n : ℕ) (xs ys : Bytes) → n ≤ length xs → drop n (xs ++ ys) ≡ drop n xs ++ ys
drop-front zero xs ys h = refl
drop-front (suc n) [] ys h = absurd (omega arith)
drop-front (suc n) (x ∷ xs) ys h = drop-front n xs ys (omega arith)

abbrev behind : List Bytes → Drained → Drained
behind records d = record { buffer = d.buffer; records = records ++ d.records }

-- Draining a buffer, then what is left with more behind it, is draining both at once.
drain_records-append :
    (fuel : ℕ) (buffer more : Bytes)
    → length (buffer ++ more) ≤ fuel
    → let first = drain_records fuel buffer in
      drain_records fuel (buffer ++ more)
      ≡ behind first.records (drain_records fuel (first.buffer ++ more))
drain_records-append zero buffer more h =
    let e = whole_record-short buffer (omega (arith, length-append buffer more)) in
    rw (drain_records-none zero buffer e) refl
drain_records-append (suc fuel) buffer more h = elim (Option-cases (whole_record buffer)) [
  | inl e ↦ rw (drain_records-none (suc fuel) buffer e) refl
  | inr (size, e) ↦
      let (least, most) = whole_record-size buffer size e in
      let left = drop size buffer in
      let first = drain_records fuel left in
      let smaller : length (left ++ more) ≤ fuel =
        omega
          (arith, length-append left more, length-append buffer more, length-drop size buffer) in
      let shorter : length (first.buffer ++ more) ≤ fuel = omega (
        arith,
        length-append first.buffer more,
        drain_records-shorter fuel left,
        length-append left more,
      ) in
      rw (drain_records-some fuel buffer size e) (
        drain_records-some fuel (buffer ++ more) size (whole_record-append buffer more size e)
        ∙ ap (λ b. behind (take size (buffer ++ more) ∷ []) (drain_records fuel b))
            (drop-front size buffer more most)
        ∙ ap (behind (take size (buffer ++ more) ∷ []))
            (drain_records-append fuel left more smaller)
        ∙ ap (λ t. behind (t ∷ first.records) (drain_records fuel (first.buffer ++ more)))
            (take-front size buffer more most)
        ∙ ap (behind (take size buffer ∷ first.records)) (
            sym
              (drain_records_enough fuel (suc fuel) (first.buffer ++ more) shorter (omega arith))))
]

note_records-append :
    (rs ss : List Bytes) (info : SocketInfo)
    → note_records (rs ++ ss) info ≡ note_records ss (note_records rs info)
unfolding note_records
note_records-append [] ss info = refl
note_records-append (r ∷ rs) ss info = note_records-append rs ss _

abbrev set_buffer : Bytes → SocketInfo → SocketInfo
set_buffer b info = record info { tls_handshake_buffer = b }

note_record-buffer :
    (r b : Bytes) (info : SocketInfo)
    → note_record r (set_buffer b info) ≡ set_buffer b (note_record r info)
unfolding note_record
note_record-buffer r b info = elim (Bool-cases (byte_at 0 r == 22)) [
  | inl e ↦ rw (e) refl
  | inr e ↦ rw (e) refl
]

note_records-buffer :
    (rs : List Bytes) (b : Bytes) (info : SocketInfo)
    → note_records rs (set_buffer b info) ≡ set_buffer b (note_records rs info)
unfolding note_records
note_records-buffer [] b info = refl
note_records-buffer (r ∷ rs) b info =
    ap (note_records rs) (note_record-buffer r b info)
    ∙ note_records-buffer rs b (note_record r info)

on_receiving_lem :
    (bytes : Bytes) (info : SocketInfo)
    → let drained = drain_all (info.tls_handshake_buffer ++ bytes) in
      on_receiving bytes info ≡ set_buffer drained.buffer (note_records drained.records info)
unfolding on_receiving
on_receiving_lem bytes info =
    let drained = drain_all (info.tls_handshake_buffer ++ bytes) in
    note_records-buffer drained.records drained.buffer info

drain_all-append :
    (buffer more : Bytes)
    → let first = drain_all buffer in
      drain_all (buffer ++ more) ≡ behind first.records (drain_all (first.buffer ++ more))
unfolding drain_all
drain_all-append buffer more =
    let n = length (buffer ++ more) in
    let first = drain_records (length buffer) buffer in
    let same : drain_records n buffer ≡ first =
      drain_records_enough (length buffer) n buffer (omega arith)
        (omega (arith, length-append buffer more)) in
    drain_records-append n buffer more (omega arith)
    ∙ ap (λ d. behind d.records (drain_records n (d.buffer ++ more))) same
    ∙ ap (behind first.records) (
        drain_records_enough (length (first.buffer ++ more)) n (first.buffer ++ more) (omega arith)
          (omega (
            arith,
            length-append first.buffer more,
            length-append buffer more,
            drain_records-shorter (length buffer) buffer,
          )))

-- Received bytes leave no complete record at the front of the buffer: the loop, which drains one
-- record of at least five bytes each time, has ended by itself.
pub on_receiving-ends :
    (bytes : Bytes) (info : SocketInfo)
    → whole_record (on_receiving bytes info).tls_handshake_buffer ≡ none
unfolding drain_all
on_receiving-ends bytes info =
    let buffer = info.tls_handshake_buffer ++ bytes in
    ap (λ i. whole_record i.tls_handshake_buffer) (on_receiving_lem bytes info)
    ∙ drain_records-ends (length buffer) buffer (omega arith)

-- How the network cuts a handshake into chunks makes no difference: two chunks one after the other
-- leave the socket as both together do.
pub on_receiving-append :
    (a b : Bytes) (info : SocketInfo)
    → on_receiving b (on_receiving a info) ≡ on_receiving (a ++ b) info
on_receiving-append a b info =
    let first = drain_all (info.tls_handshake_buffer ++ a) in
    let second = drain_all (first.buffer ++ b) in
    let noted = note_records first.records info in
    let both =
      ap drain_all (sym (append_assoc info.tls_handshake_buffer a b))
      ∙ drain_all-append (info.tls_handshake_buffer ++ a) b in
    ap (on_receiving b) (on_receiving_lem a info)
    ∙ on_receiving_lem b (set_buffer first.buffer noted)
    ∙ ap (set_buffer second.buffer) (note_records-buffer second.records first.buffer noted)
    ∙ ap (set_buffer second.buffer) (sym (note_records-append first.records second.records info))
    ∙ ap (λ d. set_buffer d.buffer (note_records d.records info)) (sym both)
    ∙ sym (on_receiving_lem (a ++ b) info)
