-- ===== src/Master/Password/Ascii.antt =====
-- fish_11_core/src/master_key/password_validation.rs: passwords within ASCII, and others.
use fish.Common.{
  ℕ, zero, suc, ◌+◌, ◌-◌, ◌*◌, ◌/◌, ◌≤◌, ◌<◌, ◌==◌, ◌≡◌, ◌≢◌, refl, sym, ◌∙◌, ap, arith, inl, inr,
  Bool, true, false, not, ◌||◌, [], ◌∷◌, Option, none, some, Bytes, All, All-drop, if◌then◌else◌,
  length, length-drop, drop, ltb, leb, in_range, Bool-cases,
}
use fish.Master.Password.{
  Unicode, Verdict, accepted, panicked, first_then, too_short, too_few_classes, too_common,
  sequential, repeated, keyboard, count_character_classes, is_common_password,
  has_sequential_pattern, has_keyboard_pattern, is_char_boundary, slice, repeats_at, repeats_from,
  repeats_of, has_repeated_pattern, validate_password_strength,
}

-- The byte at an index goes on with a character that began before it.
abbrev pub IsInside : ℕ → Bytes → Type 0
IsInside i s = (1 ≤ i) × (i < length s) × (is_char_boundary i s ≡ false)

repeats_at-boundaries :
    (len i : ℕ) (s : Bytes)
    → repeats_at len i s ≡ some false
    → (is_char_boundary i s ≡ true)
      × (is_char_boundary (i + len) s ≡ true)
      × (is_char_boundary (i + 2 * len) s ≡ true)
unfolding repeats_at slice
repeats_at-boundaries len i s h = ground (arith, h)

first_then-none_found :
    (o rest : Option Bool) → first_then o rest ≡ some false → (o ≡ some false) × (rest ≡ some false)
first_then-none_found none rest h = ground (arith, h)
first_then-none_found (some true) rest h = ground (arith, h)
first_then-none_found (some false) rest h = (refl, h)

-- A loop that finds nothing has looked everywhere.
repeats_from-all :
    (rounds len i j : ℕ) (s : Bytes)
    → repeats_from rounds len i s ≡ some false
    → j < rounds
    → repeats_at len (i + j) s ≡ some false
unfolding repeats_from
repeats_from-all zero len i j s h k = absurd (omega (arith, k))
repeats_from-all (suc rounds) len i zero s h k =
    let (here, later) =
      first_then-none_found (repeats_at len i s) (repeats_from rounds len (i + 1) s) h in
    let same : i + 0 ≡ i = omega arith in ap (λ n. repeats_at len n s) same ∙ here
repeats_from-all (suc rounds) len i (suc j) s h k =
    let (here, later) =
      first_then-none_found (repeats_at len i s) (repeats_from rounds len (i + 1) s) h in
    let same : i + suc j ≡ i + 1 + j = omega arith in
    ap (λ n. repeats_at len n s) same
    ∙ repeats_from-all rounds len (i + 1) j s later (omega (arith, k))

repeats_of-first :
    (rounds : ℕ) (s : Bytes)
    → repeats_of (suc rounds) 2 s ≡ some false
    → repeats_from (length s - 4 + 1) 2 0 s ≡ some false
unfolding repeats_of
repeats_of-first rounds s h =
    (first_then-none_found (repeats_from (length s - 4 + 1) 2 0 s) (repeats_of rounds 3 s) h).0

from_zero : (j : ℕ) → j ≡ 0 + j
from_zero j = omega arith

not_inside :
    (i j : ℕ) (s : Bytes) → is_char_boundary i s ≡ false → is_char_boundary j s ≡ true → i ≢ j
not_inside i j s inside boundary same =
    ground (arith, sym inside ∙ ap (λ n. is_char_boundary n s) same ∙ boundary)

inside-looked_at :
    (i : ℕ) (s : Bytes)
    → 6 ≤ length s
    → IsInside i s
    → repeats_of (length s / 2 - 1) 2 s ≢ some false
inside-looked_at i s long (least, most, inside) none_found =
    let rounds : length s / 2 - 1 ≡ suc (length s / 2 - 2) = omega arith in
    let first =
      repeats_of-first (length s / 2 - 2) s
        (ap (λ n. repeats_of n 2 s) (sym rounds) ∙ none_found) in
    let at = λ (j : ℕ) (k : j < length s - 4 + 1). repeats_at-boundaries 2 j s (
      ap (λ n. repeats_at 2 n s) (from_zero j)
      ∙ repeats_from-all (length s - 4 + 1) 2 0 j s first k) in
    elim (Bool-cases (leb i (length s - 4))) [
      | inl e ↦ not_inside i i s inside ((at i (ground (arith, e, long))).0) refl
      | inr e ↦ elim (Bool-cases (leb i (length s - 2))) [
        | inl k ↦
            not_inside i (i - 2 + 2) s inside ((at (i - 2) (ground (arith, k, long))).1)
              (ground (arith, e, long))
        | inr k ↦
            not_inside i (i - 4 + 2 * 2) s inside ((at (i - 4) (ground (arith, k, most, long))).2)
              (ground (arith, k, long))
      ]
    ]

-- The chain of checks, over their results.
abbrev verdict_of : ℕ → Bool → Bool → Bool → Option Bool → Bool → Verdict
verdict_of n few common sequence o keys =
    if ltb n 12
    then too_short
    else if few
    then too_few_classes
    else if common
    then too_common
    else if sequence
    then sequential
    else elim o [
      | none ↦ panicked
      | some true ↦ repeated
      | some false ↦ if keys then keyboard else accepted
    ]

chain :
    (n : ℕ) (few common sequence : Bool) (o : Option Bool) (keys : Bool)
    → verdict_of n few common sequence o keys ≡ accepted
    → (12 ≤ n) × (o ≡ some false)
chain n few common sequence o keys h = ground (arith, h)

accepted-repeated :
    (u : Unicode) (password : Bytes)
    → validate_password_strength u password ≡ accepted
    → (12 ≤ length password) × (has_repeated_pattern password ≡ some false)
unfolding validate_password_strength
accepted-repeated u password h =
    chain (length password) (ltb (count_character_classes u password) 3)
      (is_common_password u password) (has_sequential_pattern password)
      (has_repeated_pattern password) (has_keyboard_pattern u password) h

repeated_chain :
    (three long : Bool) (o : Option Bool)
    → (if three then some true else if long then o else some false) ≡ some false
    → long ≡ true
    → o ≡ some false
repeated_chain three long o h enough = ground (arith, h, enough)

repeated_pattern-none :
    (s : Bytes)
    → 6 ≤ length s
    → has_repeated_pattern s ≡ some false
    → repeats_of (length s / 2 - 1) 2 s ≡ some false
unfolding has_repeated_pattern
repeated_pattern-none s long h =
    let enough : leb 6 (length s) ≡ true = ground (arith, long) in
    repeated_chain _ (leb 6 (length s)) (repeats_of (length s / 2 - 1) 2 s) h enough

-- A password with a byte inside a character, which every character outside ASCII has, is never
-- accepted: it is refused, or the search for repeated parts slices there and panics.
pub validate_password_strength-ascii_only :
    (u : Unicode) (password : Bytes) (i : ℕ)
    → IsInside i password
    → validate_password_strength u password ≢ accepted
validate_password_strength-ascii_only u password i inside h =
    let (long, none_found) = accepted-repeated u password h in
    inside-looked_at i password (omega (arith, long)) inside
      (repeated_pattern-none password (omega (arith, long)) none_found)

abbrev pub IsAscii : Bytes → Type 0
IsAscii s = All (λ c. c < 128) s

boundary_of :
    (i n : ℕ) (t : Bytes)
    → length t ≡ n - i
    → i ≤ n
    → IsAscii t
    → (elim t [ [] ↦ i == n | c ∷ rest ↦ (i == 0) || not (in_range 0x80 0xbf c) ]) ≡ true
boundary_of i n [] rest inside ascii = ground (arith, rest, inside)
boundary_of i n (c ∷ t) rest inside ascii =
    let small : in_range 0x80 0xbf c ≡ false = ground (arith, ascii.0) in ground (arith, small)

boundary-ascii : (i : ℕ) (s : Bytes) → IsAscii s → i ≤ length s → is_char_boundary i s ≡ true
unfolding is_char_boundary
boundary-ascii i s ascii inside =
    boundary_of i (length s) (drop i s) (length-drop i s) inside (All-drop (λ c. c < 128) i s ascii)

repeats_at-total :
    (len i : ℕ) (s : Bytes) → IsAscii s → i + 2 * len ≤ length s → repeats_at len i s ≢ none
unfolding repeats_at slice
repeats_at-total len i s ascii inside h = ground (
  arith,
  h,
  boundary-ascii i s ascii (omega (arith, inside)),
  boundary-ascii (i + len) s ascii (omega (arith, inside)),
  boundary-ascii (i + 2 * len) s ascii inside,
)

first_then-total : (o rest : Option Bool) → o ≢ none → rest ≢ none → first_then o rest ≢ none
first_then-total none rest o_total rest_total h = o_total refl
first_then-total (some true) rest o_total rest_total h = ground (arith, h)
first_then-total (some false) rest o_total rest_total h = rest_total h

repeats_from-total :
    (rounds len i : ℕ) (s : Bytes)
    → IsAscii s
    → i + rounds + 2 * len ≤ length s + 1
    → repeats_from rounds len i s ≢ none
unfolding repeats_from
repeats_from-total zero len i s ascii inside h = ground (arith, h)
repeats_from-total (suc rounds) len i s ascii inside h =
    first_then-total (repeats_at len i s) (repeats_from rounds len (i + 1) s)
      (repeats_at-total len i s ascii (omega (arith, inside)))
      (repeats_from-total rounds len (i + 1) s ascii (omega (arith, inside))) h

repeats_of-total :
    (rounds len : ℕ) (s : Bytes)
    → IsAscii s
    → 2 * (len + rounds) ≤ length s + 2
    → repeats_of rounds len s ≢ none
unfolding repeats_of
repeats_of-total zero len s ascii inside h = ground (arith, h)
repeats_of-total (suc rounds) len s ascii inside h =
    first_then-total (repeats_from (length s - 2 * len + 1) len 0 s) (repeats_of rounds (len + 1) s)
      (repeats_from-total (length s - 2 * len + 1) len 0 s ascii (omega (arith, inside)))
      (repeats_of-total rounds (len + 1) s ascii (omega (arith, inside))) h

repeated_panics :
    (three long : Bool) (o : Option Bool)
    → (if three then some true else if long then o else some false) ≡ none
    → (o ≡ none) × (long ≡ true)
repeated_panics three long o h = ground (arith, h)

chain_panics :
    (n : ℕ) (few common sequence : Bool) (o : Option Bool) (keys : Bool)
    → verdict_of n few common sequence o keys ≡ panicked
    → o ≡ none
chain_panics n few common sequence o keys h = ground (arith, h)

has_repeated_pattern-total : (s : Bytes) → IsAscii s → has_repeated_pattern s ≢ none
unfolding has_repeated_pattern
has_repeated_pattern-total s ascii h =
    let (panics, long) =
      repeated_panics _ (leb 6 (length s)) (repeats_of (length s / 2 - 1) 2 s) h in
    repeats_of-total (length s / 2 - 1) 2 s ascii (ground (arith, long)) panics

-- A password within ASCII gets a verdict: no slice panics.
pub validate_password_strength-total :
    (u : Unicode) (password : Bytes)
    → IsAscii password
    → validate_password_strength u password ≢ panicked
unfolding validate_password_strength
validate_password_strength-total u password ascii h = has_repeated_pattern-total password ascii (
    chain_panics (length password) (ltb (count_character_classes u password) 3)
      (is_common_password u password) (has_sequential_pattern password)
      (has_repeated_pattern password) (has_keyboard_pattern u password) h)
