-- ===== src/Master/Password.antt =====
-- fish_11_core/src/master_key/password_validation.rs: the checks of a password. A password is its
-- UTF-8 bytes. The Unicode tables behind is_lowercase, is_uppercase, is_alphanumeric and to_lowercase
-- are arguments; a slice that does not fall between two characters panics.
pub mod Ascii
use fish.Common.{
  ℕ, zero, suc, ◌+◌, ◌-◌, ◌*◌, ◌/◌, ◌%◌, ◌^◌, ◌==◌, min, Bool, true, false, not, ◌&&◌, ◌||◌, List,
  [], ◌∷◌, ◌++◌, Option, none, some, Bytes, codes, if◌then◌else◌, length, take, drop, ltb, leb,
  same_list, starts_with, in_range,
}
use Prim.Native.String.{String}
use mathlib.Core.List.{reverse}

pub record Unicode : Type 0 where
  pub is_lowercase : ℕ → Bool
  pub is_uppercase : ℕ → Bool
  pub is_alphanumeric : ℕ → Bool
  pub to_lowercase : Bytes → Bytes

abbrev pub min_password_length : ℕ
min_password_length = 12

abbrev pub min_character_classes : ℕ
min_character_classes = 3

-- `chars()` of UTF-8, with the character that is being read.
abbrev lead : ℕ → ℕ
lead c =
    if ltb c 0x80
    then c
    else if ltb c 0xe0
    then c - 0xc0
    else if ltb c 0xf0
    then c - 0xe0
    else c - 0xf0

unfoldable pub chars_from : ℕ → Bytes → List ℕ
chars_from v [] = v ∷ []
chars_from v (c ∷ s) =
    let more = in_range 0x80 0xbf c in
    let rest = chars_from (if more then v * 64 + (c - 0x80) else lead c) s in
    if more then rest else v ∷ rest

unfoldable pub chars : Bytes → List ℕ
unfolding chars_from
chars [] = []
chars (c ∷ s) = chars_from (lead c) s

pub data Class : Type 0 where
  lowercase uppercase digit special other : Class

abbrev class_of : Unicode → ℕ → Class
class_of u c =
    if u.is_lowercase c
    then lowercase
    else if u.is_uppercase c
    then uppercase
    else if in_range b'0' b'9' c
    then digit
    else if not (u.is_alphanumeric c)
    then special
    else other

pub record Classes : Type 0 where
  pub has_lowercase : Bool
  pub has_uppercase : Bool
  pub has_digit : Bool
  pub has_special : Bool

abbrev note_class : Class → Classes → Classes
note_class lowercase s = record s { has_lowercase = true }
note_class uppercase s = record s { has_uppercase = true }
note_class digit s = record s { has_digit = true }
note_class special s = record s { has_special = true }
note_class other s = s

unfoldable pub classes : Unicode → List ℕ → Classes
classes u [] = record {
  has_lowercase = false;
  has_uppercase = false;
  has_digit = false;
  has_special = false;
}
classes u (c ∷ cs) = note_class (class_of u c) (classes u cs)

abbrev one_if : Bool → ℕ
one_if true = 1
one_if false = 0

unfoldable pub count_character_classes : Unicode → Bytes → ℕ
unfolding chars classes
count_character_classes u password =
    let s = classes u (chars password) in
    one_if s.has_lowercase + one_if s.has_uppercase + one_if s.has_digit + one_if s.has_special

-- `contains` of a text.
unfoldable pub contains_text : Bytes → Bytes → Bool
contains_text p [] = starts_with p []
contains_text p (c ∷ s) = starts_with p (c ∷ s) || contains_text p s

abbrev any_of : List String → (Bytes → Bool) → Bool
any_of [] test = false
any_of (p ∷ ps) test = test (codes p) || any_of ps test

-- The source lists some of them twice.
abbrev common_passwords : List String
common_passwords =
    "password" ∷ "123456" ∷ "qwerty" ∷ "abc123" ∷ "password123" ∷ "admin" ∷ "letmein" ∷ "welcome"
    ∷ "monkey" ∷ "1234567890" ∷ "password1" ∷ "trustno1" ∷ "dragon" ∷ "baseball" ∷ "football"
    ∷ "iloveyou" ∷ "princess" ∷ "rockyou" ∷ "nicole" ∷ "daniel" ∷ "babygirl" ∷ "lovely" ∷ "hello"
    ∷ "mother" ∷ "mylove" ∷ "sunshine" ∷ "shadow" ∷ "ashley" ∷ "michael" ∷ "angela" ∷ "cookie"
    ∷ "summer" ∷ "charlie" ∷ "loves" ∷ "corazon" ∷ "hello123" ∷ "harley" ∷ "robert" ∷ "danielle"
    ∷ "forever" ∷ "family" ∷ "jonathan" ∷ "computer" ∷ "987654" ∷ "jessica" ∷ "michelle" ∷ "sakura"
    ∷ "jennifer" ∷ "superman" ∷ "123456789" ∷ "12345" ∷ "1234567" ∷ "12345678" ∷ "master"
    ∷ "magazine" ∷ "technician" ∷ "internet" ∷ []

unfoldable pub is_common_password : Unicode → Bytes → Bool
unfolding contains_text
is_common_password u password =
    let lower_pass = u.to_lowercase password in
    any_of common_passwords (λ common. contains_text common lower_pass)

-- A test of three characters in a row, anywhere.
unfoldable pub any_three : (ℕ → ℕ → ℕ → Bool) → List ℕ → Bool
any_three test [] = false
any_three test (c1 ∷ s) = go c1 s
  where
    go : ℕ → List ℕ → Bool
    go a [] = false
    go a (b ∷ []) = false
    go a (b ∷ c ∷ rest) = test a b c || go b (c ∷ rest)

-- The subtraction on u32 wraps in a release build.
abbrev one_less : ℕ → ℕ
one_less c = (c + (2 ^ 32 - 1)) % 2 ^ 32

unfoldable pub has_sequential_pattern : Bytes → Bool
unfolding chars any_three
has_sequential_pattern password =
    any_three (λ c1 c2 c3. (c2 == c1 + 1) && (c3 == c2 + 1)) (chars password)
    || any_three (λ c1 c2 c3. (c2 == one_less c1) && (c3 == one_less c2)) (chars password)

-- `is_char_boundary`.
unfoldable pub is_char_boundary : ℕ → Bytes → Bool
is_char_boundary i s = elim (drop i s) [
  | [] ↦ i == length s
  | c ∷ rest ↦ (i == 0) || not (in_range 0x80 0xbf c)
]

-- `&s[a..b]`, none where it panics.
unfoldable pub slice : ℕ → ℕ → Bytes → Option Bytes
unfolding is_char_boundary
slice a b s =
    if leb a b && is_char_boundary a s && is_char_boundary b s
    then some (take (b - a) (drop a s))
    else none

unfoldable pub repeats_at : ℕ → ℕ → Bytes → Option Bool
unfolding slice
repeats_at len i s = elim (slice i (i + len) s) [
  | none ↦ none
  | some substring ↦ elim (slice (i + len) (i + 2 * len) s) [
    | none ↦ none
    | some next_substring ↦ some (same_list substring next_substring)
  ]
]

-- A panic or a find ends a loop.
abbrev pub first_then : Option Bool → Option Bool → Option Bool
first_then none rest = none
first_then (some true) rest = some true
first_then (some false) rest = rest

-- The loop over `i`, and the loop over `len`: none where it panics.
unfoldable pub repeats_from : ℕ → ℕ → ℕ → Bytes → Option Bool
unfolding repeats_at
repeats_from zero len i s = some false
repeats_from (suc rounds) len i s =
    let rest = repeats_from rounds len (i + 1) s in first_then (repeats_at len i s) rest

unfoldable pub repeats_of : ℕ → ℕ → Bytes → Option Bool
unfolding repeats_from
repeats_of zero len s = some false
repeats_of (suc rounds) len s =
    let rest = repeats_of rounds (len + 1) s in
    first_then (repeats_from (length s - 2 * len + 1) len 0 s) rest

unfoldable pub has_repeated_pattern : Bytes → Option Bool
unfolding chars any_three repeats_of
has_repeated_pattern password =
    if any_three (λ a b c. (a == b) && (a == c)) (chars password)
    then some true
    else if leb 6 (length password)
    then repeats_of (length password / 2 - 1) 2 password
    else some false

abbrev keyboard_patterns : List String
keyboard_patterns =
    "qwerty" ∷ "asdfgh" ∷ "zxcvbn" ∷ "qwertyuiop" ∷ "asdfghjkl" ∷ "zxcvbnm" ∷ "123456" ∷ "654321"
    ∷ "!@#$%^" ∷ "poiu" ∷ "lkjh" ∷ "mnbvcx" ∷ []

unfoldable pub has_keyboard_pattern : Unicode → Bytes → Bool
unfolding contains_text
has_keyboard_pattern u password =
    let lower_pass = u.to_lowercase password in
    any_of keyboard_patterns
      (λ pattern. contains_text pattern lower_pass || contains_text (reverse pattern) lower_pass)

pub data Verdict : Type 0 where
  accepted too_short too_few_classes too_common sequential repeated keyboard panicked : Verdict

unfoldable pub validate_password_strength : Unicode → Bytes → Verdict
unfolding count_character_classes is_common_password has_sequential_pattern has_repeated_pattern
    has_keyboard_pattern
validate_password_strength u password =
    if ltb (length password) min_password_length
    then too_short
    else if ltb (count_character_classes u password) min_character_classes
    then too_few_classes
    else if is_common_password u password
    then too_common
    else if has_sequential_pattern password
    then sequential
    else elim (has_repeated_pattern password) [
      | none ↦ panicked
      | some true ↦ repeated
      | some false ↦ if has_keyboard_pattern u password then keyboard else accepted
    ]

-- `calculate_strength_score`: u8 arithmetic, the length cut to its low byte first.
unfoldable pub calculate_strength_score : Unicode → Bytes → Option ℕ
unfolding count_character_classes is_common_password has_sequential_pattern has_repeated_pattern
    has_keyboard_pattern
calculate_strength_score u password =
    let score0 = min (length password % 256) 30 + count_character_classes u password * 10 in
    let score1 = score0 - (if is_common_password u password then 20 else 0) in
    let score2 = score1 - (if has_sequential_pattern password then 15 else 0) in
    elim (has_repeated_pattern password) [
      | none ↦ none
      | some found ↦
          let score3 = score2 - (if found then 15 else 0) in
          some (min (score3 - (if has_keyboard_pattern u password then 10 else 0)) 100)
    ]
