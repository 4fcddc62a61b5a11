-- ===== src/Config/Channels/Names.antt =====
-- fish_11_dll/src/config/manual_channel_keys.rs: the names under which keys set by hand are stored.
use fish.Common.{
  ℕ, ◌≡◌, refl, arith, Bool, true, false, ◌||◌, ◌==◌, [], ◌∷◌, ◌++◌, Bytes, codes, to_lowercase, ap,
  sym, ◌∙◌,
}
use fish.Config.Channels.{is_channel, valid_channel, safe_channel_name, manual_entry_key}

abbrev pub has_hash : Bytes → Bool
has_hash [] = false
has_hash (c ∷ s) = (c == b'#') || has_hash s

safe_channel_name-append :
    (a b : Bytes) → safe_channel_name (a ++ b) ≡ safe_channel_name a ++ safe_channel_name b
unfolding safe_channel_name
safe_channel_name-append [] b = refl
safe_channel_name-append (c ∷ a) b =
    rw (safe_channel_name-append a b, safe_channel_name) ground arith

-- A name without '#' is stored as it is.
safe_channel_name_plain : (s : Bytes) → has_hash s ≡ false → safe_channel_name s ≡ s
unfolding safe_channel_name
safe_channel_name_plain [] h = refl
safe_channel_name_plain (c ∷ s) h = ground (arith, safe_channel_name_plain s)

-- Two channel names in which no '#' follows the first character are equal if they have the same
-- entry.
pub manual_entry_key-injective :
    (c d : ℕ) (a b : Bytes)
    → is_channel (c ∷ a) ≡ true
    → is_channel (d ∷ b) ≡ true
    → has_hash a ≡ false
    → has_hash b ≡ false
    → manual_entry_key (c ∷ a) ≡ manual_entry_key (d ∷ b)
    → c ∷ a ≡ d ∷ b
unfolding is_channel safe_channel_name
manual_entry_key-injective c d a b ca cb ha hb same =
    ground (arith, safe_channel_name_plain a ha, safe_channel_name_plain b hb)

-- A later '#' is not kept apart from the text "hash_" in its place: the two names share one entry.
pub manual_entry_key_shared :
    (a s : Bytes) → manual_entry_key (a ++ b'#' ∷ s) ≡ manual_entry_key (a ++ (codes "hash_" ++ s))
unfolding safe_channel_name
manual_entry_key_shared a s =
    ap (λ n. codes "channel_key_" ++ n)
      (safe_channel_name-append a (b'#' ∷ s)
        ∙ sym (safe_channel_name-append a (codes "hash_" ++ s)))

-- A name that is allowed in lower case is that of a channel as it was typed.
pub is_channel-original : (s : Bytes) → valid_channel (to_lowercase s) ≡ true → is_channel s ≡ true
unfolding valid_channel is_channel to_lowercase
is_channel-original [] h = h
is_channel-original (c ∷ s) h = ground arith
