-- ===== src/Tests/Engine.antt =====
-- The engine of the DLL on examples.
use fish.Common.{
  ◌≡◌, refl, arith, [], ◌∷◌, ◌++◌, none, some, Bytes, codes, replicate, find_text, starts_with,
  trim, split_whitespace, to_lowercase, lookup, list_eq, crlf, is_utf8,
}
use fish.Config.Models.{Nonce}
use fish.Config.Access.{free, ret}
use fish.Config.Access.Counters.{count_encryption, count_decryption, increment_encryption_counter}
use fish.Config.Channels.{is_channel, safe_channel_name}
use fish.Config.Settings.{get_encryption_prefix}
use fish.Crypto.Chacha.{encrypt_message}
use fish.Dll.Engine.Incoming.{attempt_decryption, key_identifier_of}
use fish.Dll.Engine.Incoming.Case.{attempt_decryption-encrypt_channel}
use fish.Dll.Engine.Incoming.Marked.{IsMarked}
use fish.Dll.Engine.Outgoing.{encrypt_channel}
use fish.Legacy.Detection.{is_fish10_message}
use fish.Tests.Legacy.{open_cipher}
use fish.Tests.World.{world, world-IsEnv, seal, key, keyed}

abbrev nonce : Nonce
nonce = replicate 24 65

abbrev sealed_hi : Bytes
sealed_hi = nonce ++ seal key (codes "hi")

abbrev line_to : Bytes → Bytes → Bytes
line_to channel text = codes ":al!u@h PRIVMSG " ++ (channel ++ (codes " :+FiSH " ++ (text ++ crlf)))

line-IsMarked :
    IsMarked
      (codes "+FiSH")
      (line_to (codes "#c") sealed_hi)
      (codes ":al!u@h PRIVMSG #c")
      (codes ":al!u@h")
      (codes "PRIVMSG")
      (codes "#c")
      (codes ":+FiSH")
      sealed_hi
      (sealed_hi ∷ [])
unfolding find_text starts_with trim split_whitespace is_fish10_message
line-IsMarked = record {
  no_rpl = refl;
  no_topic = refl;
  no_dh1080_init = refl;
  no_dh1080_finish = refl;
  no_x25519_init = refl;
  no_x25519_finish = refl;
  text = codes "+FiSH " ++ (sealed_hi ++ crlf);
  message = refl;
  not_fish10 = refl;
  marked = refl;
  words = refl;
  head = codes ":al!u@h PRIVMSG #c ";
  behind = codes " " ++ (sealed_hi ++ crlf);
  found = refl;
  trimmed = refl;
  rest = codes " " ++ (sealed_hi ++ crlf);
  again = refl;
}

attempt_decryption-encrypt_channel_example :
    attempt_decryption world open_cipher [] (line_to (codes "#c") sealed_hi) none free keyed ≡ (
      ret (some (codes ":al!u@h PRIVMSG #c" ++ (codes " :" ++ (codes "hi" ++ crlf)))),
      (count_decryption free keyed).1,
    )
unfolding lookup to_lowercase is_channel safe_channel_name is_utf8 key_identifier_of
    get_encryption_prefix encrypt_channel encrypt_message increment_encryption_counter trim
attempt_decryption-encrypt_channel_example =
    attempt_decryption-encrypt_channel world world-IsEnv open_cipher [] nonce refl (codes "#c")
      (codes "hi") key keyed keyed refl (omega arith) (omega arith) refl refl refl refl refl refl
      sealed_hi (count_encryption free keyed).1 refl (codes "+FiSH")
      (line_to (codes "#c") sealed_hi) (codes ":al!u@h PRIVMSG #c") (codes ":al!u@h")
      (codes "PRIVMSG") (codes "#c") (codes ":+FiSH") (sealed_hi ∷ []) none refl line-IsMarked refl
      refl
