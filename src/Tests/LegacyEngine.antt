-- ===== src/Tests/LegacyEngine.antt =====
-- The engine of FiSH 10, on examples.
use fish.Common.{
  ℕ, ◌+◌, ◌-◌, ◌*◌, ◌/◌, ◌%◌, ◌≡◌, [], ◌∷◌, none, some, Bytes, codes, if◌then◌else◌, ltb, list_eq,
}
use fish.Config.Access.{ret}
use fish.Legacy.Dh1080.{padded_key, without_padding}
use fish.Legacy.Keys.{LegacyConfig, Hex}
use fish.Legacy.Engine.{process_incoming_fish10_message}
use fish.Legacy.Engine.Lines.{process_incoming-server_line}
use fish.Tests.Dh1080.{stand_ins, encode}
use fish.Tests.Legacy.{open_cipher}

abbrev digit : ℕ → ℕ
digit n = if ltb n 10 then n + 48 else n + 87

abbrev value : ℕ → ℕ
value c = if ltb c 58 then c - 48 else c - 87

abbrev hex_encode : Bytes → Bytes
hex_encode [] = []
hex_encode (b ∷ s) = digit (b / 16) ∷ digit (b % 16) ∷ hex_encode s

abbrev hex_decode : Bytes → Bytes
hex_decode [] = []
hex_decode (c ∷ []) = []
hex_decode (c ∷ d ∷ s) = (value c * 16 + value d) ∷ hex_decode s

abbrev hex : Hex
hex = record { hex_encode = hex_encode; hex_decode = λ s. some (hex_decode s) }

abbrev config : LegacyConfig
config = record { legacy_keys = (codes "#c", codes "secret") ∷ []; dh1080_keys = [] }

process_incoming-server_line_example :
    process_incoming_fish10_message stand_ins hex open_cipher
      (some 2)
      (b':' ∷ codes "al!a@b PRIVMSG #c :+OK abc")
      config
    ≡ (ret none, config)
process_incoming-server_line_example =
    process_incoming-server_line stand_ins hex open_cipher (some 2)
      (codes "al!a@b PRIVMSG #c :+OK abc") config

abbrev secret : Bytes
secret = without_padding (encode (padded_key (4 ∷ [])))
