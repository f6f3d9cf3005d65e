-- ===== src/KeysManager/Symbols.antt =====
-- `enum Key` and `sSymbols`.
use testings.Prelude.{ℕ, List, [], ◌∷◌, get_or}

abbrev pub key_9 : ℕ
key_9 = 9

abbrev pub key_ok : ℕ
key_ok = 11

abbrev pub key_k1 : ℕ
key_k1 = 12

abbrev pub key_k2 : ℕ
key_k2 = 13

abbrev pub key_k3 : ℕ
key_k3 = 14

abbrev pub key_k4 : ℕ
key_k4 = 15

abbrev pub key_k5 : ℕ
key_k5 = 16

abbrev pub key_ptt : ℕ
key_ptt = 17

abbrev pub key_unknown : ℕ
key_unknown = 19

abbrev pub key_max : ℕ
key_max = 20

-- The characters by their code points; the letters are the Russian ones.
abbrev pub s_symbols : List (List ℕ)
s_symbols =
    (48 ∷ 32 ∷ [])
    ∷ (49 ∷ 44 ∷ 33 ∷ 63 ∷ [])
    ∷ (50 ∷ 0x410 ∷ 0x411 ∷ 0x412 ∷ 0x413 ∷ [])
    ∷ (51 ∷ 0x414 ∷ 0x415 ∷ 0x416 ∷ 0x417 ∷ [])
    ∷ (52 ∷ 0x418 ∷ 0x419 ∷ 0x41A ∷ 0x41B ∷ [])
    ∷ (53 ∷ 0x41C ∷ 0x41D ∷ 0x41E ∷ 0x41F ∷ [])
    ∷ (54 ∷ 0x420 ∷ 0x421 ∷ 0x422 ∷ 0x423 ∷ [])
    ∷ (55 ∷ 0x424 ∷ 0x426 ∷ 0x425 ∷ 0x427 ∷ [])
    ∷ (56 ∷ 0x428 ∷ 0x429 ∷ 0x42A ∷ 0x42B ∷ [])
    ∷ (57 ∷ 0x42C ∷ 0x42D ∷ 0x42E ∷ 0x42F ∷ [])
    ∷ (45 ∷ [])
    ∷ (45 ∷ [])
    ∷ []

-- `sSymbols.at(key)`
unfoldable pub symbols : ℕ → List ℕ
symbols key = get_or s_symbols key []
