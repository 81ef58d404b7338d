-- ===== src/Znp/Tests.antt =====
-- The codec of the Zigbee radio on a ping: command 0x21 0x01, payload 0x79 0x00.
use stm32h745_disco.Base.{true, some, List, [], ◌∷◌, ◌++◌, ◌≡◌, ◌≤◌, refl, arith, ℕ, length, value}
use stm32h745_disco.Znp.{encode, decode, fcs, fcs_from}
use stm32h745_disco.Znp.Codec.{frame, decode-frame, decode_sound}

abbrev ping : List ℕ
ping = 0x79 ∷ 0x00 ∷ []

abbrev on_wire : List ℕ
on_wire = 0xFE ∷ 2 ∷ 0x21 ∷ 0x01 ∷ 0x79 ∷ 0x00 ∷ 0x5B ∷ []

wire_bytes : encode 0x21 0x01 (some ping) 2 16 ≡ value on_wire
unfolding encode fcs fcs_from
wire_bytes = refl

ping_decodes :
    decode (0xFE ∷ 2 ∷ 0x21 ∷ 0x01 ∷ 0x79 ∷ 0x00 ∷ 0x5B ∷ 0xFE ∷ []) true 16
    ≡ value (record { cmd0 = 0x21; cmd1 = 0x01; payload = ping })
unfolding decode fcs fcs_from
ping_decodes = refl

decode-frame_example :
    decode (frame 0x21 0x01 ping ++ 0xFE ∷ []) true 16
    ≡ value (record { cmd0 = 0x21; cmd1 = 0x01; payload = ping })
decode-frame_example = decode-frame 0x21 0x01 ping (0xFE ∷ []) 16 (omega arith)

decode_sound_example :
    (rest : List ℕ) × ((0xFE ∷ 2 ∷ 0x21 ∷ 0x01 ∷ 0x79 ∷ 0x00 ∷ 0x5B ∷ 0xFE ∷ [])
      ≡ frame 0x21 0x01 ping ++ rest)
    × (length ping ≤ 16)
decode_sound_example =
    decode_sound (0xFE ∷ 2 ∷ 0x21 ∷ 0x01 ∷ 0x79 ∷ 0x00 ∷ 0x5B ∷ 0xFE ∷ []) 16
      (record { cmd0 = 0x21; cmd1 = 0x01; payload = ping }) ping_decodes
