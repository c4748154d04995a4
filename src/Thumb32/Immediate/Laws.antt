-- ===== src/Thumb32/Immediate/Laws.antt =====
-- The immediates of the 32-bit data processing instructions.
use emculator.Prelude.{
  ℕ, ◌+◌, ◌*◌, ◌^◌, ◌≡◌, ◌<◌, ◌%◌, every_below, ==_iff, every_below-at, ◌==◌, if◌then◌else◌, true,
  ltb, ◌-◌, refl, ◌/◌,
}
use emculator.Thumb32.Immediate.{expand_imm}

-- The architecture's ThumbExpandImm() as arithmetic: a byte in one of four patterns, or a byte with its
-- top bit set that is rotated to the right by 8 to 31 bits.
abbrev pub thumb_expand_imm : ℕ → ℕ
thumb_expand_imm imm12 =
    let byte = imm12 % 256 in
    if ltb imm12 256
    then byte
    else if ltb imm12 512
    then byte * 0x00010001
    else if ltb imm12 768
    then byte * 0x01000100
    else if ltb imm12 1024
    then byte * 0x01010101
    else (128 + imm12 % 128) * 2 ^ (32 - imm12 / 128)

expand_imm_table : every_below 4096 (λ i. expand_imm i == thumb_expand_imm i) ≡ true
unfolding every_below expand_imm
expand_imm_table = refl

-- The immediate operand of the 32-bit data processing instructions is the architecture's, for each of
-- the 4096 encodings.
pub expand_imm-thumb_expand_imm :
    (imm12 : ℕ) → imm12 < 4096 → expand_imm imm12 ≡ thumb_expand_imm imm12
expand_imm-thumb_expand_imm imm12 h =
    (==_iff _ _).0 (every_below-at 4096 _ imm12 expand_imm_table h)
