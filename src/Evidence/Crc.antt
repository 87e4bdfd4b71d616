-- ===== src/Evidence/Crc.antt =====
-- packages/campaign/src/index.mjs, `crc32`. The register is a number below 2 ^ 32; JavaScript's signed
-- reading of it between the steps does not change its bits.
use mgds.Prelude.{List, [], lit, refl, ℕ, ◌-◌, ◌∷◌, ◌≡◌}
use Prim.Native.Nat.{bit_xor, bit_and, ◌/◌, ◌^◌, ◌%◌}

-- `-bit` on 32 bits
abbrev negated : ℕ → ℕ
negated bit = (2 ^ 32 - bit) % 2 ^ 32

-- `(crc >>> 1) ^ (0xedb88320 & -(crc & 1))`
unfoldable pub crc_bit : ℕ → ℕ
crc_bit crc = bit_xor (crc / 2) (bit_and 0xedb88320 (negated (crc % 2)))

abbrev eight : ℕ → ℕ
unfolding crc_bit
eight crc = crc_bit (crc_bit (crc_bit (crc_bit (crc_bit (crc_bit (crc_bit (crc_bit crc)))))))

unfoldable pub crc_bytes : ℕ → List ℕ → ℕ
unfolding eight
crc_bytes crc [] = crc
crc_bytes crc (byte ∷ bytes) = crc_bytes (eight (bit_xor crc byte)) bytes

unfoldable pub crc32 : List ℕ → ℕ
unfolding crc_bytes
crc32 bytes = bit_xor (crc_bytes 0xffffffff bytes) 0xffffffff

-- the check value of CRC-32
crc32_runs : crc32 (lit "123456789") ≡ 0xcbf43926
unfolding crc32
crc32_runs = refl
