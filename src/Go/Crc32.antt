-- ===== src/Go/Crc32.antt =====
-- package hash/crc32: ChecksumIEEE, bit by bit, with the reversed polynomial.
use Prim.Native.Nat.{bit_xor}
use dbgp_tools.Base.{Bytes, codes, ℕ, zero, suc, ◌/◌, ◌%◌, eqb, if◌then◌else◌, [], ◌∷◌, ◌≡◌, refl}

abbrev polynomial : ℕ
polynomial = 0xedb88320

-- One bit: the register is shifted, and the polynomial added where the bit that falls out is set.
shift_bit : ℕ → ℕ
shift_bit crc = if eqb (crc % 2) 1 then bit_xor (crc / 2) polynomial else crc / 2

shift : ℕ → ℕ → ℕ
unfolding shift_bit
shift zero crc = crc
shift (suc n) crc = shift n (shift_bit crc)

update : ℕ → Bytes → ℕ
unfolding shift
update crc [] = crc
update crc (b ∷ s) = update (shift 8 (bit_xor crc b)) s

-- crc32.ChecksumIEEE(s)
unfoldable pub checksum_ieee : Bytes → ℕ
unfolding update
checksum_ieee s = bit_xor (update 0xffffffff s) 0xffffffff

-- The check value of the algorithm's catalogue.
check_value : checksum_ieee (codes "123456789") ≡ 0xcbf43926
unfolding checksum_ieee
check_value = refl
