-- ===== src/Artifact/Header.antt =====
-- internal/artifact/tar.go: the header block of an entry.
use partforge.Base.{
  Text, ℕ, zero, suc, [], ◌∷◌, ◌++◌, Bool, true, Result, ok, guard, ◌>>=◌, ◌>>◌, if◌then◌else◌,
  ◌&&◌, ltb, leb, ◌==◌, ◌+◌, ◌-◌, ◌%◌, take, codes,
}
use partforge.Base.Scan.{ends_with}
use partforge.Artifact.Numbers.{TarError, checksum_mismatch, parse_tar_octal, parse_tar_numeric}

unfoldable pub drop : ℕ → Text → Text
drop zero s = s
drop (suc n) [] = []
drop (suc n) (b ∷ s) = drop n s

-- `block[from:to]`
unfoldable pub slice : ℕ → ℕ → Text → Text
unfolding drop
slice from to block = take (to - from) (drop from block)

-- The sum of the bytes from index `i` on, with the bytes of the checksum itself as spaces.
unfoldable pub checksum_from : ℕ → Text → ℕ
checksum_from i [] = 0
checksum_from i (b ∷ block) =
    let rest = checksum_from (suc i) block in if leb 148 i && ltb i 156 then 32 + rest else b + rest

unfoldable pub verify_tar_header_checksum : Text → Result TarError (Unit {0})
unfolding slice checksum_from
verify_tar_header_checksum block = parse_tar_octal (slice 148 156 block) >>= λ expected.
    guard (expected == checksum_from 0 block) checksum_mismatch

unfoldable pub is_zero_tar_block : Text → Bool
is_zero_tar_block [] = true
is_zero_tar_block (b ∷ block) = b == 0 && is_zero_tar_block block

-- The bytes before the first zero byte.
unfoldable pub tar_string : Text → Text
tar_string [] = []
tar_string (b ∷ field) = let rest = tar_string field in if b == 0 then [] else b ∷ rest

abbrev pub type_reg : ℕ
type_reg = 48

abbrev pub type_reg_a : ℕ
type_reg_a = 0

abbrev pub type_dir : ℕ
type_dir = 53

pub record RawTarHeader : Type 0 where
  pub name : Text
  pub typeflag : ℕ
  pub size : ℕ
  pub mode : ℕ

full_name : Text → Text → Text
full_name [] name = name
full_name (b ∷ prefix) name = (b ∷ prefix) ++ codes "/" ++ name

typeflag_of : Text → ℕ → ℕ
typeflag_of name flag = if flag == type_reg_a && ends_with (codes "/") name then type_dir else flag

first_byte : Text → ℕ
first_byte [] = 0
first_byte (b ∷ _) = b

unfoldable pub flag_at : Text → ℕ
unfolding slice first_byte
flag_at block = first_byte (slice 156 157 block)

unfoldable pub parse_raw_tar_header : Text → Result TarError RawTarHeader
unfolding verify_tar_header_checksum tar_string full_name typeflag_of flag_at slice
parse_raw_tar_header block =
    let name = full_name (tar_string (slice 345 500 block)) (tar_string (slice 0 100 block)) in
    verify_tar_header_checksum block >> parse_tar_numeric (slice 100 108 block) >>= λ mode.
    parse_tar_numeric (slice 124 136 block) >>= λ size. ok (record {
      name = name;
      typeflag = typeflag_of name (flag_at block);
      size = size;
      mode = mode % 4096;
    })
