-- ===== src/Artifact/Numbers.antt =====
-- internal/artifact/tar.go: the numbers of a header. None is negative, so an `int64` is a number below
-- 2 ^ 63.
use partforge.Base.{
  Text, ℕ, [], ◌∷◌, Bool, true, not, Result, ok, err, if◌then◌else◌, ◌||◌, ltb, leb, ◌==◌, ◌+◌, ◌-◌,
  ◌*◌, ◌/◌, ◌%◌, ◌≤◌, ◌<◌, all, ◌≡◌, refl, ◌↔◌, ap, ◌∙◌, arith,
}
use mathlib.Core.List.{reverse}
use partforge.Base.Strconv.{max_int_64}

pub data TarError : Type 0 where
  invalid_octal : TarError
  octal_overflow : TarError
  negative_base_256 : TarError
  base_256_overflow : TarError
  padding_overflow : TarError
  checksum_mismatch : TarError
  malformed_pax_length : TarError
  invalid_pax_length : TarError
  pax_without_newline : TarError
  pax_without_key : TarError
  invalid_pax_size : TarError
  truncated_header : TarError
  past_archive_end : TarError
  unsafe_entry_name : TarError
  unsafe_part_name : TarError
  unsupported_type : TarError

-- A byte that `bytes.Trim(field, "\x00 ")` removes.
is_pad : ℕ → Bool
is_pad b = b == 0 || b == 32

trim_left : Text → Text
unfolding is_pad
trim_left [] = []
trim_left (b ∷ s) = let rest = trim_left s in if is_pad b then rest else b ∷ s

unfoldable pub trim_pad : Text → Text
unfolding trim_left
trim_pad s = reverse (trim_left (reverse (trim_left s)))

abbrev pub is_octal : ℕ → Bool
is_octal b = not (ltb b 48 || ltb 55 b)

unfoldable pub octal_from : ℕ → Text → Result TarError ℕ
octal_from value [] = ok value
octal_from value (b ∷ s) =
    let rest = octal_from (value * 8 + (b - 48)) s in
    if ltb b 48 || ltb 55 b
    then err invalid_octal
    else if ltb ((max_int_64 - (b - 48)) / 8) value
    then err octal_overflow
    else rest

unfoldable pub parse_tar_octal : Text → Result TarError ℕ
unfolding octal_from
parse_tar_octal field = octal_from 0 (trim_pad field)

unfoldable pub base_256_from : ℕ → Text → Result TarError ℕ
base_256_from value [] = ok value
base_256_from value (b ∷ s) =
    let rest = base_256_from (value * 256 + b) s in
    if ltb ((max_int_64 - b) / 256) value then err base_256_overflow else rest

unfoldable pub parse_tar_base_256 : Text → Result TarError ℕ
unfolding base_256_from
parse_tar_base_256 [] = ok 0
parse_tar_base_256 (b ∷ s) =
    if b / 64 % 2 == 1 then err negative_base_256 else base_256_from (b % 128) s

unfoldable pub parse_tar_numeric : Text → Result TarError ℕ
parse_tar_numeric [] = parse_tar_octal []
parse_tar_numeric (b ∷ s) =
    if leb 128 b then parse_tar_base_256 (b ∷ s) else parse_tar_octal (b ∷ s)

abbrev pub tar_block_size : ℕ
tar_block_size = 512

unfoldable pub padded_tar_size : ℕ → Result TarError ℕ
padded_tar_size size =
    if ltb (max_int_64 - (tar_block_size - 1)) size
    then err padding_overflow
    else ok ((size + tar_block_size - 1) / tar_block_size * tar_block_size)

-- The value of octal digits without any bound.
abbrev pub octal_value : ℕ → Text → ℕ
octal_value value [] = value
octal_value value (b ∷ s) = octal_value (value * 8 + (b - 48)) s

octal_value-grows : (value : ℕ) (s : Text) → value ≤ octal_value value s
octal_value-grows value [] = omega arith
octal_value-grows value (b ∷ s) = omega (arith, octal_value-grows (value * 8 + (b - 48)) s)

octal_from-ok :
    (value : ℕ) (s : Text) (n : ℕ)
    → value ≤ max_int_64
    → octal_from value s ≡ ok n
    → (all is_octal s ≡ true) × (octal_value value s ≡ n) × (n ≤ max_int_64)
unfolding octal_from
octal_from-ok value [] n small h = (refl, cc h, ground arith)
octal_from-ok value (b ∷ s) n small h = ground (arith, octal_from-ok (value * 8 + (b - 48)) s n)

octal_from-fits :
    (value : ℕ) (s : Text)
    → all is_octal s ≡ true
    → octal_value value s ≤ max_int_64
    → octal_from value s ≡ ok (octal_value value s)
unfolding octal_from
octal_from-fits value [] digits fits = refl
octal_from-fits value (b ∷ s) digits fits =
    let bound : value * 8 + (b - 48) ≤ octal_value (value * 8 + (b - 48)) s =
      octal_value-grows _ s in
    ground (arith, octal_from-fits (value * 8 + (b - 48)) s)

-- A field is read without overflow, and exactly when it has octal digits with a value of an `int64`.
pub parse_tar_octal-exact :
    (field : Text) (n : ℕ)
    → (parse_tar_octal field ≡ ok n) ↔ (
        (all is_octal (trim_pad field) ≡ true)
        × (octal_value 0 (trim_pad field) ≡ n)
        × (n ≤ max_int_64))
unfolding parse_tar_octal
parse_tar_octal-exact field n = (
  λ h. octal_from-ok 0 (trim_pad field) n (omega arith) h,
  λ (digits, value, small).
      octal_from-fits 0 (trim_pad field) digits (omega (arith, value, small))
      ∙ ap (λ v. ok v) value,
)

-- The padded size is the next multiple of the block size, and an `int64`.
pub padded_tar_size-bounds :
    (size padded : ℕ)
    → padded_tar_size size ≡ ok padded
    → (size ≤ padded)
      × (padded < size + tar_block_size)
      × (padded % tar_block_size ≡ 0)
      × (padded ≤ max_int_64)
unfolding padded_tar_size
padded_tar_size-bounds size padded h = ground arith
