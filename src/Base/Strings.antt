-- ===== src/Base/Strings.antt =====
-- Go strings as byte sequences, with the `strings` functions that the sources call.
use Prim.Native.Nat.{ℕ}
use Prim.Native.Char.{code}
use Prim.Native.String.{String}
use mathlib.Core.Path.{◌≡◌, refl}
use mathlib.Core.Logic.{◌↔◌}
use mathlib.Core.Bool.{Bool, true, false, ◌&&◌, ◌||◌}
use mathlib.Core.List.{List, [], ◌∷◌, reverse}
use native.Mathlib.Omega.{arith}
use partforge.Base.Tests.{ltb, leb, ◌==◌, if◌then◌else◌}

abbrev pub Text : Type 0
Text = List ℕ

-- The bytes of an ASCII literal.
abbrev pub codes : String → Text
codes String.[] = []
codes (String.◌∷◌ c s) = code c ∷ codes s

abbrev pub null {ℓ} : {A : Type ℓ} → List A → Bool
null [] = true
null (_ ∷ _) = false

unfoldable pub text_eq : Text → Text → Bool
text_eq [] [] = true
text_eq [] (_ ∷ _) = false
text_eq (_ ∷ _) [] = false
text_eq (a ∷ s) (b ∷ t) = a == b && text_eq s t

pub text_eq_refl : (s : Text) → text_eq s s ≡ true
unfolding text_eq
text_eq_refl [] = refl
text_eq_refl (a ∷ s) = ground (arith, text_eq_refl s)

text_eq_sound : (s t : Text) → text_eq s t ≡ true → s ≡ t
unfolding text_eq
text_eq_sound [] [] h = refl
text_eq_sound [] (_ ∷ _) h = cc
text_eq_sound (_ ∷ _) [] h = cc
text_eq_sound (a ∷ s) (b ∷ t) h = ground (arith, text_eq_sound s t)

pub text_eq_iff : (s t : Text) → (text_eq s t ≡ true) ↔ (s ≡ t)
text_eq_iff s t = (text_eq_sound s t, λ e. rw (← e) (text_eq_refl s))

-- `s < t` on strings: the order of the bytes.
unfoldable pub text_lt : Text → Text → Bool
text_lt _ [] = false
text_lt [] (_ ∷ _) = true
text_lt (a ∷ s) (b ∷ t) = ltb a b || (a == b && text_lt s t)

-- The encodings of the code points that `unicode.IsSpace` accepts, by their number of bytes.
unfoldable pub space_1 : ℕ → Bool
space_1 a = (leb 9 a && leb a 13) || a == 32

unfoldable pub space_2 : ℕ → ℕ → Bool
space_2 a b = a == 0xC2 && (b == 0x85 || b == 0xA0)

unfoldable pub space_3 : ℕ → ℕ → ℕ → Bool
space_3 a b c =
    (a == 0xE1 && b == 0x9A && c == 0x80)
    || (a == 0xE2
        && b == 0x80
        && ((leb 0x80 c && leb c 0x8A) || c == 0xA8 || c == 0xA9 || c == 0xAF))
    || (a == 0xE2 && b == 0x81 && c == 0x9F)
    || (a == 0xE3 && b == 0x80 && c == 0x80)

module _ (one : ℕ → Bool) (two : ℕ → ℕ → Bool) (three : ℕ → ℕ → ℕ → Bool) where
  strip : Text → Text
  strip [] = []
  strip (a ∷ []) = if one a then [] else a ∷ []
  strip (a ∷ b ∷ []) =
      let rest = strip (b ∷ []) in if one a then rest else if two a b then [] else a ∷ b ∷ []
  strip (a ∷ b ∷ c ∷ s) =
      let rest_1 = strip (b ∷ c ∷ s) in
      let rest_2 = strip (c ∷ s) in
      let rest_3 = strip s in
      if one a
      then rest_1
      else if two a b
      then rest_2
      else if three a b c
      then rest_3
      else a ∷ b ∷ c ∷ s

-- `strings.TrimSpace`, from the left and then from the right.
unfoldable pub trim_space : Text → Text
unfolding strip space_1 space_2 space_3
trim_space s = reverse (
    strip space_1 (λ a b. space_2 b a) (λ a b c. space_3 c b a)
      (reverse (strip space_1 space_2 space_3 s)))

-- `strings.TrimSpace(s) == ""`
unfoldable pub is_blank : Text → Bool
unfolding trim_space
is_blank s = null (trim_space s)

trims : trim_space (codes " a b  ") ≡ codes "a b"
unfolding trim_space
trims = refl

trims_no_break_space : is_blank (32 ∷ 0xC2 ∷ 0xA0 ∷ 0xE2 ∷ 0x80 ∷ 0xA9 ∷ []) ≡ true
unfolding is_blank
trims_no_break_space = refl
