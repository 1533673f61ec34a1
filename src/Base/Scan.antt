-- ===== src/Base/Scan.antt =====
-- The functions of the package `strings` that cut texts: by a byte, by white space, by a prefix.
use Prim.Native.Nat.{ℕ}
use mathlib.Core.Path.{◌≡◌, refl}
use mathlib.Core.Bool.{Bool, true, false, ◌||◌}
use mathlib.Core.Option.{Option, none, some}
use mathlib.Core.List.{List, [], ◌∷◌, ◌++◌, reverse}
use partforge.Base.Tests.{◌==◌, if◌then◌else◌}
use partforge.Base.Strings.{Text, codes, space_1, space_2, space_3}

-- `strings.TrimPrefix` that also tells whether the prefix was there.
unfoldable pub strip_prefix : Text → Text → Option Text
strip_prefix [] s = some s
strip_prefix (p ∷ ps) [] = none
strip_prefix (p ∷ ps) (c ∷ s) = let rest = strip_prefix ps s in if p == c then rest else none

is_some {ℓ} : {A : Type ℓ} → Option A → Bool
is_some none = false
is_some (some _) = true

-- `strings.HasPrefix(s, prefix)`, with the arguments the other way round.
unfoldable pub starts_with : Text → Text → Bool
unfolding is_some
starts_with prefix s = is_some (strip_prefix prefix s)

-- `strings.HasSuffix(s, suffix)`, with the arguments the other way round.
unfoldable pub ends_with : Text → Text → Bool
unfolding starts_with
ends_with suffix s = starts_with (reverse suffix) (reverse s)

unfoldable pub contains_byte : ℕ → Text → Bool
contains_byte b [] = false
contains_byte b (c ∷ s) = b == c || contains_byte b s

-- `strings.ContainsAny(s, chars)` for ASCII characters.
unfoldable pub contains_any : Text → Text → Bool
unfolding contains_byte
contains_any [] chars = false
contains_any (c ∷ s) chars = contains_byte c chars || contains_any s chars

unfoldable pub on_first : (Text → Text) → List Text → List Text
on_first f [] = f [] ∷ []
on_first f (s ∷ ss) = f s ∷ ss

-- `strings.Split(s, sep)` for a separator of one byte.
unfoldable pub split_byte : ℕ → Text → List Text
unfolding on_first
split_byte sep [] = [] ∷ []
split_byte sep (c ∷ s) =
    let rest = split_byte sep s in if c == sep then [] ∷ rest else on_first (λ w. c ∷ w) rest

-- `strings.Join(elems, sep)`
unfoldable pub join : Text → List Text → Text
join sep [] = []
join sep (s ∷ []) = s
join sep (s ∷ t ∷ ts) = s ++ sep ++ join sep (t ∷ ts)

flush : Text → List Text → List Text
flush [] rest = rest
flush (c ∷ word) rest = reverse (c ∷ word) ∷ rest

-- `strings.Fields`, with the bytes of the current word in reverse.
fields_from : Text → Text → List Text
unfolding flush space_1 space_2 space_3
fields_from word [] = flush word []
fields_from word (a ∷ []) = if space_1 a then flush word [] else flush (a ∷ word) []
fields_from word (a ∷ b ∷ []) =
    let cut = fields_from [] (b ∷ []) in
    let grown = fields_from (a ∷ word) (b ∷ []) in
    if space_1 a then flush word cut else if space_2 a b then flush word [] else grown
fields_from word (a ∷ b ∷ c ∷ s) =
    let cut_1 = fields_from [] (b ∷ c ∷ s) in
    let cut_2 = fields_from [] (c ∷ s) in
    let cut_3 = fields_from [] s in
    let grown = fields_from (a ∷ word) (b ∷ c ∷ s) in
    if space_1 a
    then flush word cut_1
    else if space_2 a b
    then flush word cut_2
    else if space_3 a b c
    then flush word cut_3
    else grown

unfoldable pub fields : Text → List Text
unfolding fields_from
fields s = fields_from [] s

splits_fields : fields (codes " max  100000 ") ≡ codes "max" ∷ codes "100000" ∷ []
unfolding fields
splits_fields = refl

splits_bytes : split_byte 44 (codes "0-3,,5") ≡ codes "0-3" ∷ [] ∷ codes "5" ∷ []
unfolding split_byte
splits_bytes = refl
