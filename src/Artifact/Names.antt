-- ===== src/Artifact/Names.antt =====
-- internal/artifact/tar.go: the names of entries and parts.
use partforge.Base.{
  guard-ok, Text, List, [], ◌∷◌, ◌++◌, Bool, true, not, Result, ok, guard, ◌>>◌, >>-eq-ok,
  if◌then◌else◌, ◌&&◌, ◌||◌, ◌==◌, all, is_blank, text_eq, codes, ◌≡◌, refl, sym, ap, ◌∙◌,
  Bool-cases, ◌⊎◌, inl, inr, arith,
}
use partforge.Base.Scan.{split_byte, starts_with, contains_byte, contains_any}
use partforge.Base.Paths.{slash, path_clean, is_proper, path_clean-proper}
use partforge.Artifact.Numbers.{TarError, unsafe_entry_name, unsafe_part_name}

unfoldable pub validate_tar_part_name : Text → Result TarError (Unit {0})
unfolding is_proper
validate_tar_part_name name =
    guard (is_proper name && not (contains_any name (codes "/\\"))) unsafe_part_name

-- `strings.TrimSuffix(name, "/")`
unfoldable pub trim_slash : Text → Text
trim_slash [] = []
trim_slash (c ∷ []) = if c == slash then [] else c ∷ []
trim_slash (c ∷ d ∷ s) = c ∷ trim_slash (d ∷ s)

is_unsafe : Text → Bool
is_unsafe name = is_blank name || starts_with (slash ∷ []) name || contains_byte 92 name

climbs : Text → Bool
climbs clean =
    text_eq clean (codes ".") || starts_with (codes "../") clean || text_eq clean (codes "..")

unfoldable pub part_of : List Text → Text
part_of [] = []
part_of (part ∷ _) = part

-- The clean name of an entry, and the part that it belongs to.
unfoldable pub clean_finished_tar_entry_name : Text → Result TarError (Text × Text)
unfolding is_unsafe climbs validate_tar_part_name trim_slash part_of
clean_finished_tar_entry_name name =
    guard (not (is_unsafe name)) unsafe_entry_name
    >> guard (all is_proper (split_byte slash (trim_slash name))) unsafe_entry_name
    >> guard (not (climbs (path_clean name))) unsafe_entry_name
    >> validate_tar_part_name (part_of (split_byte slash (path_clean name)))
    >> ok (path_clean name, part_of (split_byte slash (path_clean name)))

-- A name is its trimmed form, or that with a slash behind it.
trim_slash-cases : (name : Text) → (name ≡ trim_slash name) ⊎ (name ≡ trim_slash name ++ slash ∷ [])
unfolding trim_slash
trim_slash-cases [] = inl refl
trim_slash-cases (c ∷ []) = elim (Bool-cases (c == slash)) [
  | inl e ↦ rw e (inr (ap (λ x. x ∷ []) (ground (arith, e))))
  | inr e ↦ rw e (inl refl)
]
trim_slash-cases (c ∷ d ∷ s) = elim (trim_slash-cases (d ∷ s)) [
  | inl e ↦ inl (ap (λ t. c ∷ t) e)
  | inr e ↦ inr (ap (λ t. c ∷ t) e)
]

path_clean-trim_slash :
    (name : Text)
    → all is_proper (split_byte slash (trim_slash name)) ≡ true
    → path_clean name ≡ trim_slash name
path_clean-trim_slash name h =
    let (plain, behind) = path_clean-proper (trim_slash name) h in
    elim (trim_slash-cases name) [
      | inl e ↦ ap path_clean e ∙ plain
      | inr e ↦ ap path_clean e ∙ behind
    ]

-- What is accepted is the given name without a slash behind it, of segments that name a file or
-- directory in their parent, under the directory of its part.
pub clean_finished_tar_entry_name-proper :
    (name clean part : Text)
    → clean_finished_tar_entry_name name ≡ ok (clean, part)
    → (clean ≡ trim_slash name)
      × (all is_proper (split_byte slash clean) ≡ true)
      × (part ≡ part_of (split_byte slash clean))
unfolding clean_finished_tar_entry_name
clean_finished_tar_entry_name-proper name clean part h =
    let harmless = guard (not (is_unsafe name)) unsafe_entry_name in
    let proper = guard (all is_proper (split_byte slash (trim_slash name))) unsafe_entry_name in
    let below = guard (not (climbs (path_clean name))) unsafe_entry_name in
    let named = validate_tar_part_name (part_of (split_byte slash (path_clean name))) in
    let (checked, given) = >>-eq-ok (harmless >> proper >> below >> named) _ h in
    let (passed, _) = >>-eq-ok (harmless >> proper >> below) named checked in
    let (first, _) = >>-eq-ok (harmless >> proper) below passed in
    let (_, second) = >>-eq-ok harmless proper first in
    let segments : all is_proper (split_byte slash (trim_slash name)) ≡ true =
      guard-ok _ _ second in
    let trimmed : path_clean name ≡ trim_slash name = path_clean-trim_slash name segments in
    let same : path_clean name ≡ clean = cc given in
    let same_part : part_of (split_byte slash (path_clean name)) ≡ part = cc given in
    (
      sym same ∙ trimmed,
      ap (λ t. all is_proper (split_byte slash t)) (sym same ∙ trimmed) ∙ segments,
      sym same_part ∙ ap (λ t. part_of (split_byte slash t)) same,
    )
