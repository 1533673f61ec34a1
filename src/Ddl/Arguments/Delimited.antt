-- ===== src/Ddl/Arguments/Delimited.antt =====
-- internal/ddl/ddl.go: what `readParens` delimits, `splitTopLevelArgs` can split.
use partforge.Base.{
  Text, ℕ, List, [], ◌∷◌, ◌++◌, true, Result, ok, ◌>>=◌, >>=-eq-ok, map, trim_space, ◌≡◌, refl,
  subst, Bool-cases, inl, inr, arith,
}
use partforge.Ddl.Scanner.{DdlError}
use partforge.Ddl.Arguments.{
  Scan, outside, step, cuts, closes, add_byte, finish, split_args, split_top_level_args,
  close_parens, prepend, read_parens,
}

closes-finish : (st : Scan) (c : ℕ) → closes st c ≡ true → finish st ≡ ok ([] ∷ [])
unfolding closes finish
closes-finish st c h = ground arith

closes-close : (st : Scan) (c : ℕ) → closes st c ≡ true → c ≡ 41
unfolding closes
closes-close st c h = ground arith

-- The scan of the delimited bytes ends outside of quotes and parentheses.
close_parens-split :
    (st : Scan) (s args rest : Text)
    → close_parens st s ≡ ok (args, rest)
    → (s ≡ args ++ 41 ∷ rest) × (parts : List Text) × (split_args st args ≡ ok parts)
unfolding close_parens split_args
close_parens-split st [] args rest h = cc
close_parens-split st (c ∷ s) args rest h = elim (Bool-cases (closes st c)) [
  | inl e ↦
      let done : ◌≡◌ {A = Result DdlError (Text × Text)} (ok ([], s)) (ok (args, rest)) =
        rw (e, close_parens) at h in
      let none_left : [] ≡ args = cc done in
      let same_rest : s ≡ rest = cc done in
      subst
        (λ inner.
          (c ∷ s ≡ inner ++ 41 ∷ rest) × (parts : List Text) × (split_args st inner ≡ ok parts))
        none_left (cc (closes-close st c e, same_rest), [] ∷ [], closes-finish st c e)
  | inr e ↦
      let more : (step st c >>= λ next. close_parens next s >>= prepend c) ≡ ok (args, rest) =
        rw (e, close_parens) at h in
      let (next, stepped, read) =
        >>=-eq-ok (step st c) (λ next. close_parens next s >>= prepend c) more in
      let (pair, closed, same) = >>=-eq-ok (close_parens next s) (prepend c) read in
      let (split, parts, parted) = close_parens-split next s pair.0 pair.1 closed in
      let same_args : c ∷ pair.0 ≡ args = cc same in
      let same_rest : pair.1 ≡ rest = cc same in
      let continued : split_args st (c ∷ pair.0) ≡ ok (add_byte (cuts st c) c parts) =
        rw (stepped, split_args, parted) refl in
      subst
        (λ inner.
          (c ∷ s ≡ inner ++ 41 ∷ rest) × (parts : List Text) × (split_args st inner ≡ ok parts))
        same_args (cc (split, same_rest), add_byte (cuts st c) c parts, continued)
]

-- The arguments that are read end at a closing parenthesis, and splitting them never fails.
pub read_parens-splits :
    (s args rest : Text)
    → read_parens s ≡ ok (args, rest)
    → (s ≡ args ++ 41 ∷ rest) × (parts : List Text) × (split_top_level_args args ≡ ok parts)
unfolding read_parens split_top_level_args
read_parens-splits s args rest h =
    let (delimited, parts, split) = close_parens-split (outside 0) s args rest h in
    (delimited, map trim_space parts, rw split refl)
