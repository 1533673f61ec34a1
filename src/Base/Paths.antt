-- ===== src/Base/Paths.antt =====
-- The package `path` on slash-separated names.
pub mod Contained
use Prim.Native.Nat.{ℕ}
use mathlib.Core.Path.{◌≡◌, refl, sym, ap, subst, ◌∙◌}
use mathlib.Core.Logic.{inl, inr}
use mathlib.Core.Bool.{Bool, true, false, not, ◌&&◌, ◌||◌}
use mathlib.Core.List.{List, [], ◌∷◌, ◌++◌, reverse, reverse_aux}
use native.Mathlib.Omega.{arith}
use partforge.Base.Tests.{◌==◌, if◌then◌else◌, Bool-cases}
use partforge.Base.Lists.{All, filter, all}
use partforge.Base.Strings.{Text, codes, text_eq, null}
use partforge.Base.Scan.{split_byte, join, starts_with, strip_prefix, on_first}

abbrev pub slash : ℕ
slash = 47

-- One level up from the segments on the stack.
unfoldable pub parent : Bool → List Text → List Text
parent rooted [] = if rooted then [] else codes ".." ∷ []
parent rooted (top ∷ stack) = if text_eq top (codes "..") then codes ".." ∷ top ∷ stack else stack

unfoldable pub push_segment : Bool → List Text → Text → List Text
unfolding parent
push_segment rooted stack segment =
    if null segment || text_eq segment (codes ".")
    then stack
    else if text_eq segment (codes "..")
    then parent rooted stack
    else segment ∷ stack

unfoldable pub clean_segments : Bool → List Text → List Text → List Text
unfolding push_segment
clean_segments rooted stack [] = reverse stack
clean_segments rooted stack (segment ∷ segments) =
    clean_segments rooted (push_segment rooted stack segment) segments

unfoldable pub cleaned : Bool → Text → Text
cleaned true s = slash ∷ s
cleaned false [] = codes "."
cleaned false (c ∷ s) = c ∷ s

-- `path.Clean`
unfoldable pub path_clean : Text → Text
unfolding clean_segments cleaned
path_clean s =
    let rooted = starts_with (slash ∷ []) s in
    cleaned rooted (join (slash ∷ []) (clean_segments rooted [] (split_byte slash s)))

-- `path.Join`
unfoldable pub path_join : List Text → Text
unfolding path_clean
path_join elements =
    let kept = filter (λ e. not (null e)) elements in
    if null kept then [] else path_clean (join (slash ∷ []) kept)

-- A segment that names a file or directory in its parent.
unfoldable pub is_proper : Text → Bool
is_proper segment =
    not (null segment || text_eq segment (codes ".") || text_eq segment (codes ".."))

push_segment-proper :
    (rooted : Bool) (stack : List Text) (s : Text)
    → is_proper s ≡ true
    → push_segment rooted stack s ≡ s ∷ stack
unfolding push_segment is_proper
push_segment-proper rooted stack s h = ground arith

-- Proper segments stay as they are, before a rest that adds none.
clean_segments-proper :
    (rooted : Bool) (stack segments rest : List Text)
    → all is_proper segments ≡ true
    → ((stack : List Text) → clean_segments rooted stack rest ≡ reverse stack)
    → clean_segments rooted stack (segments ++ rest) ≡ reverse_aux stack segments
unfolding clean_segments
clean_segments-proper rooted stack [] rest h last = last stack
clean_segments-proper rooted stack (s ∷ segments) rest h last =
    ap (λ st. clean_segments rooted st (segments ++ rest))
      (push_segment-proper rooted stack s (ground (arith, h)))
    ∙ clean_segments-proper rooted (s ∷ stack) segments rest (ground (arith, h)) last

pub append_nil : (segments : List Text) → segments ++ [] ≡ segments
append_nil [] = refl
append_nil (s ∷ segments) = ap (λ l. s ∷ l) (append_nil segments)

pub split_byte-cons :
    (sep : ℕ) (s : Text) → (w : Text) × (ws : List Text) × (split_byte sep s ≡ w ∷ ws)
unfolding split_byte on_first
split_byte-cons sep [] = ([], [], refl)
split_byte-cons sep (c ∷ s) =
    let (w, ws, e) = split_byte-cons sep s in
    elim (Bool-cases (c == sep)) [
      | inl cut ↦ ([], split_byte sep s, rw cut refl)
      | inr kept ↦ (c ∷ w, ws, rw (kept, e) refl)
    ]

join-first :
    (c : ℕ) (w : Text) (ws : List Text)
    → join (slash ∷ []) ((c ∷ w) ∷ ws) ≡ c ∷ join (slash ∷ []) (w ∷ ws)
unfolding join
join-first c w [] = refl
join-first c w (v ∷ ws) = refl

pub join-split_byte : (s : Text) → join (slash ∷ []) (split_byte slash s) ≡ s
unfolding split_byte on_first join
join-split_byte [] = refl
join-split_byte (c ∷ s) =
    let (w, ws, e) = split_byte-cons slash s in
    let rest : join (slash ∷ []) (w ∷ ws) ≡ s =
      subst (λ l. join (slash ∷ []) l ≡ s) e (join-split_byte s) in
    elim (Bool-cases (c == slash)) [
      | inl cut ↦
          rw (cut, e) (ap (λ t. slash ∷ t) rest ∙ ap (λ x. x ∷ s) (sym (ground (arith, cut))))
      | inr kept ↦ rw (kept, e) (join-first c w ws ∙ ap (λ t. c ∷ t) rest)
    ]

pub split_byte-trailing :
    (s : Text) → split_byte slash (s ++ slash ∷ []) ≡ split_byte slash s ++ [] ∷ []
unfolding split_byte on_first
split_byte-trailing [] = refl
split_byte-trailing (c ∷ s) =
    let (w, ws, e) = split_byte-cons slash s in
    let rest : split_byte slash (s ++ slash ∷ []) ≡ w ∷ (ws ++ [] ∷ []) =
      split_byte-trailing s ∙ ap (λ l. l ++ [] ∷ []) e in
    elim (Bool-cases (c == slash)) [
      | inl cut ↦ rw (cut, rest, e) refl
      | inr kept ↦ rw (kept, rest, e) refl
    ]

reverse_aux-nil : (segments : List Text) → reverse_aux [] segments ≡ segments
reverse_aux-nil segments = refl

-- A name of proper segments is relative and not empty.
proper_first :
    (s : Text)
    → all is_proper (split_byte slash s) ≡ true
    → (c : ℕ) × (rest : Text) × (s ≡ c ∷ rest) × ((slash == c) ≡ false)
unfolding split_byte is_proper text_eq
proper_first [] h = cc
proper_first (c ∷ rest) h = elim (Bool-cases (c == slash)) [
  | inl cut ↦ absurd (cc (rw cut at h))
  | inr kept ↦ (c, rest, refl, ground arith)
]

pub cleaned-cons : (s : Text) → null s ≡ false → cleaned false s ≡ s
unfolding cleaned
cleaned-cons [] h = cc
cleaned-cons (c ∷ s) h = refl

path_clean-relative :
    (s t : Text)
    → starts_with (slash ∷ []) s ≡ false
    → clean_segments false [] (split_byte slash s) ≡ split_byte slash t
    → null t ≡ false
    → path_clean s ≡ t
unfolding path_clean
path_clean-relative s t relative segments some_byte =
    rw (relative, segments, join-split_byte t) (cleaned-cons t some_byte)

some_byte : (s : Text) (c : ℕ) (rest : Text) → s ≡ c ∷ rest → null s ≡ false
some_byte s c rest e = ap null e

not_rooted :
    (s : Text) (c : ℕ) (rest : Text)
    → s ≡ c ∷ rest
    → (slash == c) ≡ false
    → starts_with (slash ∷ []) s ≡ false
unfolding starts_with strip_prefix
not_rooted s c rest e h = subst (λ t. starts_with (slash ∷ []) t ≡ false) (sym e) (rw h refl)

nothing_more : (stack : List Text) → clean_segments false stack [] ≡ reverse stack
unfolding clean_segments
nothing_more stack = refl

nothing_after_slash : (stack : List Text) → clean_segments false stack ([] ∷ []) ≡ reverse stack
unfolding clean_segments push_segment
nothing_after_slash stack = refl

-- A name of proper segments is clean, and a slash behind it is dropped.
pub path_clean-proper :
    (s : Text)
    → all is_proper (split_byte slash s) ≡ true
    → (path_clean s ≡ s) × (path_clean (s ++ slash ∷ []) ≡ s)
path_clean-proper s h =
    let (c, rest, shape, relative) = proper_first s h in
    let kept : clean_segments false [] (split_byte slash s) ≡ split_byte slash s =
      ap (λ l. clean_segments false [] l) (sym (append_nil (split_byte slash s)))
      ∙ clean_segments-proper false [] (split_byte slash s) [] h nothing_more in
    let kept_slash : clean_segments false [] (split_byte slash (s ++ slash ∷ []))
        ≡ split_byte slash s =
      ap (λ l. clean_segments false [] l) (split_byte-trailing s)
      ∙ clean_segments-proper false [] (split_byte slash s) ([] ∷ []) h nothing_after_slash in
    (
      path_clean-relative s s (not_rooted s c rest shape relative) kept (some_byte s c rest shape),
      path_clean-relative (s ++ slash ∷ []) s
          (not_rooted (s ++ slash ∷ []) c (rest ++ slash ∷ []) (ap (λ t. t ++ slash ∷ []) shape)
            relative)
          kept_slash (some_byte s c rest shape),
    )

cleans : path_clean (codes "a//b/../c/./d/") ≡ codes "a/c/d"
unfolding path_clean starts_with strip_prefix join split_byte text_eq
cleans = refl

cleans_up : path_clean (codes "/../a/..") ≡ codes "/"
unfolding path_clean starts_with strip_prefix join split_byte text_eq
cleans_up = refl
