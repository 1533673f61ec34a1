-- ===== src/Base/Paths/Contained.antt =====
-- A relative name that `path.Clean` leaves as it is climbs only by leading segments `..`.
use Prim.Native.Nat.{ℕ, zero, suc}
use mathlib.Core.Path.{◌≡◌, refl, sym, ap, subst, ◌∙◌}
use mathlib.Core.Logic.{◌⊎◌, inl, inr}
use mathlib.Core.Bool.{Bool, true, false, not, ◌&&◌, ◌||◌}
use mathlib.Core.List.{List, [], ◌∷◌, ◌++◌, reverse, reverse_aux}
use native.Mathlib.Omega.{arith}
use partforge.Base.Tests.{◌==◌, Bool-cases}
use partforge.Base.Lists.{all, append_assoc}
use partforge.Base.Strings.{Text, codes, text_eq, null}
use partforge.Base.Scan.{split_byte, join, starts_with, strip_prefix, on_first, contains_byte}
use partforge.Base.Paths.{
  slash, parent, push_segment, clean_segments, cleaned, path_clean, is_proper, append_nil,
  split_byte-cons,
}

-- A proper segment without a slash.
is_plain : Text → Bool
is_plain s = not (contains_byte slash s)

abbrev up : Text
up = codes ".."

ups : ℕ → List Text
ups zero = []
ups (suc n) = up ∷ ups n

abbrev is_fine : Text → Bool
is_fine s = is_proper s && is_plain s

-- A stack of fine segments above some `..`.
abbrev Climbing : List Text → Type 0
Climbing stack = (n : ℕ) × (fine : List Text) × (stack ≡ fine ++ ups n) × (all is_fine fine ≡ true)

split_byte-is_plain : (s : Text) → all is_plain (split_byte slash s) ≡ true
unfolding split_byte on_first is_plain contains_byte
split_byte-is_plain [] = refl
split_byte-is_plain (c ∷ s) =
    let (w, ws, e) = split_byte-cons slash s in
    let rest : all is_plain (w ∷ ws) ≡ true =
      subst (λ l. all is_plain l ≡ true) e (split_byte-is_plain s) in
    elim (Bool-cases (c == slash)) [
      | inl cut ↦ rw cut (split_byte-is_plain s)
      | inr kept ↦ rw (kept, e) (ground (arith, rest))
    ]

parent-Climbing : (stack : List Text) → Climbing stack → Climbing (parent false stack)
unfolding parent ups is_proper text_eq
parent-Climbing stack (zero, [], e, h) = rw e (1, [], refl, refl)
parent-Climbing stack (suc n, [], e, h) = rw e (suc (suc n), [], refl, refl)
parent-Climbing stack (n, s ∷ fine, e, h) =
    let below : text_eq s up ≡ false = ground (arith, h) in
    rw (e, below) (n, fine, refl, ground (arith, h))

fine_lem :
    (s : Text)
    → is_plain s ≡ true
    → (null s || text_eq s (codes ".")) ≡ false
    → text_eq s up ≡ false
    → is_fine s ≡ true
unfolding is_proper
fine_lem s plain kept proper = ground (arith, plain, kept, proper)

push_segment-Climbing :
    (stack : List Text) (s : Text)
    → is_plain s ≡ true
    → Climbing stack
    → Climbing (push_segment false stack s)
unfolding push_segment
push_segment-Climbing stack s plain (n, fine, e, h) =
    elim (Bool-cases (null s || text_eq s (codes "."))) [
      | inl skipped ↦ rw skipped (n, fine, e, h)
      | inr kept ↦ elim (Bool-cases (text_eq s up)) [
        | inl climbs ↦ rw (kept, climbs) (parent-Climbing stack (n, fine, e, h))
        | inr proper ↦
            rw (kept, proper)
              (n, s ∷ fine, ap (λ l. s ∷ l) e, ground (arith, h, fine_lem s plain kept proper))
      ]
    ]

clean_segments-Climbing :
    (stack segments : List Text)
    → all is_plain segments ≡ true
    → Climbing stack
    → (final : List Text) × Climbing final × (clean_segments false stack segments ≡ reverse final)
unfolding clean_segments
clean_segments-Climbing stack [] plain c = (stack, c, refl)
clean_segments-Climbing stack (s ∷ segments) plain c =
    clean_segments-Climbing (push_segment false stack s) segments (ground (arith, plain))
      (push_segment-Climbing stack s (ground (arith, plain)) c)

all-reverse_aux :
    (test : Text → Bool) (xs ys : List Text)
    → all test xs ≡ true
    → all test ys ≡ true
    → all test (reverse_aux xs ys) ≡ true
all-reverse_aux test [] ys h k = k
all-reverse_aux test (x ∷ xs) ys h k =
    all-reverse_aux test xs (x ∷ ys) (ground (arith, h)) (ground (arith, h, k))

reverse_aux-ups :
    (n : ℕ) (acc : List Text) → (rest : List Text) × (reverse_aux (ups (suc n)) acc ≡ up ∷ rest)
unfolding ups
reverse_aux-ups zero acc = (acc, refl)
reverse_aux-ups (suc n) acc = reverse_aux-ups n (up ∷ acc)

reverse_aux-climb :
    (fine : List Text) (n : ℕ) (acc : List Text)
    → (rest : List Text) × (reverse_aux (fine ++ ups (suc n)) acc ≡ up ∷ rest)
reverse_aux-climb [] n acc = reverse_aux-ups n acc
reverse_aux-climb (s ∷ fine) n acc = reverse_aux-climb fine n (s ∷ acc)

-- Reversed, a climbing stack is of fine segments, or it begins with `..`.
reverse-Climbing :
    (stack : List Text)
    → Climbing stack
    → (all is_fine (reverse stack) ≡ true) ⊎ ((rest : List Text) × (reverse stack ≡ up ∷ rest))
unfolding ups
reverse-Climbing stack (zero, fine, e, h) = inl (
    subst (λ l. all is_fine (reverse l) ≡ true) (sym (e ∙ append_nil fine))
      (all-reverse_aux is_fine fine [] h refl))
reverse-Climbing stack (suc n, fine, e, h) =
    let (rest, climbs) = reverse_aux-climb fine n [] in inr (rest, ap reverse e ∙ climbs)

split_byte-plain : (s : Text) → is_plain s ≡ true → split_byte slash s ≡ s ∷ []
unfolding split_byte on_first is_plain contains_byte
split_byte-plain [] h = refl
split_byte-plain (c ∷ s) h =
    let other : (c == slash) ≡ false = ground arith in
    let rest : split_byte slash s ≡ s ∷ [] = split_byte-plain s (ground (arith, h)) in
    rw (other, rest) refl

-- A slash behind a plain segment ends it.
split_byte-join_two :
    (s t : Text) → is_plain s ≡ true → split_byte slash (s ++ slash ∷ t) ≡ s ∷ split_byte slash t
unfolding split_byte on_first is_plain contains_byte
split_byte-join_two [] t h = refl
split_byte-join_two (c ∷ s) t h =
    let other : (c == slash) ≡ false = ground arith in
    let rest : split_byte slash (s ++ slash ∷ t) ≡ s ∷ split_byte slash t =
      split_byte-join_two s t (ground (arith, h)) in
    rw (other, rest) refl

join-two :
    (s t : Text) (segments : List Text)
    → join (slash ∷ []) (s ∷ t ∷ segments) ≡ s ++ slash ∷ join (slash ∷ []) (t ∷ segments)
unfolding join
join-two s t segments = append_assoc s (slash ∷ []) (join (slash ∷ []) (t ∷ segments))

join-one : (s : Text) → join (slash ∷ []) (s ∷ []) ≡ s
unfolding join
join-one s = refl

-- Plain segments are found again in the joined name.
split_byte-join :
    (s : Text) (segments : List Text)
    → all is_plain (s ∷ segments) ≡ true
    → split_byte slash (join (slash ∷ []) (s ∷ segments)) ≡ s ∷ segments
split_byte-join s [] h = ap (split_byte slash) (join-one s) ∙ split_byte-plain s (ground (arith, h))
split_byte-join s (t ∷ segments) h =
    ap (split_byte slash) (join-two s t segments)
    ∙ split_byte-join_two s (join (slash ∷ []) (t ∷ segments)) (ground (arith, h))
    ∙ ap (λ l. s ∷ l) (split_byte-join t segments (ground (arith, h)))

all-fine :
    (segments : List Text)
    → all is_fine segments ≡ true
    → (all is_plain segments ≡ true) × (all is_proper segments ≡ true)
all-fine [] h = (refl, refl)
all-fine (s ∷ segments) h =
    let (plain, proper) = all-fine segments (ground (arith, h)) in
    (ground (arith, h), ground (arith, h))

-- A relative name that does not climb.
abbrev pub stays : Text → Bool
stays s = not (
    starts_with (slash ∷ []) s
    || text_eq s (codes ".")
    || text_eq s (codes "..")
    || starts_with (codes "../") s)

climbing-stays : (rest : List Text) → stays (join (slash ∷ []) (up ∷ rest)) ≡ false
unfolding starts_with strip_prefix text_eq join
climbing-stays [] = refl
climbing-stays (t ∷ rest) = refl

fine-split :
    (segments : List Text) (s : Text)
    → all is_fine segments ≡ true
    → join (slash ∷ []) segments ≡ s
    → null s ≡ false
    → all is_proper (split_byte slash s) ≡ true
unfolding join
fine-split [] s fine e some_byte = absurd (cc (ap null e, some_byte))
fine-split (r ∷ segments) s fine e some_byte =
    let (plain, proper) = all-fine (r ∷ segments) fine in
    subst (λ t. all is_proper (split_byte slash t) ≡ true) e
      (ap (all is_proper) (split_byte-join r segments plain) ∙ proper)

path_clean-relative :
    (s : Text)
    → starts_with (slash ∷ []) s ≡ false
    → path_clean s
      ≡ cleaned false (join (slash ∷ []) (clean_segments false [] (split_byte slash s)))
unfolding path_clean
path_clean-relative s h = rw h refl

-- A name that is not `.` is the joined one itself.
named_lem : (joined s : Text) → cleaned false joined ≡ s → stays s ≡ true → joined ≡ s
unfolding cleaned text_eq
named_lem [] s e inside =
    let dot : text_eq s (codes ".") ≡ true = ap (λ t. text_eq t (codes ".")) (sym e) in
    absurd (ground (arith, dot, inside))
named_lem (c ∷ joined) s e inside = e

stays-not_empty : (s : Text) → path_clean s ≡ s → null s ≡ false
unfolding path_clean cleaned clean_segments push_segment parent split_byte join starts_with
    strip_prefix
stays-not_empty [] clean = absurd (cc clean)
stays-not_empty (c ∷ s) clean = refl

-- A clean relative name that does not climb has proper segments only.
pub path_clean-contained :
    (s : Text) → path_clean s ≡ s → stays s ≡ true → all is_proper (split_byte slash s) ≡ true
unfolding cleaned ups
path_clean-contained s clean inside =
    let (final, climbing, segments) =
      clean_segments-Climbing [] (split_byte slash s) (split_byte-is_plain s)
        (zero, [], refl, refl) in
    let joined : cleaned false (join (slash ∷ []) (reverse final)) ≡ s =
      ap (λ l. cleaned false (join (slash ∷ []) l)) (sym segments)
      ∙ sym (path_clean-relative s (ground (arith, inside)))
      ∙ clean in
    let named : join (slash ∷ []) (reverse final) ≡ s =
      named_lem (join (slash ∷ []) (reverse final)) s joined inside in
    elim (reverse-Climbing final climbing) [
      | inl fine ↦ fine-split (reverse final) s fine named (stays-not_empty s clean)
      | inr (rest, climbs) ↦
          let bad : stays s ≡ false =
            ap stays (sym named ∙ ap (join (slash ∷ [])) climbs) ∙ climbing-stays rest in
          absurd (cc (bad, inside))
    ]
