-- ===== src/Dlt/Versions/Tags.antt =====
-- The version that `version_of` of src/dlt/versions.py reads in a full image reference.
use mathlib.Core.List.{reverse-reverse, reverse-cons, append_assoc}
use agentic_resident_crm.Prelude.{
  ℕ, true, false, [], ◌∷◌, ◌++◌, ◌==◌, nat_eq, if◌then◌else◌, ◌≡◌, refl, arith, Text, contains, any,
  reverse, ◌∙◌,
}
use agentic_resident_crm.Dlt.Versions.Image.{
  is_space, drop_while, strip, before, last_part, after_last, tag_of, version_of,
}

-- `c` does not stand in `t`.
abbrev pub Lacks : ℕ → Text → Type 0
Lacks c t = contains t c ≡ false

before-absent : (c : ℕ) (t : Text) → Lacks c t → before c t ≡ t
unfolding before
before-absent c [] h = refl
before-absent c (x ∷ t) h = ground (arith, before-absent c t)

before-append : (c : ℕ) (t u : Text) → Lacks c t → before c (t ++ c ∷ u) ≡ t
unfolding before
before-append c [] u h = ground arith
before-append c (x ∷ t) u h = ground (arith, before-append c t u)

last_part-absent : (c : ℕ) (best t : Text) → Lacks c t → last_part c best t ≡ best
unfolding last_part
last_part-absent c best [] h = refl
last_part-absent c best (x ∷ t) h =
    last_part-absent c (if x == c then t else best) t (ground arith) ∙ ground arith

last_part-append : (c : ℕ) (best t u : Text) → Lacks c u → last_part c best (t ++ c ∷ u) ≡ u
unfolding last_part
last_part-append c best [] u h = last_part-absent c (if c == c then u else best) u h ∙ ground arith
last_part-append c best (x ∷ t) u h = last_part-append c (if x == c then t ++ c ∷ u else best) t u h

drop_while-none : (t : Text) → any is_space t ≡ false → drop_while is_space t ≡ t
unfolding drop_while
drop_while-none [] h = refl
drop_while-none (c ∷ t) h = let e : is_space c ≡ false = ground arith in rw e

any-append :
    (t u : Text) → any is_space t ≡ false → any is_space u ≡ false → any is_space (t ++ u) ≡ false
any-append [] u h k = k
any-append (c ∷ t) u h k = ground (arith, any-append t u)

any-reverse : (t : Text) → any is_space t ≡ false → any is_space (reverse t) ≡ false
any-reverse [] h = refl
any-reverse (c ∷ t) h =
    rw (reverse-cons c t)
      (any-append (reverse t) (c ∷ []) (any-reverse t (ground arith)) (ground arith))

strip-none : (t : Text) → any is_space t ≡ false → strip t ≡ t
unfolding strip
strip-none t h =
    rw (drop_while-none t h, drop_while-none (reverse t) (any-reverse t h)) (reverse-reverse t)

contains-append : (c : ℕ) (t u : Text) → Lacks c t → Lacks c u → Lacks c (t ++ u)
contains-append c [] u h k = k
contains-append c (x ∷ t) u h k = ground (arith, contains-append c t u)

tag_of-append : (name tag : Text) → Lacks b':' tag → tag_of (name ++ b':' ∷ tag) ≡ tag
unfolding tag_of after_last
tag_of-append name tag h = rw (has_colon name) (last_part-append b':' _ name tag h)
  where
    has_colon : (t : Text) → contains (t ++ b':' ∷ tag) b':' ≡ true
    has_colon [] = refl
    has_colon (x ∷ t) = ground (arith, has_colon t)

-- The tag is read out of a full image reference, `path/name:tag@digest`: a colon in the path,
-- such as a registry's port, is not taken for the tag's, nor one in the digest. The reference
-- holds no space, its path and tag no `@`, its tag no slash and no colon, its name no slash.
pub version_of-tag :
    (path name tag digest : Text)
    → Lacks b'@' path
    → Lacks b'@' name
    → Lacks b'@' tag
    → Lacks b'/' name
    → Lacks b'/' tag
    → Lacks b':' tag
    → any is_space (path ++ b'/' ∷ name ++ b':' ∷ tag) ≡ false
    → version_of ((path ++ b'/' ∷ name ++ b':' ∷ tag) ++ b'@' ∷ digest) ≡ tag
unfolding version_of after_last
version_of-tag path name tag digest p n t ns ts tc spaces =
    rw
      (
        before-append b'@' (path ++ b'/' ∷ name ++ b':' ∷ tag) digest no_at,
        strip-none (path ++ b'/' ∷ name ++ b':' ∷ tag) spaces,
        shape,
      )
      (rw
        (last_part-append b'/' (path ++ b'/' ∷ (name ++ b':' ∷ tag)) path (name ++ b':' ∷ tag)
          no_slash)
        (tag_of-append name tag tc))
  where
    shape : path ++ b'/' ∷ name ++ b':' ∷ tag ≡ path ++ (b'/' ∷ (name ++ b':' ∷ tag))
    shape = append_assoc path (b'/' ∷ name) (b':' ∷ tag)

    no_slash : Lacks b'/' (name ++ b':' ∷ tag)
    no_slash = contains-append b'/' name (b':' ∷ tag) ns ts

    no_at : Lacks b'@' (path ++ b'/' ∷ name ++ b':' ∷ tag)
    no_at = rw shape (
        contains-append b'@' path (b'/' ∷ (name ++ b':' ∷ tag)) p
          (contains-append b'@' name (b':' ∷ tag) n t))
