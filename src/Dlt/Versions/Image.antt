-- ===== src/Dlt/Versions/Image.antt =====
-- The version in a container image reference, `version_of` of src/dlt/versions.py, with the
-- methods of `str` that it calls.
use agentic_resident_crm.Prelude.{
  ℕ, Bool, [], ◌∷◌, ◌==◌, nat_eq, if◌then◌else◌, Text, leb, ◌&&◌, ◌||◌, reverse, contains,
}

-- `str.isspace` for ASCII.
abbrev pub is_space : ℕ → Bool
is_space c = (leb 9 c && leb c 13) || (leb 28 c && leb c 32)

unfoldable pub drop_while : (ℕ → Bool) → Text → Text
drop_while p [] = []
drop_while p (c ∷ t) = let rest = drop_while p t in if p c then rest else c ∷ t

-- `str.strip()`
unfoldable pub strip : Text → Text
unfolding drop_while
strip t = reverse (drop_while is_space (reverse (drop_while is_space t)))

-- `t.split(c, 1)[0]`
unfoldable pub before : ℕ → Text → Text
before c [] = []
before c (x ∷ t) = if x == c then [] else x ∷ before c t

-- `t.rsplit(c, 1)[-1]`, where `best` is what follows the last `c` so far.
unfoldable pub last_part : ℕ → Text → Text → Text
last_part c best [] = best
last_part c best (x ∷ t) = last_part c (if x == c then t else best) t

unfoldable pub after_last : ℕ → Text → Text
unfolding last_part
after_last c t = last_part c t t

unfoldable pub tag_of : Text → Text
unfolding after_last
tag_of last = if contains last b':' then after_last b':' last else last

unfoldable pub version_of : Text → Text
unfolding strip before after_last tag_of
version_of reference = tag_of (after_last b'/' (strip (before b'@' reference)))
