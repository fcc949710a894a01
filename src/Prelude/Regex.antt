-- ===== src/Prelude/Regex.antt =====
-- Matchers for the regular expressions of the program, on texts, with the order in which the
-- backtracking of Python's `re` tries its choices. A match is the character before its end, and the
-- rest of the text.
use Prim.Native.Nat.{ℕ, zero, suc, ◌-◌}
use mathlib.Core.Bool.{Bool, true, false, ◌&&◌, ◌||◌, not}
use mathlib.Core.List.{List, [], ◌∷◌, ◌++◌}
use mathlib.Core.Option.{Option, none, some}
use agentic_resident_crm.Prelude.Tests.{leb, nat_beq, if◌then◌else◌}
use agentic_resident_crm.Prelude.Lists.{length, take}
use agentic_resident_crm.Prelude.Texts.{Text}

abbrev pub Matcher : Type 0
Matcher = Option ℕ → Text → List (Option ℕ × Text)

-- `\w` for ASCII.
abbrev pub is_word : ℕ → Bool
is_word c =
    (leb b'A' c && leb c b'Z')
    || (leb b'a' c && leb c b'z')
    || (leb b'0' c && leb c b'9')
    || nat_beq c b'_'

abbrev pub word_at : Option ℕ → Bool
word_at none = false
word_at (some c) = is_word c

abbrev pub first_char : Text → Option ℕ
first_char [] = none
first_char (c ∷ t) = some c

abbrev pub one : (ℕ → Bool) → Matcher
one p before [] = []
one p before (c ∷ t) = if p c then (some c, t) ∷ [] else []

abbrev pub differ : Bool → Bool → Bool
differ true b = not b
differ false b = b

-- `\b`
abbrev pub edge : Matcher
edge before t = if differ (word_at before) (word_at (first_char t)) then (before, t) ∷ [] else []

abbrev pub each : Matcher → List (Option ℕ × Text) → List (Option ℕ × Text)
each m [] = []
each m ((before, t) ∷ rest) = m before t ++ each m rest

infixr 40 ◌then◌
abbrev pub ◌then◌ : Matcher → Matcher → Matcher
(m then n) before t = each n (m before t)

abbrev pub either : Matcher → Matcher → Matcher
either m n before t = m before t ++ n before t

abbrev pub nothing : Matcher
nothing before t = (before, t) ∷ []

-- `m*`, for an `m` that takes a character at least, as often as there are characters.
abbrev pub repeated : ℕ → Matcher → Matcher
repeated zero m before t = (before, t) ∷ []
repeated (suc n) m before t = each (repeated n m) (m before t) ++ (before, t) ∷ []

abbrev pub many : Matcher → Matcher
many m before t = repeated (length t) m before t

abbrev pub literal : Text → Matcher
literal [] = nothing
literal (c ∷ t) = one (nat_beq c) then literal t

abbrev pub is_match : List (Option ℕ × Text) → Bool
is_match [] = false
is_match (m ∷ ms) = true

-- `re.search` from a place in a text, as a test.
unfoldable pub searches : Matcher → Option ℕ → Text → Bool
searches m before [] = is_match (m before [])
searches m before (c ∷ t) = is_match (m before (c ∷ t)) || searches m (some c) t

-- What the search at one place comes to: the match if there is one, and where it goes on.
abbrev pub step_of : List (Option ℕ × Text) → Text → Option Text × (Option ℕ × Text)
step_of [] [] = (none, (none, []))
step_of [] (c ∷ t) = (none, (some c, t))
step_of ((before, rest) ∷ ms) t = (some (take (length t - length rest) t), (before, rest))

abbrev pub with_match : Option Text → List Text → List Text
with_match none rest = rest
with_match (some t) rest = t ∷ rest

unfoldable pub find_from : ℕ → Matcher → Option ℕ → Text → List Text
find_from zero m before t = []
find_from (suc n) m before t =
    let (found, (next, rest)) = step_of (m before t) t in with_match found (find_from n m next rest)

-- `re.findall`: each step takes a character at least, so the length is fuel enough.
unfoldable pub find_all : Matcher → Text → List Text
unfolding find_from
find_all m t = find_from (length t) m none t
