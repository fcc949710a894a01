-- ===== src/Dlt/CodeCheck/Frames.antt =====
-- `FrameLocation` of src/dlt/stacktrace.py and `_locations` of src/dlt/code_check.py.
use agentic_resident_crm.Prelude.{
  ℕ, List, [], ◌∷◌, ◌++◌, map, Option, none, some, if◌then◌else◌, ◌==◌, nat_eq, text_eq, Text,
  contains, ends_with, get_or, codes,
}
use agentic_resident_crm.Dlt.Versions.{before, after_last}

pub record FrameLocation : Type 0 where
  pub target : Text
  pub file : Option Text
  pub line : Option ℕ

-- `t.rsplit(c, 1)[0]`
unfoldable pub before_last : ℕ → Text → Text
before_last c [] = []
before_last c (x ∷ t) =
    let rest = before_last c t in if contains t c then x ∷ rest else if x == c then [] else x ∷ t

unfoldable pub class_fqcn : FrameLocation → Text
unfolding before_last
class_fqcn l = if contains l.target b'.' then before_last b'.' l.target else l.target

abbrev pub package_of : Text → Text
package_of outer = if contains outer b'.' then before_last b'.' outer else []

-- `FrameLocation.package`
unfoldable pub package_name : FrameLocation → Text
unfolding class_fqcn before before_last
package_name l = package_of (before b'$' (class_fqcn l))

abbrev pub simple_name : Text → Text
simple_name outer = if contains outer b'.' then after_last b'.' outer else outer

-- `package.replace(".", "/")`
abbrev pub as_path : Text → Text
as_path t = map (λ c. if c == b'.' then b'/' else c) t

abbrev pub in_package : Text → Text → Text
in_package [] name = name
in_package (c ∷ package_name) name = as_path (c ∷ package_name) ++ (b'/' ∷ name)

-- The file of a frame without one, from the outer class.
abbrev pub suffix_by_class : Text → Text → Text
suffix_by_class package_name [] = []
suffix_by_class package_name (c ∷ simple) = in_package package_name ((c ∷ simple) ++ codes ".java")

unfoldable pub source_path_suffix : FrameLocation → Text
unfolding class_fqcn package_name before after_last
source_path_suffix l =
    if ends_with (get_or l.file []) (codes ".java")
    then in_package (package_name l) (get_or l.file [])
    else suffix_by_class (package_name l) (simple_name (before b'$' (class_fqcn l)))

-- An entry of the failure record's `locations`.
pub record LocationEntry : Type 0 where
  pub target : Option Text
  pub file : Option Text
  pub line : Option ℕ

abbrev pub location_of : LocationEntry → Option Text → List FrameLocation
location_of e none = []
location_of e (some []) = []
location_of e (some (c ∷ t)) = record { target = c ∷ t; file = e.file; line = e.line } ∷ []

-- `_locations`
unfoldable pub locations_of : List LocationEntry → List FrameLocation
locations_of [] = []
locations_of (e ∷ es) = location_of e e.target ++ locations_of es
