-- ===== src/External/Plain.antt =====
-- External names with no naming rules, and with a section of rules that is missing.
use nds.Prelude.{ℕ, zero, suc, ◌≡◌, refl, false, none, List, [], ◌∷◌, ◌++◌, if◌then◌else◌, Text}
use nds.Types.{ok}
use nds.Naming.{
  Rules, NameKind, root_name, built, get_name, get_separator, in_force, is_empty,
  build_name_from_rule,
}
use nds.External.{Component, name_kind, joined, of_result, below_parent, build_full_external_name}

-- The external names with the default separators: that of level 0 before the root, and each
-- component's own before its name. A component with an empty name is passed over.
unfoldable pub plain_external_name : (ℕ → Text) → Component → List Component → Text
plain_external_name default c [] = default 0 ++ c.external_name
plain_external_name default c (parent ∷ above) =
    let front = plain_external_name default parent above in
    if is_empty c.external_name then front else (front ++ default c.node_level) ++ c.external_name

get_name-none :
    (r : Rules) (kind : NameKind) (name : Text)
    → in_force r ≡ none
    → get_name r kind name ≡ built name
unfolding get_name build_name_from_rule
get_name-none r kind name e = rw (build_name_from_rule, e)

get_separator-none :
    (default : ℕ → Text) (r : Rules) (n : ℕ)
    → in_force r ≡ none
    → get_separator default r n ≡ ok (default n)
unfolding get_separator
get_separator-none default r zero e = rw (get_separator, e)
get_separator-none default r (suc n) e = rw (get_separator, e)

below_parent-plain :
    (name front separator : Text)
    → below_parent (built name) (built front) (built separator)
      ≡ built (if is_empty name then front else (front ++ separator) ++ name)
unfolding below_parent is_empty joined
below_parent-plain [] front separator = refl
below_parent-plain (c ∷ name) front separator = refl

-- Where no naming rules are in force, the full external name is made of the external names of the
-- object and those above it, each behind the default separator of its level; an object whose external
-- name is empty, other than the root, adds neither.
pub build_full_external_name-plain :
    (default : ℕ → Text) (r : Rules) (c : Component) (above : List Component)
    → in_force r ≡ none
    → build_full_external_name default r false c above ≡ built (plain_external_name default c above)
unfolding build_full_external_name plain_external_name of_result joined
build_full_external_name-plain default r c [] e =
    rw (get_separator-none default r 0 e, get_name-none r root_name c.external_name e)
build_full_external_name-plain default r c (p ∷ above) e =
    rw
      (
        build_full_external_name-plain default r p above e,
        get_separator-none default r c.node_level e,
        get_name-none r (name_kind c.role) c.external_name e,
      )
      (below_parent-plain c.external_name (plain_external_name default p above)
        (default c.node_level))
