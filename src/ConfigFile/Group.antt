-- ===== src/ConfigFile/Group.antt =====
-- src/libs/config/configgroup.hpp. A group stands with its subgroups: a `std::set` in the order of
-- their positions. The options, a `std::unordered_map`, are kept and visited in key order.
use ctguard.Base.{Bool, false, ◌||◌, List, [], Option, none, some, Bytes, beq, if◌then◌else◌}
use ctguard.ConfigFile.Token.{Position, earlier}

pub record ConfigOption : Type 0 where
  pub key : Bytes
  pub options : List Bytes
  pub pos : Position

pub record GroupInfo : Type 0 where
  pub options : List (Bytes × ConfigOption)
  pub name : Bytes
  pub keyword : Bytes
  pub pos : Position

pub data Groups : Type 0 where
  nil : Groups
  -- A group, its subgroups, and the groups behind it.
  cons : GroupInfo → Groups → Groups → Groups

abbrev pub ConfigGroup : Type 0
ConfigGroup = GroupInfo × Groups

unfoldable pub new_group : Bytes → Bytes → Position → ConfigGroup
new_group name keyword pos =
    (record { options = []; name = name; keyword = keyword; pos = pos }, nil)

-- `m_subconfigs.emplace`: none if a group of that position is there.
unfoldable pub insert_group : ConfigGroup → Groups → Option Groups
unfolding earlier
insert_group (g, gs) nil = some (cons g gs nil)
insert_group (g, gs) (cons h hs rest) =
    let more = insert_group (g, gs) rest in
    if earlier g.pos h.pos
    then some (cons g gs (cons h hs rest))
    else if earlier h.pos g.pos
    then (elim more [ none ↦ none | some r ↦ some (cons h hs r) ])
    else none

-- Whether a subgroup has the keyword.
unfoldable pub has_keyword : Bytes → Groups → Bool
has_keyword k nil = false
has_keyword k (cons g gs rest) = beq g.keyword k || has_keyword k rest
