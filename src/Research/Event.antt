-- ===== src/Research/Event.antt =====
-- src/research/event.cpp
use ctguard.Base.{
  Bool, true, false, List, [], ◌∷◌, ◌++◌, Bytes, codes, emplace, insert_all, text_key,
}
use ctguard.Research.Types.{SourceEvent, Event, Fields, RuleInfo, default_event}
use ctguard.Research.Env.{Env}

abbrev bool_text : Bool → Bytes
bool_text true = codes "true"
bool_text false = codes "false"

-- `event::event`: six traits by `insert`.
unfoldable pub event_of : Env → SourceEvent → Event
event_of env se =
    let t0 : Fields = emplace (codes "hostname") se.hostname [] in
    let t1 : Fields = emplace (codes "source_program") se.source_program t0 in
    let t2 : Fields = emplace (codes "source_domain") se.source_domain t1 in
    let t3 : Fields = emplace (codes "control") (bool_text se.control_message) t2 in
    let t4 : Fields = emplace (codes "time_scanned") (env.format_time se.time_scanned) t3 in
    let t5 : Fields = emplace (codes "time_send") (env.format_time se.time_send) t4 in
    record default_event { logstr = se.message; control_message = se.control_message; traits = t5 }

-- `event::add_groups`
unfoldable pub add_groups : List Bytes → Event → Event
add_groups gs e = record e { groups = insert_all gs e.groups }

abbrev spaced : List Bytes → Bytes
spaced [] = []
spaced (g ∷ gs) = (32 ∷ g) ++ spaced gs

-- `event::groups_2_str`
unfoldable pub groups_2_str : List Bytes → Bytes
groups_2_str [] = []
groups_2_str (g ∷ gs) = g ++ spaced gs

-- `event::update`
unfoldable pub update : RuleInfo → Event → Event
unfolding add_groups
update r e =
    add_groups r.groups
      (record e { priority = r.priority; rule_id = r.id; description = r.description })
