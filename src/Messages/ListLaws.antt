-- ===== src/Messages/ListLaws.antt =====
-- What an event does to the lists of web/src/pages/shared/Messages.tsx, and how a thread's root is found.
use mathlib.Core.List.{Perm}
use mathlib.Core.List.Perm
use csg_learning_platform.Prelude.{Bool, true, false, not, List, ◌==◌}
use csg_learning_platform.Prelude.Int.{int_eq}
use csg_learning_platform.Messages.Lists.{ChannelMessage, EventKind, deleted}

abbrev pub is_deleted : EventKind → Bool
is_deleted deleted = true
is_deleted _ = false

abbrev pub is_other : ChannelMessage → ChannelMessage → Bool
is_other p m = not (m.id == p.id)
