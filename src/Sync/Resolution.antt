-- ===== src/Sync/Resolution.antt =====
-- apps/sync/services.py, `resolve_sync_conflict`: the conflict is given by its place among the logs,
-- and `none` is the `ValueError` of an unsupported status.
use codepop.Base.{Bool, List, Option, [], false, if◌then◌else◌, none, some, suc, true, zero, ℕ, ◌∷◌}
use codepop.Sync.Projections.{ConflictLog, Node, ResolutionStatus, SyncAction}

abbrev pub is_resolution : ResolutionStatus → Bool
is_resolution ResolutionStatus.open_conflict = false
is_resolution ResolutionStatus.resolved = true
is_resolution ResolutionStatus.ignored = true

unfoldable pub resolve_at : ℕ → ResolutionStatus → List ConflictLog → List ConflictLog
resolve_at n status [] = []
resolve_at zero status (c ∷ conflicts) = record c { resolution_status = status } ∷ conflicts
resolve_at (suc n) status (c ∷ conflicts) = c ∷ resolve_at n status conflicts

unfoldable pub resolve_sync_conflict : ℕ → ResolutionStatus → Node → Option Node
resolve_sync_conflict n status node =
    if is_resolution status
    then some (record node {
      conflicts = resolve_at n status node.conflicts;
      audit = SyncAction.conflict_resolved ∷ node.audit;
    })
    else none
