-- ===== src/Tests/Oversight.antt =====
-- The theorem about `DONE`, at a commit in an empty repository.
use syndicate.Prelude.{◌≡◌, refl, false, is_empty, strip, str, join}
use syndicate.Nodes.Shell.{quote}
use syndicate.Nodes.Ledger.{join_or}
use syndicate.Exec.{Result, ok, raised, ◌>>=◌}
use syndicate.State.{AgentState}
use syndicate.State.Update.{no_update}
use syndicate.Nodes.Executor.{ticket_of}
use syndicate.Nodes.Oversight.{
  files_of, paths_of, message_of, run, identify, head, commit_files, oversight_git_node,
}
use syndicate.Nodes.Oversight.Done.{Verified, oversight-done}
use syndicate.Tests.World.{demo, demo-ReportsHead, start, empty_world, head_of}

abbrev update_of : Result AgentState → AgentState
update_of (ok u) = u
update_of (raised e) = no_update

oversight-done_example :
    (is_empty (files_of (ticket_of start)) ≡ false)
    × Verified head_of demo start empty_world (oversight_git_node demo start empty_world).1
unfolding oversight_git_node identify commit_files run head paths_of message_of quote join join_or
    strip str ◌>>=◌
oversight-done_example =
    oversight-done head_of demo start empty_world
      {u = update_of (oversight_git_node demo start empty_world).0}
      {w' = (oversight_git_node demo start empty_world).1} (demo-ReportsHead _) refl refl
