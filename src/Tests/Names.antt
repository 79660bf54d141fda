-- ===== src/Tests/Names.antt =====
-- Requests to the API: the node `b` is locked, and `c` is not there.
use xcat.Prelude.{◌≡◌, refl, false, String, none, some, List, [], ◌∷◌, lookup, contains}
use xcat.Db.{Db, ok}
use xcat.Db.Nodes.Reserve.{reserved}
use xcat.Db.Nodes.Counts.{UniqueNames}
use xcat.Conductor.{fill_result}
use xcat.Api.{
  filter_unavailable_nodes, RpcFuture, Reply, replied, pending, collect, collect_all, expire,
  wait_rpc_result,
}
use xcat.Api.Filter.{contains-filter_unavailable_nodes, lookup-filter_unavailable_nodes}
use xcat.Api.Replies.{lookup-wait_rpc_result}
use xcat.Tests.{tables, tables-UniqueNames}

abbrev b_locked : Db
b_locked = reserved "h" ("b" ∷ []) tables

b_locked-UniqueNames : UniqueNames b_locked.nodes
b_locked-UniqueNames = tables-UniqueNames

abbrev three : List String
three = "a" ∷ "b" ∷ "c" ∷ []

contains-filter_unavailable_nodes_example :
    contains (filter_unavailable_nodes three false b_locked).1 "b" ≡ false
contains-filter_unavailable_nodes_example =
    contains-filter_unavailable_nodes three "b" b_locked b_locked-UniqueNames

lookup-filter_unavailable_nodes_example :
    lookup "c" (filter_unavailable_nodes three false b_locked).0 ≡ some "Could not be found."
lookup-filter_unavailable_nodes_example =
    lookup-filter_unavailable_nodes three "c" b_locked b_locked-UniqueNames

-- The call of `a` times out, and that of `b` is answered.
abbrev futures : List RpcFuture
futures =
    record { nodes = some ("a" ∷ []); outcome = pending }
    ∷ record { nodes = some ("b" ∷ []); outcome = replied (("b", "ok") ∷ []) }
    ∷ []

abbrev before : Reply
before = record { nodes = ("c", "Could not be found.") ∷ []; error = none; errorcode = none }

abbrev after : Reply
after = record before { nodes = ("c", "Could not be found.") ∷ ("b", "ok") ∷ ("a", "timeout") ∷ [] }

before-after : wait_rpc_result "timeout" futures before ≡ ok after
unfolding wait_rpc_result collect collect_all expire fill_result
before-after = refl

lookup-wait_rpc_result_example : lookup "a" after.nodes ≡ some "timeout"
lookup-wait_rpc_result_example =
    lookup-wait_rpc_result "timeout" "a" futures before after before-after
