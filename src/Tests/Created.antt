-- ===== src/Tests/Created.antt =====
-- Two nodes posted to the installation, of which one has the name of a node that is there.
use xcat.Prelude.{◌≡◌, refl, true, none, some, [], ◌∷◌, String, Dict}
use xcat.Db.{ok}
use xcat.Db.Nodes.Create.{NewNode, create_node, insert_nics}
use xcat.Db.Nodes.Create.Unique.{is_known}
use xcat.Db.{session_for_write}
use xcat.Api.Create.{Creator, post, single_create, create_one, create_object, refused}
use xcat.Api.Create.Told.{post-told}
use xcat.Tests.{rolling_back, rolling_back_lem, tables, idle, card}

abbrev fresh : NewNode
fresh = record {
  row = record idle { id = 3; name = "c" };
  nics = some (record card { id = 2; uuid = some "v"; mac = some "n" } ∷ []);
}

abbrev taken : NewNode
taken = record fresh { row = record idle { id = 4 } }

abbrev creator : Creator
creator = record { engine = rolling_back; text = λ e. "Error: no"; invalid = λ node. none }

abbrev reply : Dict String
reply = ("c", "ok") ∷ ("a", "Error: no") ∷ []

posted : (post creator (fresh ∷ taken ∷ []) tables).0 ≡ ok reply
unfolding post single_create create_one create_object refused create_node session_for_write
    insert_nics
posted = refl

post-told_example : is_known "c" (post creator (fresh ∷ taken ∷ []) tables).1.nodes ≡ true
post-told_example =
    post-told creator rolling_back_lem (λ e. refl) (fresh ∷ taken ∷ []) tables reply "c" posted refl
