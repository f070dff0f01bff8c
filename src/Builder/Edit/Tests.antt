-- ===== src/Builder/Edit/Tests.antt =====
-- connect and remove_node at concrete inputs.
use ieum_agent.Base.{◌≡◌, refl, ◌≢◌, String, none, List, [], ◌∷◌, string_eq, All}
use ieum_agent.Base.Dict.{lookup}
use ieum_agent.Value.{text, Entries, entry, end, get}
use ieum_agent.Catalog.{event_entry}
use ieum_agent.Value.Text.{codes}
use ieum_agent.Validator.Graph.{is_trigger}
use ieum_agent.Validator.Samples.{mail_catalog}
use ieum_agent.Builder.Turn.{find_node}
use ieum_agent.Builder.Edit.{
  branch_error, node_is_trigger, new_edge, is_connected, refused, edited, self_edge, into_trigger,
  last_node, connect, remove_node,
}
use ieum_agent.Builder.Edit.Linked.{Linked, connect-Linked, remove_node-Linked}

abbrev step : String → String → Entries
step id type = entry "id" (text id) (entry "type" (text type) end)

abbrev nodes : List Entries
nodes = step "t" "trigger" ∷ step "a" "action" ∷ step "b" "action" ∷ []

abbrev edges : List Entries
edges = new_edge "t" "a" "" ∷ []

abbrev edges_after : List Entries
edges_after = new_edge "t" "a" "" ∷ new_edge "a" "b" "" ∷ []

edges-Linked : All (Linked mail_catalog nodes) edges
unfolding find_node get node_is_trigger event_entry is_trigger codes string_eq lookup
edges-Linked = (("t", "a", step "t" "trigger", step "a" "action", refl, refl, refl, refl, refl), tt)

connected : connect mail_catalog nodes edges "a" "b" "" ≡ edited nodes edges_after
unfolding connect find_node get node_is_trigger event_entry is_trigger codes string_eq branch_error
    is_connected lookup
connected = refl

into_itself : connect mail_catalog nodes edges "a" "a" "" ≡ refused self_edge
unfolding connect find_node get string_eq
into_itself = refl

back_to_trigger : connect mail_catalog nodes edges "a" "t" "" ≡ refused into_trigger
unfolding connect find_node get node_is_trigger event_entry is_trigger codes string_eq lookup
back_to_trigger = refl

connect-Linked_example :
    All (Linked mail_catalog nodes) edges_after × (◌≢◌ {A = String} "a" "b") × (nodes ≡ nodes)
connect-Linked_example =
    connect-Linked mail_catalog "a" "b" "" nodes edges nodes edges_after edges-Linked connected

abbrev nodes_left : List Entries
nodes_left = step "t" "trigger" ∷ step "b" "action" ∷ []

removed : remove_node "a" nodes edges ≡ edited nodes_left []
unfolding remove_node find_node get string_eq
removed = refl

kept_last : remove_node "t" (step "t" "trigger" ∷ []) [] ≡ refused last_node
unfolding remove_node find_node get string_eq
kept_last = refl

remove_node-Linked_example :
    All (Linked mail_catalog nodes_left) [] × (find_node "a" nodes_left ≡ none)
remove_node-Linked_example =
    remove_node-Linked mail_catalog "a" nodes edges nodes_left [] edges-Linked removed
